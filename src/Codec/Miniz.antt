-- ===== src/Codec/Miniz.antt =====
-- What src/codec_deflate.c uses of the vendored miniz (src/vendor/miniz), as a parameter. `M` is what
-- `mz_stream` points at; a call is given the bytes on offer and the room.
use zukomp.Base.{ℕ, ◌≤◌, ◌≡◌, Bool, true, false, List, length}
use zukomp.Base.Int.{ℤ}

-- The return codes that the codec tells apart.
pub data Code : Type 0 where
  mz_ok mz_stream_end mz_buf_error mz_data_error mz_mem_error mz_param_error mz_stream_error : Code
  mz_need_dict mz_other : Code

-- The codes that miniz documents for its init and reset functions.
abbrev pub starts : Code → Bool
starts mz_ok = true
starts mz_mem_error = true
starts mz_param_error = true
starts mz_stream_error = true
starts _ = false

pub data Flush : Type 0 where
  no_flush sync_flush finish : Flush

-- A call of `mz_deflate` or `mz_inflate`: the code, the input taken and the output written.
pub record Turn (M : Type 0) : Type 0 where
  pub result : Code
  pub stream : M
  pub used : ℕ
  pub out : List ℕ

-- The functions, and the checksums over bytes that are there; the empty list stands for a NULL pointer.
pub record Engine (M : Type 0) : Type 0 where
  pub deflate_init : ℤ → Code × M
  pub inflate_init : Code × M
  pub deflate_reset : M → Code × M
  pub inflate_reset : M → Code × M
  pub deflate : M → List ℕ → ℕ → Flush → Turn M
  pub inflate : M → List ℕ → ℕ → Flush → Turn M
  pub crc32 : ℕ → List ℕ → ℕ
  pub adler32 : ℕ → List ℕ → ℕ

-- `avail_in` and `avail_out` only go down: a call takes no more than it is offered and writes no more
-- than there is room for. What starts a stream answers MZ_OK or that it could not.
pub record Bounded {M : Type 0} (e : Engine M) : Type 0 where
  pub deflate_used :
      (m : M) (xs : List ℕ) (room : ℕ) (f : Flush) → (e.deflate m xs room f).used ≤ length xs
  pub deflate_room :
      (m : M) (xs : List ℕ) (room : ℕ) (f : Flush) → length (e.deflate m xs room f).out ≤ room
  pub inflate_used :
      (m : M) (xs : List ℕ) (room : ℕ) (f : Flush) → (e.inflate m xs room f).used ≤ length xs
  pub inflate_room :
      (m : M) (xs : List ℕ) (room : ℕ) (f : Flush) → length (e.inflate m xs room f).out ≤ room
  pub deflate_starts : (level : ℤ) → starts (e.deflate_init level).0 ≡ true
  pub inflate_starts : starts e.inflate_init.0 ≡ true
  pub inflate_restarts : (m : M) → starts (e.inflate_reset m).0 ≡ true
