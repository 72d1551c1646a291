-- ===== src/Codec/Libzstd.antt =====
-- What src/codec_zstd.c uses of the vendored libzstd (src/vendor/zstd), as a parameter. `C` and `D` are
-- what `ZSTD_CCtx *` and `ZSTD_DCtx *` point at.
use zukomp.Base.{ℕ, ◌≤◌, ◌<◌, ◌≡◌, Bool, true, Option, List, length}
use zukomp.Base.Int.{ℤ}

-- The error codes that the codec tells apart.
pub data Failure : Type 0 where
  checksum_wrong memory_allocation window_too_large dictionary_wrong : Failure
  frame_parameter_unsupported version_unsupported parameter_unsupported : Failure
  parameter_out_of_bound other_failure : Failure

-- A `size_t` that `ZSTD_isError` tells from a value.
pub data Result : Type 0 where
  failed : Failure → Result
  value : ℕ → Result

-- `ZSTD_EndDirective`
pub data Directive : Type 0 where
  continue flush end : Directive

-- A call that is given bytes and room: what it returns, `in.pos` and the bytes put out.
pub record Turn (X : Type 0) : Type 0 where
  pub result : Result
  pub stream : X
  pub used : ℕ
  pub out : List ℕ

pub record Library (C D : Type 0) : Type 0 where
  pub create_cctx : Option C
  pub create_dctx : Option D
  pub compression_level : C → ℤ → Result × C
  pub checksum_flag : C → Result × C
  pub window_log_max : D → ℕ → Result × D
  pub reset_cctx : C → Result × C
  pub reset_dctx : D → Result × D
  pub compress_stream : C → List ℕ → ℕ → Directive → Turn C
  pub decompress_stream : D → List ℕ → ℕ → Turn D
  pub compress_bound : ℕ → Result

-- A call takes no more than it is offered and writes no more than there is room for.
pub record Bounded {C D : Type 0} (z : Library C D) : Type 0 where
  pub compress_used :
      (c : C) (xs : List ℕ) (room : ℕ) (op : Directive)
      → (z.compress_stream c xs room op).used ≤ length xs
  pub compress_room :
      (c : C) (xs : List ℕ) (room : ℕ) (op : Directive)
      → length (z.compress_stream c xs room op).out ≤ room
  pub decompress_used :
      (d : D) (xs : List ℕ) (room : ℕ) → (z.decompress_stream d xs room).used ≤ length xs
  pub decompress_room :
      (d : D) (xs : List ℕ) (room : ℕ) → length (z.decompress_stream d xs room).out ≤ room

-- What `ZSTD_decompressStream` documents of its answer 0: a frame is at its end, and the next call
-- starts another. `fresh` says of a context that the next call starts a frame; a frame has a header, so
-- that no frame ends without input.
pub record Delimits {C D : Type 0} (z : Library C D) : Type 0 where
  pub fresh : D → Bool
  pub ended :
      (d : D) (xs : List ℕ) (room : ℕ)
      → (z.decompress_stream d xs room).result ≡ value 0
      → fresh (z.decompress_stream d xs room).stream ≡ true
  pub starts :
      (d : D) (xs : List ℕ) (room : ℕ)
      → fresh d ≡ true
      → (z.decompress_stream d xs room).result ≡ value 0
      → 0 < (z.decompress_stream d xs room).used
