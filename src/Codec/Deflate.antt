-- ===== src/Codec/Deflate.antt =====
-- src/codec_deflate.c: the state of the DEFLATE family, and the bytes of its wrappers.
pub mod Life
pub mod Process
pub mod Wrapper
pub mod Sound
pub mod Rounds
pub mod Returns
pub mod Codecs
pub mod Bound
pub mod Start
pub mod Sums
pub mod Probe
pub mod OneShot
pub mod Session
use zukomp.Buffer.{Buffer}
use zukomp.Types.{need_input, err_truncated, zu_finish}
use zukomp.Base.{
  Outcome, ℕ, ◌+◌, ◌-◌, ◌*◌, ◌/◌, ◌%◌, ◌^◌, Bool, true, false, not, List, [], ◌∷◌, ltb, ◌==◌, ◌&&◌,
  ◌||◌, if◌then◌else◌, get_or, length, has_bit,
}
use zukomp.Base.Int.{ℤ, pos, ltb_ℤ, eq_ℤ}
use zukomp.Types.{
  Status, ok, stream_end, err_invalid_argument, err_unsupported, err_invalid_data, err_memory,
  err_internal, err_checksum, is,
}
use zukomp.Gzip.{Header}
use zukomp.Codec.Miniz.{
  Code, mz_ok, mz_stream_end, mz_buf_error, mz_data_error, mz_mem_error, mz_param_error,
  mz_stream_error, mz_need_dict, mz_other,
}

-- `wrap_kind`
pub data Wrap : Type 0 where
  raw zlib gzip : Wrap

-- `wrap_state`
pub data Stage : Type 0 where
  header body trailer member_end done : Stage

-- `deflate_state`, less `mz_live`, which only freeing reads.
pub record Deflate (M : Type 0) : Type 0 where
  pub mz : M
  pub mz_called : Bool
  pub encoder : Bool
  pub wrap : Wrap
  pub stage : Stage
  pub level : ℤ
  pub hdr : List ℕ
  pub hdr_len : ℕ
  pub hdr_pos : ℕ
  pub tail : List ℕ
  pub tail_len : ℕ
  pub tail_pos : ℕ
  pub checksum : ℕ
  pub uncompressed : ℕ
  pub gz : Header
  pub dec_flags : ℕ
  pub probe_magic : Bool

-- `zu_int_from_mz`
unfoldable pub from_mz : Code → Status
from_mz mz_ok = ok
from_mz mz_stream_end = stream_end
from_mz mz_buf_error = ok
from_mz mz_data_error = err_invalid_data
from_mz mz_mem_error = err_memory
from_mz mz_param_error = err_invalid_argument
from_mz mz_stream_error = err_invalid_data
from_mz mz_need_dict = err_unsupported
from_mz mz_other = err_internal

-- FLEVEL, which is advisory.
unfoldable pub flevel : ℤ → ℕ
flevel level =
    if not (ltb_ℤ (pos 1) level)
    then 0
    else if not (ltb_ℤ (pos 5) level)
    then 1
    else if eq_ℤ level (pos 6)
    then 2
    else 3

-- `zu_int_zlib_header`: CMF and FLG, whose last bits make the two a multiple of 31.
unfoldable pub zlib_header : ℤ → List ℕ
unfolding flevel
zlib_header level =
    let flg = flevel level * 2 ^ 6 in
    let rem = (0x78 * 2 ^ 8 + flg) % 31 in
    0x78 ∷ (if not (rem == 0) then (flg + (31 - rem)) % 256 else flg) ∷ []

unfoldable pub check_bytes : ℕ → ℕ → Status
check_bytes cmf flg =
    if not (cmf % 16 == 8)
    then err_invalid_data
    else if ltb 7 (cmf / 16 % 16)
    then err_invalid_data
    else if not ((cmf * 2 ^ 8 + flg) % 31 == 0)
    then err_invalid_data
    else if has_bit flg 0x20
    then err_unsupported
    else ok

-- `zu_int_zlib_check_header`
unfoldable pub zlib_check_header : List ℕ → Status
unfolding check_bytes
zlib_check_header hdr = check_bytes (get_or hdr 0 0) (get_or hdr 1 0)

-- `zlib_sniff`
unfoldable pub zlib_sniff : List ℕ → Bool
unfolding zlib_check_header
zlib_sniff buf =
    if ltb (length buf) 2
    then false
    else is (zlib_check_header buf) ok || is (zlib_check_header buf) err_unsupported

-- `(uint8_t) (c >> 8 k)`
abbrev byte_at : ℕ → ℕ → ℕ
byte_at c k = c / 2 ^ (8 * k) % 256

-- The checksum trailer as the encoder writes it: `c` is cast to `uint32_t` first.
unfoldable pub trailer_bytes : Wrap → ℕ → ℕ → List ℕ
trailer_bytes zlib checksum uncompressed =
    let c = checksum % 2 ^ 32 in byte_at c 3 ∷ byte_at c 2 ∷ byte_at c 1 ∷ byte_at c 0 ∷ []
trailer_bytes _ checksum uncompressed =
    let c = checksum % 2 ^ 32 in
    let isize = uncompressed % 2 ^ 32 in
    byte_at c 0
    ∷ byte_at c 1
    ∷ byte_at c 2
    ∷ byte_at c 3
    ∷ byte_at isize 0
    ∷ byte_at isize 1
    ∷ byte_at isize 2
    ∷ byte_at isize 3
    ∷ []

-- Four bytes, the lowest first or last.
abbrev pub low_first : List ℕ → ℕ → ℕ
low_first tail i =
    get_or tail i 0
    + get_or tail (i + 1) 0 * 2 ^ 8
    + get_or tail (i + 2) 0 * 2 ^ 16
    + get_or tail (i + 3) 0 * 2 ^ 24

abbrev pub high_first : List ℕ → ℕ
high_first tail =
    get_or tail 0 0 * 2 ^ 24 + get_or tail 1 0 * 2 ^ 16 + get_or tail 2 0 * 2 ^ 8 + get_or tail 3 0

-- The decoder's test of a whole trailer.
unfoldable pub check_trailer : Wrap → List ℕ → ℕ → ℕ → Status
check_trailer zlib tail checksum uncompressed =
    if not (high_first tail == checksum % 2 ^ 32) then err_checksum else ok
check_trailer _ tail checksum uncompressed =
    if not (low_first tail 0 == checksum % 2 ^ 32)
    then err_checksum
    else if not (low_first tail 4 == uncompressed % 2 ^ 32)
    then err_checksum
    else ok

-- What an iteration makes of the state and the buffer.
abbrev pub Round : Type 0 → Type 0
Round M = Outcome (Deflate M × Buffer) (Status × Deflate M × Buffer)

-- A decoder with nothing to read.
abbrev pub starved : ℕ → Status
starved flush = if flush == zu_finish then err_truncated else need_input

unfoldable pub is_gzip : Wrap → Bool
is_gzip gzip = true
is_gzip _ = false

unfoldable pub is_raw : Wrap → Bool
is_raw raw = true
is_raw _ = false
