-- ===== src/Codec/Zstd.antt =====
-- src/codec_zstd.c: the state of the zstd codec, its statuses and its parameters.
pub mod Life
pub mod Window
pub mod Codecs
pub mod OneShot
pub mod Session
pub mod Encode
pub mod Decode
use zukomp.Base.{
  ℕ, zero, suc, ◌+◌, ◌^◌, Bool, true, false, not, Option, none, some, ltb, ◌==◌, if◌then◌else◌,
}
use zukomp.Base.Int.{ℤ, pos, eq_ℤ}
use zukomp.Types.{
  Status, ok, err_invalid_argument, err_unsupported, err_invalid_data, err_checksum, err_memory,
  err_output_limit, err_internal, level_default,
}
use zukomp.Frames.{Frames}
use zukomp.Codec.Libzstd.{
  Failure, checksum_wrong, memory_allocation, window_too_large, dictionary_wrong,
  frame_parameter_unsupported, version_unsupported, parameter_unsupported, parameter_out_of_bound,
  other_failure, Result, failed, value, Library,
}

-- `zstd_state`: a context is none where its pointer is NULL.
pub record Zstd (C D : Type 0) : Type 0 where
  pub encoder : Bool
  pub cctx : Option C
  pub dctx : Option D
  pub level : ℤ
  pub max_output : ℕ
  pub frames : Frames
  pub done : Bool

-- `zu_int_zstd_error`, on the direction and the limit of the state.
unfoldable pub error_status : Bool → ℕ → Failure → Status
error_status encoder max_output checksum_wrong = err_checksum
error_status encoder max_output memory_allocation = err_memory
error_status encoder max_output window_too_large =
    if not (max_output == 0) then err_output_limit else err_unsupported
error_status encoder max_output dictionary_wrong = err_unsupported
error_status encoder max_output frame_parameter_unsupported = err_unsupported
error_status encoder max_output version_unsupported = err_unsupported
error_status encoder max_output parameter_unsupported = err_invalid_argument
error_status encoder max_output parameter_out_of_bound = err_invalid_argument
error_status encoder max_output other_failure = if encoder then err_internal else err_invalid_data

-- The loop of `zu_int_ceil_log2` from `b` on, where `left` is 63 - b.
unfoldable pub log_from : ℕ → ℕ → ℕ → ℕ
log_from zero b n = b
log_from (suc left) b n = let more = log_from left (b + 1) n in if ltb (2 ^ b) n then more else b

-- `zu_int_ceil_log2`
unfoldable pub ceil_log2 : ℕ → ℕ
unfolding log_from
ceil_log2 n = log_from 63 0 n

abbrev pub window_log_default : ℕ
window_log_default = 27

abbrev pub window_log_floor : ℕ
window_log_floor = 23

-- `wlog` of `zu_int_zstd_window`
unfoldable pub window_log : ℕ → ℕ
window_log max_output =
    let log = ceil_log2 max_output in
    let want = if ltb log window_log_floor then window_log_floor else log in
    if max_output == 0
    then window_log_default
    else if ltb want window_log_default
    then want
    else window_log_default

-- `ZSTD_CLEVEL_DEFAULT`
abbrev pub zstd_default_level : ℤ
zstd_default_level = pos 3

-- `ZSTD_isError`
abbrev pub is_error : Result → Bool
is_error (failed r) = true
is_error (value n) = false

module _ {C D : Type 0} (z : Library C D) where
  unfoldable pub windowed : Zstd C D → Result × D → Status × Zstd C D
  windowed s (r, d) = (if is_error r then err_internal else ok, record s { dctx = some d })

  -- `zu_int_zstd_window`, over a context that is not NULL.
  unfoldable pub set_window : Zstd C D → D → Status × Zstd C D
  unfolding windowed
  set_window s d = windowed s (z.window_log_max d (window_log s.max_output))

  abbrev own_level : ℤ → ℤ
  own_level level = if eq_ℤ level level_default then zstd_default_level else level

  levelled : Zstd C D → ℤ → Result × C → Status × Zstd C D
  levelled s level (r, c) =
      if is_error r
      then (err_invalid_argument, record s { cctx = some c })
      else (ok, record s { cctx = some c; level = level })

  -- `zu_int_zstd_level`
  unfoldable pub set_level : Zstd C D → C → ℤ → Status × Zstd C D
  unfolding levelled
  set_level s c level = levelled s (own_level level) (z.compression_level c (own_level level))
