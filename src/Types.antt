-- ===== src/Types.antt =====
-- The vocabulary of inst/include/zukomp.h: status, flush modes, options, and the codec vtable.
use zukomp.Base.{ℕ, ◌-◌, ◌^◌, Bool, Option, List, ◌==◌}
use zukomp.Base.Int.{ℤ}
use zukomp.Buffer.{Buffer}

-- `zu_status`
pub data Status : Type 0 where
  ok need_input need_output stream_end : Status
  err_invalid_argument err_unsupported err_invalid_data err_truncated err_checksum : Status
  err_trailing err_memory err_output_limit err_ratio_limit err_internal : Status

-- The enumerators' values, by which the code compares them.
abbrev pub code : Status → ℕ
code ok = 0
code need_input = 1
code need_output = 2
code stream_end = 3
code err_invalid_argument = 4
code err_unsupported = 5
code err_invalid_data = 6
code err_truncated = 7
code err_checksum = 8
code err_trailing = 9
code err_memory = 10
code err_output_limit = 11
code err_ratio_limit = 12
code err_internal = 13

abbrev pub is : Status → Status → Bool
is a b = code a == code b

-- `zu_flush` is an `int` that a caller may have invented: any number.
abbrev pub zu_run : ℕ
zu_run = 0

abbrev pub zu_flush : ℕ
zu_flush = 1

abbrev pub zu_finish : ℕ
zu_finish = 2

-- `zu_codec`
abbrev pub codec_none : ℕ
codec_none = 0

abbrev pub codec_identity : ℕ
codec_identity = 1

abbrev pub codec_deflate_raw : ℕ
codec_deflate_raw = 2

abbrev pub codec_zlib : ℕ
codec_zlib = 3

abbrev pub codec_gzip : ℕ
codec_gzip = 4

abbrev pub codec_brotli : ℕ
codec_brotli = 16

abbrev pub codec_zstd : ℕ
codec_zstd = 17

abbrev pub codec_lz4_frame : ℕ
codec_lz4_frame = 18

abbrev pub codec_lz4_block : ℕ
codec_lz4_block = 19

abbrev pub codec_snappy_frame : ℕ
codec_snappy_frame = 20

abbrev pub codec_snappy_raw : ℕ
codec_snappy_raw = 21

abbrev pub codec_vendor_base : ℕ
codec_vendor_base = 1024

-- `ZU_DEC_*` and `ZU_CAN_*`
abbrev pub dec_reject_trailing : ℕ
dec_reject_trailing = 1

abbrev pub dec_concat_members : ℕ
dec_concat_members = 2

abbrev pub dec_expected_size : ℕ
dec_expected_size = 4

abbrev pub can_encode : ℕ
can_encode = 1

abbrev pub can_decode : ℕ
can_decode = 2

abbrev pub can_flush : ℕ
can_flush = 4

-- `ZU_LEVEL_DEFAULT`, which is INT32_MIN.
abbrev pub level_default : ℤ
level_default = ℤ.negsuc (2 ^ 31 - 1)

-- `zu_encoder_opts`: 16 bytes, all of them required.
pub record EncoderOpts : Type 0 where
  pub struct_size : ℕ
  pub codec : ℕ
  pub level : ℤ
  pub flags : ℕ

abbrev pub encoder_opts_size : ℕ
encoder_opts_size = 16

abbrev pub encoder_opts_required : ℕ
encoder_opts_required = 16

-- `zu_decoder_opts`: 32 bytes, of which those up to `flags` are required.
pub record DecoderOpts : Type 0 where
  pub struct_size : ℕ
  pub codec : ℕ
  pub max_output : ℕ
  pub max_ratio : ℕ
  pub flags : ℕ
  pub expected_size : ℕ

abbrev pub decoder_opts_size : ℕ
decoder_opts_size = 32

abbrev pub decoder_opts_required : ℕ
decoder_opts_required = 24

-- A codec's `process`: its stream state (none is NULL), the caller's buffer and the flush mode.
abbrev pub Process : Type 0 → Type 0
Process S = Option S → Buffer → ℕ → Status × Option S × Buffer

-- `zu_codec_vtable`. `S` is what the codecs' `void *` states point at, and a pointer that may be
-- NULL is an option.
pub record Vtable (S : Type 0) : Type 0 where
  pub struct_size : ℕ
  pub codec : ℕ
  pub name : Option (List ℕ)
  pub content_encoding : Option (List ℕ)
  pub source : Option (List ℕ)
  pub level_min : ℤ
  pub level_max : ℤ
  pub level_default : ℤ
  pub flags : ℕ
  pub magic : Option (List ℕ)
  pub magic_len : ℕ
  pub magic_offset : ℕ
  pub sniff : Option (List ℕ → Bool)
  pub encoder_new : Option (EncoderOpts → Status × Option S)
  pub encoder_process : Option (Process S)
  pub encoder_reset : Option (Option S → EncoderOpts → Status × Option S)
  pub has_encoder_free : Bool
  pub decoder_new : Option (DecoderOpts → Status × Option S)
  pub decoder_process : Option (Process S)
  pub decoder_reset : Option (Option S → DecoderOpts → Status × Option S)
  pub has_decoder_free : Bool
  pub bound : Option (ℤ → ℕ → Status × Option ℕ)
  pub level_fast : ℤ
  pub level_best : ℤ

-- The offsets of a 64-bit build: `bound` ends at byte 152, `level_best` at 160.
abbrev pub vtable_size : ℕ
vtable_size = 160

abbrev pub vtable_required : ℕ
vtable_required = 152
