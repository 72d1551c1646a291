-- ===== src/Status.antt =====
-- src/zu_status.c: the text of each status.
use zukomp.Base.{ℕ, List, codes}
use zukomp.Types.{
  Status, ok, need_input, need_output, stream_end, err_invalid_argument, err_unsupported,
  err_invalid_data, err_truncated, err_checksum, err_trailing, err_memory, err_output_limit,
  err_ratio_limit, err_internal,
}

-- `zu_status_string`, on the enumerators.
pub status_string : Status → List ℕ
status_string ok = codes "ok"
status_string need_input = codes "needs more input"
status_string need_output = codes "needs more output space"
status_string stream_end = codes "end of stream"
status_string err_invalid_argument = codes "invalid argument"
status_string err_unsupported = codes "unsupported codec or operation"
status_string err_invalid_data = codes "invalid compressed data"
status_string err_truncated = codes "truncated input"
status_string err_checksum = codes "checksum mismatch"
status_string err_trailing = codes "unexpected trailing bytes"
status_string err_memory = codes "out of memory"
status_string err_output_limit = codes "output size limit exceeded"
status_string err_ratio_limit = codes "compression ratio limit exceeded"
status_string err_internal = codes "internal error"
