-- ===== src/Codec/Deflate/Process/Head.antt =====
-- src/codec_deflate.c: `deflate_process` in ST_HEADER.
use zukomp.Base.{ℕ, ◌+◌, Bool, not, [], ◌∷◌, ltb, ◌==◌, if◌then◌else◌, get_or, set, again, leave}
use zukomp.Buffer.{Buffer, avail_in, avail_out, next_byte, consume, emit}
use zukomp.Types.{Status, ok, need_output, is}
use zukomp.Gzip.{Header, header_feed}
use zukomp.Codec.Miniz.{Engine}
use zukomp.Codec.Deflate.{Deflate, body, zlib_check_header}
use zukomp.Codec.Deflate.{Round, starved, is_gzip}

module _ {M : Type 0} (e : Engine M) where
  -- ST_HEADER, the encoder: a byte at a time.
  unfoldable pub write_out : Deflate M → Buffer → Round M
  write_out s b =
      if ltb s.hdr_pos s.hdr_len
      then if avail_out b == 0
        then leave (need_output, s, b)
        else again (record s { hdr_pos = s.hdr_pos + 1 }, emit b (get_or s.hdr s.hdr_pos 0 ∷ []))
      else again (record s { stage = body }, b)

  unfoldable pub parsed : Deflate M → Buffer → Status × Header × Bool → Round M
  parsed s b (st, h, whole) =
      if not (is st ok)
      then leave (st, record s { gz = h }, b)
      else if not whole
      then again (record s { gz = h }, b)
      else again (record s { gz = h; stage = body }, b)

  -- ST_HEADER, a gzip decoder: the parser decides where the header ends.
  unfoldable pub parse : ℕ → Deflate M → Buffer → Round M
  unfolding parsed
  parse flush s b =
      if avail_in b == 0
      then leave (starved flush, s, b)
      else parsed s (consume b 1) (header_feed e.crc32 s.gz (next_byte b))

  unfoldable pub checked : Deflate M → Buffer → Status → Round M
  checked s b st = if not (is st ok) then leave (st, s, b) else again (record s { stage = body }, b)

  -- ST_HEADER, a zlib decoder: two bytes, then their test.
  unfoldable pub collect : ℕ → Deflate M → Buffer → Round M
  unfolding checked
  collect flush s b =
      if ltb s.hdr_pos s.hdr_len
      then if avail_in b == 0
        then leave (starved flush, s, b)
        else again (
          record s { hdr = set s.hdr s.hdr_pos (next_byte b); hdr_pos = s.hdr_pos + 1 },
          consume b 1,
        )
      else checked s b (zlib_check_header s.hdr)

  unfoldable pub in_header : ℕ → Deflate M → Buffer → Round M
  unfolding write_out parse collect is_gzip
  in_header flush s b =
      if s.encoder
      then write_out s b
      else if is_gzip s.wrap
      then parse flush s b
      else collect flush s b
