-- ===== src/Codec/Deflate/Process/Trail.antt =====
-- src/codec_deflate.c: `deflate_process` in ST_TRAILER.
use zukomp.Base.{ℕ, ◌+◌, not, [], ◌∷◌, ltb, ◌==◌, if◌then◌else◌, get_or, set, again, leave}
use zukomp.Buffer.{Buffer, avail_in, avail_out, next_byte, consume, emit}
use zukomp.Types.{Status, ok, need_output, stream_end, is}
use zukomp.Codec.Miniz.{Engine}
use zukomp.Codec.Deflate.{Deflate, member_end, done, check_trailer}
use zukomp.Codec.Deflate.{Round, starved}

module _ {M : Type 0} (e : Engine M) where
  -- ST_TRAILER, the encoder and the decoder.
  unfoldable pub write_tail : Deflate M → Buffer → Round M
  write_tail s b =
      if ltb s.tail_pos s.tail_len
      then if avail_out b == 0
        then leave (need_output, s, b)
        else again
            (record s { tail_pos = s.tail_pos + 1 }, emit b (get_or s.tail s.tail_pos 0 ∷ []))
      else leave (stream_end, record s { stage = done }, b)

  unfoldable pub verified : Deflate M → Buffer → Status → Round M
  verified s b st =
      if not (is st ok) then leave (st, s, b) else again (record s { stage = member_end }, b)

  unfoldable pub read_tail : ℕ → Deflate M → Buffer → Round M
  unfolding verified
  read_tail flush s b =
      if ltb s.tail_pos s.tail_len
      then if avail_in b == 0
        then leave (starved flush, s, b)
        else again (
          record s { tail = set s.tail s.tail_pos (next_byte b); tail_pos = s.tail_pos + 1 },
          consume b 1,
        )
      else verified s b (check_trailer s.wrap s.tail s.checksum s.uncompressed)
