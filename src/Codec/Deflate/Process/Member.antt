-- ===== src/Codec/Deflate/Process/Member.antt =====
-- src/codec_deflate.c: `deflate_process` in ST_MEMBER_END.
use zukomp.Base.{
  ℕ, Bool, true, false, not, leb, ◌==◌, ◌&&◌, ◌||◌, if◌then◌else◌, has_bit, again, leave,
}
use zukomp.Buffer.{Buffer, avail_in, next_byte, consume}
use zukomp.Types.{
  Status, ok, need_input, stream_end, err_trailing, is, level_default, zu_finish,
  dec_concat_members, dec_reject_trailing,
}
use zukomp.Gzip.{Header, header_feed}
use zukomp.Codec.Miniz.{Engine}
use zukomp.Codec.Deflate.{Deflate, done}
use zukomp.Codec.Deflate.Life.{deflate_reset}
use zukomp.Codec.Deflate.{Round, is_gzip}

module _ {M : Type 0} (e : Engine M) where
  unfoldable pub concat : Deflate M → Bool
  unfolding is_gzip
  concat s = is_gzip s.wrap && has_bit s.dec_flags dec_concat_members && not s.encoder

  -- No member follows, and a byte held back is a tail that only the codec knows of.
  unfoldable pub no_more : Deflate M → Buffer → Round M
  no_more s b = leave (
    if s.probe_magic && has_bit s.dec_flags dec_reject_trailing then err_trailing else stream_end,
    record s { stage = done; probe_magic = false },
    b,
  )

  unfoldable pub next_member : Buffer → Status × Deflate M → Round M
  next_member b (st, s) = if not (is st ok) then leave (st, s, b) else again (s, b)

  abbrev pub stop : Deflate M → Buffer → Round M
  stop s b = leave (stream_end, record s { stage = done }, b)

  -- Nothing held: decided on both bytes where both are there.
  unfoldable pub probe : ℕ → Deflate M → Buffer → Round M
  unfolding next_member
  probe flush s b =
      if not (next_byte b == 0x1f)
      then stop s b
      else if leb 2 (avail_in b)
      then if not (next_byte (consume b 1) == 0x8b)
        then stop s b
        else next_member b (deflate_reset e s level_default)
      else if flush == zu_finish
      then stop s b
      else leave (need_input, record s { probe_magic = true }, consume b 1)

  unfoldable pub refed : Buffer → Deflate M → Status × Header × Bool → Round M
  refed b s (st, h, whole) =
      if not (is st ok) then leave (st, record s { gz = h }, b) else again (record s { gz = h }, b)

  unfoldable pub held_over : Buffer → Status × Deflate M → Round M
  unfolding refed
  held_over b (st, s) =
      if not (is st ok)
      then leave (st, s, b)
      else refed b (record s { probe_magic = false }) (header_feed e.crc32 s.gz 0x1f)

  -- A 0x1F is held from an earlier buffer.
  unfoldable pub probe_held : Deflate M → Buffer → Round M
  unfolding held_over
  probe_held s b =
      if not (next_byte b == 0x8b)
      then stop (record s { probe_magic = false }) b
      else held_over b (deflate_reset e s level_default)

  -- ST_MEMBER_END
  unfoldable pub at_member_end : ℕ → Deflate M → Buffer → Round M
  unfolding no_more probe probe_held concat
  at_member_end flush s b =
      if not (concat s) || avail_in b == 0
      then if avail_in b == 0 && not s.encoder && concat s && not (flush == zu_finish)
        then leave (need_input, s, b)
        else no_more s b
      else if not s.probe_magic
      then probe flush s b
      else probe_held s b
