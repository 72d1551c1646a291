-- ===== src/Codec/Deflate/Probe.antt =====
-- src/codec_deflate.c: ST_MEMBER_END, where the two bytes of the gzip magic come in one buffer or in two.
use zukomp.Base.{
  ℕ, ◌≤◌, ◌≡◌, ◌≢◌, refl, sym, ◌∙◌, true, false, ◌==◌, leb, has_bit, again, leave, arith,
}
use zukomp.Buffer.{Buffer, avail_in, next_byte, consume}
use zukomp.Types.{need_input, stream_end, zu_finish, dec_concat_members}
use zukomp.Gzip.{header_init, header_feed}
use zukomp.Codec.Miniz.{mz_ok, Engine}
use zukomp.Codec.Deflate.{Deflate, gzip, member_end, done}
use zukomp.Codec.Deflate.Life.{deflate_reset, restarted, rewound, begun}
use zukomp.Codec.Deflate.{is_gzip}
use zukomp.Codec.Deflate.Process.{
  iteration, at_stage, at_member_end, concat, probe, probe_held, next_member, held_over, refed,
  in_header, parse, parsed,
}

module _ {M : Type 0} (e : Engine M) (s : Deflate M) where
  -- A gzip decoder between members, and the same with a 0x1F held.
  abbrev pub between : Deflate M
  between = record s { encoder = false; wrap = gzip; stage = member_end; probe_magic = false }

  abbrev pub holding : Deflate M
  holding = record between { probe_magic = true }

  abbrev pub over : Deflate M
  over = record between { stage = done }

  -- The decoder of the next member, over a state of miniz that was reset, and after the first byte.
  abbrev pub afresh : M → Deflate M
  afresh m = rewound e (record between { mz = m })

  abbrev pub begun_member : M → Deflate M
  begun_member m = record (afresh m) { gz = (header_feed e.crc32 (header_init e.crc32) 0x1f).1 }

  module _ (joins : has_bit s.dec_flags dec_concat_members ≡ true) where
    -- The first byte alone is held, while more may come.
    lone :
        (flush : ℕ) (b : Buffer)
        → avail_in b ≡ 1
        → next_byte b ≡ 0x1f
        → flush ≢ zu_finish
        → iteration e flush (between, b) ≡ leave (need_input, holding, consume b 1)
    unfolding iteration at_stage at_member_end concat is_gzip probe
    lone flush b one first running =
        let on : (flush == zu_finish) ≡ false = ground arith in rw (joins, one, first, on) refl

    both :
        (flush : ℕ) (b : Buffer) (m : M)
        → 2 ≤ avail_in b
        → next_byte b ≡ 0x1f
        → next_byte (consume b 1) ≡ 0x8b
        → e.inflate_reset s.mz ≡ (mz_ok, m)
        → iteration e flush (between, b) ≡ again (afresh m, b)
    unfolding iteration at_stage at_member_end concat is_gzip probe next_member deflate_reset
        restarted begun rewound
    both flush b m two first second reset =
        let more : (avail_in b == 0) ≡ false = ground arith in
        let there : leb 2 (avail_in b) ≡ true = ground arith in
        rw (joins, more, first, there, second, reset) refl

    neither :
        (flush : ℕ) (b : Buffer)
        → 2 ≤ avail_in b
        → next_byte b ≡ 0x1f
        → next_byte (consume b 1) ≢ 0x8b
        → iteration e flush (between, b) ≡ leave (stream_end, over, b)
    unfolding iteration at_stage at_member_end concat is_gzip probe
    neither flush b two first second =
        let more : (avail_in b == 0) ≡ false = ground arith in
        let there : leb 2 (avail_in b) ≡ true = ground arith in
        let differs : (next_byte (consume b 1) == 0x8b) ≡ false = ground arith in
        rw (joins, more, first, there, differs) refl

    held_both :
        (flush : ℕ) (b : Buffer) (m : M)
        → 1 ≤ avail_in b
        → next_byte b ≡ 0x8b
        → e.inflate_reset s.mz ≡ (mz_ok, m)
        → iteration e flush (holding, b) ≡ again (begun_member m, b)
    unfolding iteration at_stage at_member_end concat is_gzip probe_held held_over refed
        deflate_reset restarted begun rewound header_feed header_init
    held_both flush b m some_in second reset =
        let more : (avail_in b == 0) ≡ false = ground arith in rw (joins, more, second, reset) refl

    held_neither :
        (flush : ℕ) (b : Buffer)
        → 1 ≤ avail_in b
        → next_byte b ≢ 0x8b
        → iteration e flush (holding, b) ≡ leave (stream_end, over, b)
    unfolding iteration at_stage at_member_end concat is_gzip probe_held
    held_neither flush b some_in second =
        let more : (avail_in b == 0) ≡ false = ground arith in
        let differs : (next_byte b == 0x8b) ≡ false = ground arith in rw (joins, more, differs) refl

    first_byte :
        (flush : ℕ) (b : Buffer) (m : M)
        → 1 ≤ avail_in b
        → next_byte b ≡ 0x1f
        → iteration e flush (afresh m, b) ≡ again (begun_member m, consume b 1)
    unfolding iteration at_stage in_header is_gzip parse parsed rewound header_feed header_init
    first_byte flush b m some_in first =
        let more : (avail_in b == 0) ≡ false = ground arith in rw (more, first) refl

    -- A gzip decoder that joins members, after a member, and 0x1F as the next byte. Where 0x8B follows
    -- and miniz is reset, the decoder comes to the same state, that of the next member's header after
    -- one byte, from both bytes in `whole` in two rounds, and from the first alone in `part` and the
    -- second in `next`, if the call on `part` was not the last. Where another byte follows, both ways end
    -- the stream in the same state, with that byte not taken.
    pub probe_at_any_cut :
        (flush last : ℕ) (whole part next : Buffer) (m : M)
        → 2 ≤ avail_in whole
        → next_byte whole ≡ 0x1f
        → avail_in part ≡ 1
        → next_byte part ≡ 0x1f
        → flush ≢ zu_finish
        → 1 ≤ avail_in next
        → next_byte next ≡ next_byte (consume whole 1)
        → e.inflate_reset s.mz ≡ (mz_ok, m)
        → (iteration e flush (between, part) ≡ leave (need_input, holding, consume part 1))
          × (next_byte next ≡ 0x8b
              → (iteration e last (between, whole) ≡ again (afresh m, whole))
                × (iteration e last (afresh m, whole) ≡ again (begun_member m, consume whole 1))
                × (iteration e last (holding, next) ≡ again (begun_member m, next)))
          × (next_byte next ≢ 0x8b
              → (iteration e last (between, whole) ≡ leave (stream_end, over, whole))
                × (iteration e last (holding, next) ≡ leave (stream_end, over, next)))
    probe_at_any_cut flush last whole part next m two first one first' running some_in second
          reset =
        (
          lone flush part one first' running,
          λ is_magic. (
            both last whole m two first (sym second ∙ is_magic) reset,
            first_byte last whole m (omega arith) first,
            held_both last next m some_in is_magic reset,
          ),
          λ differs. (
            neither last whole two first (λ q. differs (second ∙ q)),
            held_neither last next some_in differs,
          ),
        )
