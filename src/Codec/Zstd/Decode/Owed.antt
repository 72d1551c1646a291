-- ===== src/Codec/Zstd/Decode/Owed.antt =====
-- src/codec_zstd.c over src/zu_frames.c: a byte that is owed comes before all other output.
use zukomp.Base.{
  ℕ, ◌+◌, ◌*◌, ◌<◌, ◌≡◌, sym, ap, ◌∙◌, subst, true, Option, some, List, [], ◌∷◌, ◌++◌, take, length,
  length-take, length-append, leave, loop_from, loop_leaves, arith,
}
use zukomp.Buffer.{Buffer, IsValid, Advances-IsValid, avail_in, avail_out, bytes, written}
use zukomp.Types.{Status, need_output}
use zukomp.Frames.{frames_pay}
use zukomp.Frames.Cursors.{Short}
use zukomp.Frames.Owed.{owing}
use zukomp.Codec.Libzstd.{Library, Bounded, Delimits}
use zukomp.Codec.Zstd.{Zstd}
use zukomp.Codec.Zstd.Encode.{returned}
use zukomp.Codec.Zstd.Decode.{paid, decode_with, decode_round, decode_loop, decoder_process}
use zukomp.Codec.Zstd.Decode.Returns.{decode_returns, loop_moves}

module _ {C D : Type 0} (z : Library C D) (law : Bounded z) (ends : Delimits z) (s : Zstd C D)
    (x : ℕ) (b : Buffer) (v : IsValid b) (flush : ℕ) (owed : s.frames.owed ≡ some x) (d : D)
    (there : s.dctx ≡ some d) (short : Short s.frames) where
  paid_round : decode_round z flush (s, b) ≡ paid z flush s d (frames_pay s.frames b)
  unfolding decode_round decode_with
  paid_round = ap (decode_with z flush s b) there

  waits : b.dst_pos ≡ b.dst_size → decoder_process z (some s) b flush ≡ (need_output, some s, b)
  unfolding decoder_process returned decode_loop paid
  waits full =
      let round : decode_round z flush (s, b) ≡ leave (need_output, s, b) =
        paid_round ∙ ap (paid z flush s d) ((owing s.frames x owed).kept b full) in
      ap (returned z s b) (
        loop_leaves (8 * (avail_in b + avail_out b) + 8) (decode_round z flush) (s, b)
          (need_output, s, b) (omega arith) round)

  -- The owed byte stands right behind what had been written.
  abbrev pub Delivers : Status × Option (Zstd C D) × Buffer → Type 0
  Delivers (st, t, c) =
      (b.dst_pos < c.dst_pos) × (take (b.dst_pos + 1) (bytes c.dst) ≡ written b ++ (x ∷ []))

  -- The first round is that of the state and the buffer that paying leaves.
  first_round :
      let (goes_on, f, c) = frames_pay s.frames b in
      goes_on ≡ true
      → frames_pay f c ≡ (true, f, c)
      → decode_round z flush (s, b) ≡ decode_round z flush (record s { frames = f }, c)
  unfolding decode_round decode_with paid
  first_round goes_on settled =
      let f = (frames_pay s.frames b).1 in
      let c = (frames_pay s.frames b).2 in
      paid_round
      ∙ ap (λ g. paid z flush s d (g, f, c)) goes_on
      ∙ ap (paid z flush (record s { frames = f }) d) (sym settled)
      ∙ sym (ap (decode_with z flush (record s { frames = f }) c) there)

  delivers : b.dst_pos < b.dst_size → Delivers (decoder_process z (some s) b flush)
  unfolding decoder_process returned decode_loop
  delivers room =
      let f = (frames_pay s.frames b).1 in
      let c = (frames_pay s.frames b).2 in
      let (goes_on, wrote, adv, settled) = (owing s.frames x owed).delivered b v room in
      let v' = Advances-IsValid v adv in
      let (r, back, _) = decode_returns z law ends b v flush s short in
      let n = 8 * (avail_in b + avail_out b) + 8 in
      let same =
        loop_from n (decode_round z flush) (s, b) (record s { frames = f }, c)
          (first_round goes_on settled) in
      let moved =
        loop_moves z law ends c v' flush n (record s { frames = f }) r (sym same ∙ back) in
      let next : c.dst_pos ≡ b.dst_pos + 1 = omega (
        arith,
        ap (λ (xs : List ℕ). length xs) wrote,
        length-take c.dst_pos (bytes c.dst),
        length-take b.dst_pos (bytes b.dst),
        length-append (written b) (x ∷ []),
        v'.dst_in,
        v'.dst_mem,
        v.dst_in,
        v.dst_mem,
      ) in
      subst Delivers (sym (ap (returned z s b) back)) (
        omega (arith, moved.dst_le),
        subst (λ k. take k (bytes r.2.dst) ≡ written b ++ (x ∷ [])) next (moved.kept ∙ wrote),
      )

  -- A zstd decoder with its context, which holds fewer than four bytes and owes a byte, over a libzstd that
  -- keeps to what it is offered and delimits its frames: on a valid buffer without room
  -- `zstd_decoder_process` asks for room and changes nothing; with room it writes the owed byte, and
  -- writes it first, whatever the loop delivers after it.
  pub owed_first :
      (b.dst_pos ≡ b.dst_size → decoder_process z (some s) b flush ≡ (need_output, some s, b))
      × (b.dst_pos < b.dst_size → Delivers (decoder_process z (some s) b flush))
  owed_first = (waits, delivers)
