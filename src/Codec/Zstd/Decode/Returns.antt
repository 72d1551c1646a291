-- ===== src/Codec/Zstd/Decode/Returns.antt =====
-- src/codec_zstd.c: `zstd_decoder_process` comes back, within its fuel, and keeps the cursor contract.
use zukomp.Base.{
  ℕ, ◌+◌, ◌*◌, ◌≤◌, ◌<◌, ◌≡◌, ◌⊎◌, inl, inr, refl, ap, ◌∙◌, Bool, true, false, not, Option, none,
  some, List, length, if_elim, if_split, again, leave, arith, Bool-cases, loop, loop_total,
  loop_keeps, Keeps, Rounds,
}
use zukomp.Buffer.{
  Buffer, IsValid, Advances, Advances-refl, Advances-trans, Advances-IsValid, avail_in, avail_out,
  peek, pass, scratch-Advances, pass-Advances, pass_less, length-peek_le,
}
use zukomp.Types.{Status}
use zukomp.Frames.{Frames, FrameState, body, between, done, frames_pay}
use zukomp.Frames.Cursors.{Short, Paid, frames_pay_lem, frames_between-Resumes, frames_between_open}
use zukomp.Stream.Contract.{KeepsCursors}
use zukomp.Codec.Libzstd.{Result, failed, value, Turn, Library, Bounded, Delimits}
use zukomp.Codec.Zstd.{Zstd}
use zukomp.Codec.Zstd.Encode.{Round, returned}
use zukomp.Codec.Zstd.Decode.{
  in_body, feed_held, after_decompress, decompress, paid, decode_with, decode_round, decode_loop,
  decoder_process,
}
use zukomp.Codec.Zstd.Decode.Rounds.{
  rank, rank_le, is_fresh, measure, Good, resumed-Good, decoded-Good,
}

module _ {C D : Type 0} (z : Library C D) (law : Bounded z) (ends : Delimits z) where
  module _ (flush : ℕ) (s : Zstd C D) (d : D) (b : Buffer) (v : IsValid b) (at : s.dctx ≡ some d)
      (inside : s.frames.state ≡ body) where
    call : Turn D
    call = z.decompress_stream d (peek b (avail_in b)) (avail_out b)

    call_used : call.used ≤ avail_in b
    unfolding call
    call_used = omega (
      arith,
      law.decompress_used d (peek b (avail_in b)) (avail_out b),
      length-peek_le b (avail_in b),
    )

    call_out : length call.out ≤ avail_out b
    unfolding call
    call_out = law.decompress_room d (peek b (avail_in b)) (avail_out b)

    at_end :
        call.result ≡ value 0
        → (ends.fresh call.stream ≡ true)
          × (avail_in (pass b call.out call.used) + avail_out (pass b call.out call.used)
                < avail_in b + avail_out b
              ⊎ ends.fresh d ≡ false)
    unfolding call
    at_end e = (
      ends.ended d _ _ e,
      elim (Bool-cases (ends.fresh d)) [
        | inl t ↦
            let moved = ends.starts d _ _ t e in
            let used = call_used in let out = call_out in inl (omega arith)
        | inr f ↦ inr f
      ],
    )

    after_decompress-Good :
        (r : Result) → call.result ≡ r → Good ends s b (after_decompress z flush s b call r)
    unfolding after_decompress
    after_decompress-Good (failed x) e = (scratch-Advances b call.out v, λ h. h)
    after_decompress-Good (value n) e =
        decoded-Good ends s d b at inside flush call.stream _ (pass b call.out call.used) n
          (pass-Advances b call.out call.used v call_out call_used)
          (pass_less b call.out call.used call_out call_used) (λ q. at_end (e ∙ ap value q))

    decompress-Good : Good ends s b (decompress z flush s b call)
    unfolding decompress
    decompress-Good = after_decompress-Good call.result refl

  is_body : (st : FrameState) → in_body st ≡ true → st ≡ body
  is_body body h = refl
  is_body between h = absurd (ground arith)
  is_body done h = absurd (ground arith)

  -- A round from the state that paying left is one from the state before.
  lift :
      (s s1 : Zstd C D) (b b1 : Buffer) (o : Round C D)
      → Advances b b1
      → (Short s.frames → Short s1.frames)
      → measure ends s1 b1 ≤ measure ends s b
      → Good ends s1 b1 o
      → Good ends s b o
  lift s s1 b b1 (again (s', b')) adv short le g =
      (Advances-trans adv g.0, λ h. let (h', lower) = g.1 (short h) in (h', omega arith))
  lift s s1 b b1 (leave (st, s', b')) adv short le g = (Advances-trans adv g.0, λ h. g.1 (short h))

  paid_measure :
      (s : Zstd C D) (f : Frames) (b b1 : Buffer)
      → Advances b b1
      → f.state ≡ s.frames.state
      → avail_in b1 ≡ avail_in b
      → measure ends (record s { frames = f }) b1 ≤ measure ends s b
  unfolding measure
  paid_measure s f b b1 adv same left = omega (
    arith,
    adv.dst_le,
    adv.dst_size,
    ap (λ (x : FrameState). rank x (is_fresh ends s.dctx) (avail_in b1)) same,
    ap (λ (n : ℕ). rank s.frames.state (is_fresh ends s.dctx) n) left,
  )

  paid-Good :
      (flush : ℕ) (s : Zstd C D) (d : D) (b : Buffer) (r : Bool × Frames × Buffer)
      → IsValid b
      → s.dctx ≡ some d
      → Paid s.frames b r
      → Good ends s b (paid z flush s d r)
  unfolding paid call
  paid-Good flush s d b (may, f, b1) v at (adv, same, held, left) =
      let s1 = record s { frames = f } in
      let v1 = Advances-IsValid v adv in
      let short : Short s.frames → Short f =
        λ h. omega (arith, ap (λ (xs : List ℕ). length xs) held) in
      lift s s1 b b1 (paid z flush s d (may, f, b1)) adv short (paid_measure s f b b1 adv same left)
        (if_elim (Good ends s1 b1) (not may) (Advances-refl b1 v1, λ h. h)
          (if_split (Good ends s1 b1) (not (in_body f.state))
            (λ outside.
              resumed-Good ends s1 d b1 _ at (λ e. let q = ap in_body e in absurd (ground arith))
                (frames_between-Resumes f b1 flush (feed_held z s.encoder s.max_output) d v1
                  (λ e. let q = ap in_body e in absurd (ground arith)))
                (frames_between_open f b1 flush (feed_held z s.encoder s.max_output) d))
            (λ inside. decompress-Good flush s1 d b1 v1 at (is_body f.state (ground arith)))))

  decode_with-Good :
      (flush : ℕ) (s : Zstd C D) (b : Buffer) (o : Option D)
      → IsValid b
      → s.dctx ≡ o
      → Good ends s b (decode_with z flush s b o)
  unfolding decode_with
  decode_with-Good flush s b none v at = (Advances-refl b v, λ h. h)
  decode_with-Good flush s b (some d) v at =
      paid-Good flush s d b (frames_pay s.frames b) v at (frames_pay_lem s.frames b v)

  decode_round-Good :
      (flush : ℕ) (s : Zstd C D) (b : Buffer)
      → IsValid b
      → Good ends s b (decode_round z flush (s, b))
  unfolding decode_round
  decode_round-Good flush s b v = decode_with-Good flush s b s.dctx v refl

  module _ (b : Buffer) (v : IsValid b) (flush : ℕ) where
    abbrev Within : Zstd C D × Buffer → Type 0
    Within (s, b') = Short s.frames × Advances b b'

    abbrev Ended : Status × Zstd C D × Buffer → Type 0
    Ended (st, s, b') = Short s.frames × Advances b b'

    abbrev left : Zstd C D × Buffer → ℕ
    left (s, b') = measure ends s b'

    downward :
        (s : Zstd C D) (b' : Buffer) (o : Round C D)
        → Short s.frames
        → Advances b b'
        → Good ends s b' o
        → Rounds Within Ended left (s, b') o
    downward s b' (again (s', c)) h p g = (((g.1 h).0, Advances-trans p g.0), (g.1 h).1)
    downward s b' (leave (st, s', c)) h p g = (g.1 h, Advances-trans p g.0)

    -- From a state that holds fewer than four bytes of a magic and a valid buffer, where libzstd keeps to
    -- what it is offered and delimits its frames, the loop of `zstd_decoder_process` comes back within
    -- its fuel, with cursors that advanced and a state that holds fewer than four bytes again.
    pub decode_returns :
        (s : Zstd C D)
        → Short s.frames
        → (r : Status × Zstd C D × Buffer) × (decode_loop z s b flush ≡ some r)
          × (Short r.1.frames × Advances b r.2)
    unfolding decode_loop measure
    decode_returns s h =
        loop_total (decode_round z flush) Within Ended left
          (λ x kept.
            downward x.0 x.1 _ kept.0 kept.1
              (decode_round-Good flush x.0 x.1 (Advances-IsValid v kept.1)))
          (8 * (avail_in b + avail_out b) + 8) (s, b)
          (omega (arith, rank_le s.frames.state (is_fresh ends s.dctx) (avail_in b)))
          (h, Advances-refl b v)

    abbrev Moved : Zstd C D × Buffer → Type 0
    Moved (s, b') = Advances b b'

    abbrev MovedOut : Status × Zstd C D × Buffer → Type 0
    MovedOut (st, s, b') = Advances b b'

    onward :
        (s : Zstd C D) (b' : Buffer) (o : Round C D)
        → Advances b b'
        → Good ends s b' o
        → Keeps Moved MovedOut o
    onward s b' (again (s', c)) p g = Advances-trans p g.0
    onward s b' (leave (st, s', c)) p g = Advances-trans p g.0

    pub loop_moves :
        (fuel : ℕ) (s : Zstd C D) (r : Status × Zstd C D × Buffer)
        → loop fuel (decode_round z flush) (s, b) ≡ some r
        → Advances b r.2
    loop_moves fuel s r eq =
        loop_keeps (decode_round z flush) Moved MovedOut
          (λ x p. onward x.0 x.1 _ p (decode_round-Good flush x.0 x.1 (Advances-IsValid v p))) fuel
          (s, b) r (Advances-refl b v) eq

    decode_moves :
        (s : Zstd C D) (r : Status × Zstd C D × Buffer)
        → decode_loop z s b flush ≡ some r
        → Advances b r.2
    unfolding decode_loop
    decode_moves s r eq = loop_moves (8 * (avail_in b + avail_out b) + 8) s r eq

  kept_by :
      (s : Zstd C D) (b : Buffer) (r : Option (Status × Zstd C D × Buffer))
      → IsValid b
      → ((x : Status × Zstd C D × Buffer) → r ≡ some x → Advances b x.2)
      → Advances b (returned z s b r).2
  unfolding returned
  kept_by s b none v h = Advances-refl b v
  kept_by s b (some x) v h = h x refl

  decoder-Advances :
      (s : Option (Zstd C D)) (b : Buffer) (flush : ℕ)
      → IsValid b
      → Advances b (decoder_process z s b flush).2
  unfolding decoder_process
  decoder-Advances none b flush v = Advances-refl b v
  decoder-Advances (some s) b flush v =
      kept_by s b (decode_loop z s b flush) v (decode_moves b v flush s)

  pub decoder-KeepsCursors : KeepsCursors (decoder_process z)
  decoder-KeepsCursors = record { at = decoder-Advances }
