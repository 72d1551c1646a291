-- ===== src/Codec/Deflate/Returns.antt =====
-- src/codec_deflate.c: `deflate_process` comes back, within its fuel, and keeps the cursor contract.
use zukomp.Base.{
  ℕ, ◌+◌, ◌*◌, ◌≡◌, refl, Option, none, some, again, leave, loop_total, loop_keeps, Keeps, Rounds,
  arith,
}
use zukomp.Buffer.{
  Buffer, IsValid, Advances, Advances-refl, Advances-trans, Advances-IsValid, avail_in, avail_out,
}
use zukomp.Types.{Status}
use zukomp.Stream.Contract.{KeepsCursors}
use zukomp.Codec.Miniz.{Engine, Bounded}
use zukomp.Codec.Deflate.{Deflate, Stage, header, body, trailer, member_end, done}
use zukomp.Codec.Deflate.Sound.{Sound, rank_le}
use zukomp.Codec.Deflate.{Round}
use zukomp.Codec.Deflate.Process.{at_stage, iteration, run, returned, deflate_process}
use zukomp.Codec.Deflate.Rounds.{Good, measure, unmoved}
use zukomp.Codec.Deflate.Rounds.Head.{in_header-Good}
use zukomp.Codec.Deflate.Rounds.Body.{in_body-Good}
use zukomp.Codec.Deflate.Rounds.Trail.{in_trailer-Good}
use zukomp.Codec.Deflate.Rounds.Member.{at_member_end-Good}

module _ {M : Type 0} (e : Engine M) (law : Bounded e) where
  at_stage-Good :
      (s : Deflate M) (b : Buffer) (v : IsValid b) (flush : ℕ) (st : Stage)
      → s.stage ≡ st
      → Good s b (at_stage e st flush s b)
  unfolding at_stage
  at_stage-Good s b v flush header at = in_header-Good e s b v at flush
  at_stage-Good s b v flush body at = in_body-Good e law s b v at flush
  at_stage-Good s b v flush trailer at = in_trailer-Good e s b v at flush
  at_stage-Good s b v flush member_end at = at_member_end-Good e law s b v at flush
  at_stage-Good s b v flush done at = unmoved s b v

  pub iteration-Good :
      (s : Deflate M) (b : Buffer) → IsValid b → (flush : ℕ) → Good s b (iteration e flush (s, b))
  unfolding iteration
  iteration-Good s b v flush = at_stage-Good s b v flush s.stage refl

  module _ (b : Buffer) (v : IsValid b) (flush : ℕ) where
    Within : Deflate M × Buffer → Type 0
    Within (s, b') = Advances b b'

    Returned : Status × Deflate M × Buffer → Type 0
    Returned (st, s, b') = Advances b b'

    onward :
        (s : Deflate M) (b' : Buffer) (o : Round M)
        → Advances b b'
        → Good s b' o
        → Keeps Within Returned o
    unfolding Within Returned
    onward s b' (again (s', c)) p g = Advances-trans p g.0
    onward s b' (leave (st, s', c)) p g = Advances-trans p g.0

    run_moves :
        (s : Deflate M) (r : Status × Deflate M × Buffer)
        → run e s b flush ≡ some r
        → Advances b r.2
    unfolding run Within Returned
    run_moves s r eq =
        loop_keeps (iteration e flush) Within Returned
          (λ x p. onward x.0 x.1 _ p (iteration-Good x.0 x.1 (Advances-IsValid v p) flush))
          (8 * (avail_in b + avail_out b) + 6) (s, b) r (Advances-refl b v) eq

    SoundWithin : Deflate M × Buffer → Type 0
    SoundWithin (s, b') = Sound s × Advances b b'

    SoundlyReturned : Status × Deflate M × Buffer → Type 0
    SoundlyReturned (st, s, b') = Sound s × Advances b b'

    abbrev left : Deflate M × Buffer → ℕ
    left (s, b') = measure s b'

    downward :
        (s : Deflate M) (b' : Buffer) (o : Round M)
        → Sound s
        → Advances b b'
        → Good s b' o
        → Rounds SoundWithin SoundlyReturned left (s, b') o
    unfolding SoundWithin SoundlyReturned
    downward s b' (again (s', c)) k p g = (((g.1 k).0, Advances-trans p g.0), (g.1 k).1)
    downward s b' (leave (st, s', c)) k p g = (g.1 k, Advances-trans p g.0)

    -- From a sound state and a valid buffer, where miniz keeps to what it is offered, the loop comes
    -- back within its fuel, with a sound state and cursors that advanced.
    pub run_returns :
        (s : Deflate M)
        → Sound s
        → (r : Status × Deflate M × Buffer) × (run e s b flush ≡ some r)
          × (Sound r.1 × Advances b r.2)
    unfolding run SoundWithin SoundlyReturned measure
    run_returns s k =
        loop_total (iteration e flush) SoundWithin SoundlyReturned left
          (λ x kept.
            downward x.0 x.1 _ kept.0 kept.1
              (iteration-Good x.0 x.1 (Advances-IsValid v kept.1) flush))
          (8 * (avail_in b + avail_out b) + 6) (s, b) (omega (arith, rank_le s.stage s.tail_pos))
          (k, Advances-refl b v)

  kept_by :
      (s : Deflate M) (b : Buffer) (r : Option (Status × Deflate M × Buffer))
      → IsValid b
      → ((x : Status × Deflate M × Buffer) → r ≡ some x → Advances b x.2)
      → Advances b (returned e s b r).2
  unfolding returned
  kept_by s b none v h = Advances-refl b v
  kept_by s b (some x) v h = h x refl

  process-Advances :
      (s : Option (Deflate M)) (b : Buffer) (flush : ℕ)
      → IsValid b
      → Advances b (deflate_process e s b flush).2
  unfolding deflate_process
  process-Advances none b flush v = Advances-refl b v
  process-Advances (some d) b flush v = kept_by d b (run e d b flush) v (run_moves b v flush d)

  -- Where miniz keeps to what it is offered, `deflate_process` keeps to the contract of the header in
  -- every state, sound or not.
  pub process-KeepsCursors : KeepsCursors (deflate_process e)
  process-KeepsCursors = record { at = process-Advances }
