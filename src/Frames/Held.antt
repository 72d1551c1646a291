-- ===== src/Frames/Held.antt =====
-- The branch of `zu_int_frames_between` (src/zu_frames.c) with a held prefix.
use zukomp.Base.{
  ℕ, ◌-◌, ◌≤◌, ◌<◌, ◌≡◌, refl, ap, ◌∙◌, subst, true, false, not, List, [], ◌++◌, ◌==◌,
  if◌then◌else◌, has_bit, length, take, arith, length-append, length-take, take_all,
}
use zukomp.Buffer.{Buffer, avail_in}
use zukomp.Types.{Status, ok, need_input, stream_end, err_trailing, zu_finish, dec_reject_trailing}
use zukomp.Frames.{Frames, body, done, Kind, is_prefix, extended, handed_over}
use zukomp.Frames.Extend.{Fits, Misfits}
use zukomp.Frames.Boundary.{Decided, judge, loop_of, outcome-take_miss, outcome-take_match}

length-loop :
    (f : Frames) (t : List ℕ)
    → length f.held < 4
    → length (f.held ++ take (4 - length f.held) t) ≤ 4
length-loop f t lt =
    omega
      (arith, length-append f.held (take (4 - length f.held) t), length-take (4 - length f.held) t)

module _ {C : Type 0} where
  module _ (feed : C → List ℕ → Status × C) where
    -- The library takes a whole magic.
    abbrev pub TakesMagic : Kind → Type 0
    TakesMagic kind =
        (c : C) (m : List ℕ) → length m ≡ 4 → is_prefix kind m ≡ true → (feed c m).0 ≡ ok

    pub extended-miss :
        (f : Frames) (b : Buffer) (t : List ℕ) (flush : ℕ) (c : C)
        → length f.held < 4
        → Misfits f.kind (4 - length f.held) f.held t (loop_of f b)
        → Decided f t (extended f flush feed c (loop_of f b))
    unfolding extended judge
    extended-miss f b t flush c lt (miss, stopped, left) u =
        let out =
          outcome-take_miss f.flags f.kind (4 - length f.held) f.held t u (length-loop f t lt)
            miss in
        let b' = (loop_of f b).2 in
        let some_left : (avail_in b' == 0) ≡ false = ground (arith, left) in
        let answer : extended f flush feed c (loop_of f b)
            ≡ (stream_end, record f { held = []; state = done }, b', c) =
          rw stopped refl in
        ap (judge f.flags) answer ∙ rw (out, some_left) refl

    pub extended-whole :
        (f : Frames) (b : Buffer) (t : List ℕ) (flush : ℕ) (c : C)
        → TakesMagic f.kind
        → length f.held < 4
        → 4 ≤ length (f.held ++ t)
        → Fits f.kind (4 - length f.held) f.held t (loop_of f b)
        → Decided f t (extended f flush feed c (loop_of f b))
    unfolding extended judge handed_over
    extended-whole f b t flush c takes lt le (fits, all, held, rest) u =
        let whole = f.held ++ take (4 - length f.held) t in
        let four : length whole ≡ 4 = omega (
          arith,
          length-append f.held (take (4 - length f.held) t),
          length-append f.held t,
          length-take (4 - length f.held) t,
        ) in
        let is_four : (length whole == 4) ≡ true = ground arith in
        let out = outcome-take_match f.flags f.kind (4 - length f.held) f.held t u four fits in
        let fed = takes c whole four fits in
        let b' = (loop_of f b).2 in
        let answer : extended f flush feed c (loop_of f b)
            ≡ (ok, record f { held = []; state = body }, b', (feed c whole).1) =
          rw (all, held, is_four, fed) refl in
        ap (judge f.flags) answer ∙ rw out refl

    -- Fewer than four bytes in all.
    pub extended-few :
        (f : Frames) (b : Buffer) (t : List ℕ) (flush : ℕ) (c : C)
        → length (f.held ++ t) < 4
        → Fits f.kind (4 - length f.held) f.held t (loop_of f b)
        → (is_prefix f.kind (f.held ++ t) ≡ true)
          × (avail_in (loop_of f b).2 ≡ 0)
          × (extended f flush feed c (loop_of f b) ≡ (
              if not (flush == zu_finish)
              then (need_input, record f { held = f.held ++ t }, (loop_of f b).2, c)
              else (
                if has_bit f.flags dec_reject_trailing then err_trailing else stream_end,
                record f { held = []; state = done },
                (loop_of f b).2,
                c,
              )))
    unfolding extended
    extended-few f b t flush c lt (fits, all, held, rest) =
        let every : take (4 - length f.held) t ≡ t =
          take_all (4 - length f.held) t (omega (arith, length-append f.held t)) in
        let few : (length (f.held ++ t) == 4) ≡ false = ground arith in
        (
          subst (λ w. is_prefix f.kind (f.held ++ w) ≡ true) every fits,
          omega (arith, rest, length-append f.held t),
          rw (all, held, every, few) refl,
        )
