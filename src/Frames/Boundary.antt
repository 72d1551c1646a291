-- ===== src/Frames/Boundary.antt =====
-- The bytes at a frame boundary, and the branch of `zu_int_frames_between` (src/zu_frames.c) with
-- nothing held.
use mathlib.Core.List.{append_assoc, append-nil}
use zukomp.Base.{
  ℕ, ◌-◌, ◌≤◌, ◌<◌, ◌≡◌, ◌⊎◌, inl, inr, refl, sym, ap, ◌∙◌, subst, Bool, true, false, Option, none,
  some, List, [], ◌∷◌, ◌++◌, ltb, ◌==◌, if◌then◌else◌, has_bit, length, take, drop, arith,
  take-append-drop, Bool-cases, length-take, take_all,
}
use zukomp.Buffer.{Buffer, avail_in, consume, peek}
use zukomp.Types.{
  Status, ok, need_input, stream_end, err_trailing, is, zu_run, zu_finish, dec_reject_trailing,
  dec_concat_members,
}
use zukomp.Frames.{Frames, body, between, done, Kind, is_prefix, extend, first_look}
use zukomp.Frames.Prefix.{
  Verdict, continues, ended, trailing, on_tail, on_rest, outcome, outcome_mismatch, outcome_match,
  outcome_short,
}
use zukomp.Frames.Extend.{Holds}

split_at : (n : ℕ) (h t u : List ℕ) → h ++ (t ++ u) ≡ (h ++ take n t) ++ (drop n t ++ u)
split_at n h t u =
    ap (λ w. h ++ (w ++ u)) (sym (take-append-drop n t))
    ∙ ap (λ w. h ++ w) (append_assoc (take n t) (drop n t) u)
    ∙ sym (append_assoc h (take n t) (drop n t ++ u))

pub outcome-take_miss :
    (flags : ℕ) (kind : Kind) (n : ℕ) (h t u : List ℕ)
    → length (h ++ take n t) ≤ 4
    → is_prefix kind (h ++ take n t) ≡ false
    → outcome flags kind (h ++ (t ++ u)) ≡ on_tail flags
outcome-take_miss flags kind n h t u le miss =
    ap (outcome flags kind) (split_at n h t u)
    ∙ outcome_mismatch flags kind (h ++ take n t) (drop n t ++ u) le miss

pub outcome-take_match :
    (flags : ℕ) (kind : Kind) (n : ℕ) (h t u : List ℕ)
    → length (h ++ take n t) ≡ 4
    → is_prefix kind (h ++ take n t) ≡ true
    → outcome flags kind (h ++ (t ++ u)) ≡ continues
outcome-take_match flags kind n h t u four fits =
    ap (outcome flags kind) (split_at n h t u)
    ∙ outcome_match flags kind (h ++ take n t) (drop n t ++ u) four fits

pub on_rest-held :
    (flags : ℕ) (h t : List ℕ) → (length h == 0) ≡ false → on_rest flags (h ++ t) ≡ on_tail flags
on_rest-held flags [] t e = ground arith
on_rest-held flags (x ∷ h) t e = refl

-- A frame boundary, with the bytes held so far a proper prefix of a magic, under concatenation.
pub record Straddles (f : Frames) : Type 0 where
  pub at_boundary : f.state ≡ between
  pub concat : has_bit f.flags dec_concat_members ≡ true
  pub prefix : is_prefix f.kind f.held ≡ true
  pub proper : length f.held < 4

abbrev window_size : Buffer → ℕ
window_size b = if ltb (avail_in b) 4 then avail_in b else 4

peek_lem : (b : Buffer) (t : List ℕ) → Holds b t → peek b (window_size b) ≡ take 4 t
peek_lem b t v = ap (take (window_size b)) v.rest ∙ elim (Bool-cases (ltb (avail_in b) 4)) [
  | inl few ↦ ground (arith, v.size, take_all (avail_in b) t, take_all 4 t)
  | inr many ↦ ground arith
]

empty_held : (f : Frames) → f.held ≡ [] → f ≡ record f { held = [] }
empty_held f e = ap (λ h. record f { held = h }) e

abbrev pub loop_of : Frames → Buffer → Bool × List ℕ × Buffer
loop_of f b = extend (4 - length f.held) f.kind f.held b

module _ {C : Type 0} where
  -- What the driver makes of an answer: the bytes on offer after the end are a tail.
  unfoldable pub judge : ℕ → Status × Frames × Buffer × C → Option Verdict
  judge flags (st, f, b, c) =
      if is st need_input
      then none
      else if is st ok
      then some continues
      else if is st err_trailing
      then some trailing
      else some (if avail_in b == 0 then ended else on_tail flags)

  pub judge_waits :
      (flags : ℕ) (r : Status × Frames × Buffer × C) → r.0 ≡ need_input → judge flags r ≡ none
  unfolding judge
  judge_waits flags r e = rw e refl

  abbrev pub Waits : Frames → List ℕ → Status × Frames × Buffer × C → Type 0
  Waits f t (st, f', b', c) =
      (st ≡ need_input)
      × (f' ≡ record f { held = f.held ++ t })
      × (length (f.held ++ t) < 4)
      × (is_prefix f.kind (f.held ++ t) ≡ true)
      × (avail_in b' ≡ 0)

  abbrev pub Decided : Frames → List ℕ → Status × Frames × Buffer × C → Type 0
  Decided f t r =
      (u : List ℕ) → judge f.flags r ≡ some (outcome f.flags f.kind (f.held ++ (t ++ u)))

  first_look-miss :
      (f : Frames) (b : Buffer) (x : ℕ) (t : List ℕ) (flush : ℕ) (c : C)
      → f.held ≡ []
      → Holds b (x ∷ t)
      → is_prefix f.kind (take 4 (x ∷ t)) ≡ false
      → Decided f (x ∷ t) (first_look f b flush c)
  unfolding first_look judge
  first_look-miss f b x t flush c e v miss u =
      let some_left : (avail_in b == 0) ≡ false = ground (arith, v.size) in
      let seen = peek_lem b (x ∷ t) v in
      let out : outcome f.flags f.kind ((x ∷ t) ++ u) ≡ on_tail f.flags =
        outcome-take_miss f.flags f.kind 4 [] (x ∷ t) u (omega (arith, length-take 4 (x ∷ t)))
          miss in
      let answer : first_look f b flush c ≡ (stream_end, record f { state = done }, b, c) =
        rw (some_left, seen, miss) refl in
      ap (judge f.flags) answer ∙ rw (e, out, some_left) refl

  first_look-whole :
      (f : Frames) (b : Buffer) (x : ℕ) (t : List ℕ) (flush : ℕ) (c : C)
      → f.held ≡ []
      → Holds b (x ∷ t)
      → is_prefix f.kind (take 4 (x ∷ t)) ≡ true
      → ltb (avail_in b) 4 ≡ false
      → Decided f (x ∷ t) (first_look f b flush c)
  unfolding first_look judge
  first_look-whole f b x t flush c e v fits many u =
      let some_left : (avail_in b == 0) ≡ false = ground (arith, v.size) in
      let seen = peek_lem b (x ∷ t) v in
      let four : length (take 4 (x ∷ t)) ≡ 4 = ground (arith, v.size, length-take 4 (x ∷ t)) in
      let out : outcome f.flags f.kind ((x ∷ t) ++ u) ≡ continues =
        outcome-take_match f.flags f.kind 4 [] (x ∷ t) u four fits in
      let answer : first_look f b flush c ≡ (ok, record f { state = body }, b, c) =
        rw (some_left, seen, fits, many) refl in
      ap (judge f.flags) answer ∙ rw (e, out) refl

  pub first_look_lem :
      (f : Frames) (b : Buffer) (t : List ℕ) (c : C)
      → f.held ≡ []
      → Straddles f
      → Holds b t
      → let r = first_look f b zu_run c in Waits f t r ⊎ Decided f t r
  unfolding first_look is_prefix
  first_look_lem f b [] c e s v =
      let none_left : (avail_in b == 0) ≡ true = ground (arith, v.size) in
      let short : length (f.held ++ []) < 4 = rw e (omega arith) in
      let same : f ≡ record f { held = f.held ++ [] } =
        ap (λ h. record f { held = h }) (sym (append-nil f.held)) in
      rw none_left (inl (refl, same, short, rw e refl, omega (arith, v.size)))
  first_look_lem f b (x ∷ t) c e s v = elim (Bool-cases (is_prefix f.kind (take 4 (x ∷ t)))) [
    | inl fits ↦ elim (Bool-cases (ltb (avail_in b) 4)) [
      | inl few ↦
          let some_left : (avail_in b == 0) ≡ false = ground (arith, v.size) in
          let not_four : (avail_in b == 4) ≡ false = ground arith in
          let seen = peek_lem b (x ∷ t) v in
          let all : take 4 (x ∷ t) ≡ x ∷ t = take_all 4 (x ∷ t) (ground (arith, v.size)) in
          let answer : first_look f b zu_run c
              ≡ (need_input, record f { held = x ∷ t }, consume b (avail_in b), c) =
            rw (some_left, seen, fits, few, not_four, all) refl in
          rw (answer, e)
            (inl (
              refl,
              refl,
              ground (arith, v.size),
              subst (λ w. is_prefix f.kind w ≡ true) all fits,
              omega arith,
            ))
      | inr many ↦ inr (first_look-whole f b x t zu_run c e v fits many)
    ]
    | inr miss ↦ inr (first_look-miss f b x t zu_run c e v miss)
  ]

  pub first_look_end :
      (f : Frames) (b : Buffer) (t : List ℕ) (c : C)
      → f.held ≡ []
      → Holds b t
      → judge f.flags (first_look f b zu_finish c) ≡ some (outcome f.flags f.kind t)
  unfolding first_look judge
  first_look_end f b [] c e v =
      let none_left : (avail_in b == 0) ≡ true = ground (arith, v.size) in
      let out = outcome_short f.flags f.kind [] (omega arith) in
      let answer : first_look f b zu_finish c ≡ (stream_end, record f { state = done }, b, c) =
        rw none_left refl in
      ap (judge f.flags) answer ∙ rw (out, none_left) refl
  first_look_end f b (x ∷ t) c e v =
      let known = ap (λ w. some (outcome f.flags f.kind w)) (append-nil (x ∷ t)) in
      let spread = ap (λ h. some (outcome f.flags f.kind (h ++ ((x ∷ t) ++ [])))) e in
      elim (Bool-cases (is_prefix f.kind (take 4 (x ∷ t)))) [
        | inl fits ↦ elim (Bool-cases (ltb (avail_in b) 4)) [
          | inl few ↦
              let some_left : (avail_in b == 0) ≡ false = ground (arith, v.size) in
              let not_four : (avail_in b == 4) ≡ false = ground arith in
              let seen = peek_lem b (x ∷ t) v in
              let short = outcome_short f.flags f.kind (x ∷ t) (ground (arith, v.size)) in
              let answer : first_look f b zu_finish c
                  ≡ (stream_end, record f { state = done }, b, c) =
                rw (some_left, seen, fits, few, not_four) refl in
              ap (judge f.flags) answer ∙ rw (short, some_left) refl
          | inr many ↦ first_look-whole f b x t zu_finish c e v fits many [] ∙ spread ∙ known
        ]
        | inr miss ↦ first_look-miss f b x t zu_finish c e v miss [] ∙ spread ∙ known
      ]

  pub judged_tail :
      (flags : ℕ) (f : Frames) (b : Buffer) (c : C)
      → avail_in b ≡ 0
      → judge flags
          (if has_bit flags dec_reject_trailing then err_trailing else stream_end, f, b, c)
        ≡ some (on_tail flags)
  unfolding judge
  judged_tail flags f b c e = elim (Bool-cases (has_bit flags dec_reject_trailing)) [
    | inl reject ↦ let out : on_tail flags ≡ trailing = rw reject refl in rw (out, reject) refl
    | inr keep ↦
        let out : on_tail flags ≡ ended = rw keep refl in
        let none_left : (avail_in b == 0) ≡ true = ground arith in rw (out, keep, none_left) refl
  ]
