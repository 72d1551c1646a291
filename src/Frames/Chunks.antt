-- ===== src/Frames/Chunks.antt =====
-- The decision of `zu_int_frames_between` (src/zu_frames.c) does not depend on how the bytes after a
-- frame are cut into buffers.
use mathlib.Core.List.{append_assoc, append-nil}
use zukomp.Base.{
  ℕ, ◌-◌, ◌≡◌, ◌⊎◌, inl, inr, refl, sym, ap, ◌∙◌, true, Option, none, some, List, [], ◌∷◌, ◌++◌,
  leb, ◌==◌, if◌then◌else◌, length, arith, Bool-cases,
}
use zukomp.Buffer.{Buffer, avail_in}
use zukomp.Types.{Status, zu_run, zu_finish}
use zukomp.Frames.{Frames, done, first_look, extended, between_frames, frames_at, frames_between}
use zukomp.Frames.Prefix.{Verdict, outcome, outcome_short}
use zukomp.Frames.Extend.{Holds, extend_lem, length_zero}
use zukomp.Frames.Boundary.{
  Straddles, judge, judge_waits, Waits, Decided, first_look_lem, first_look_end, judged_tail,
  loop_of, on_rest-held,
}
use zukomp.Frames.Held.{TakesMagic, extended-miss, extended-whole, extended-few}

-- A buffer that offers `t` and has no room for output.
abbrev pub source : List ℕ → Buffer
source t = record {
  src = some t;
  src_size = length t;
  src_pos = 0;
  dst = none;
  dst_size = 0;
  dst_pos = 0;
}

source-Holds : (t : List ℕ) → Holds (source t) t
source-Holds t = record { size = omega arith; rest = refl }

abbrev pub joined : List (List ℕ) → List ℕ → List ℕ
joined [] last = last
joined (t ∷ ts) last = t ++ joined ts last

abbrev or_later : Option Verdict → Option Verdict → Option Verdict
or_later none rest = rest
or_later (some v) rest = some v

module _ {C : Type 0} where
  module _ (feed : C → List ℕ → Status × C) where
    at_boundary-between :
        (f : Frames) (b : Buffer) (flush : ℕ) (c : C)
        → Straddles f
        → frames_between f b flush feed c ≡ (
            if length f.held == 0
            then first_look f b flush c
            else extended f flush feed c (loop_of f b))
    unfolding frames_between frames_at between_frames
    at_boundary-between f b flush c s =
        ap (λ at. frames_at at f b flush feed c) s.at_boundary ∙ rw s.concat refl

    -- A call with more input to come waits, or decides what every continuation would.
    between-run :
        (f : Frames) (b : Buffer) (t : List ℕ) (c : C)
        → TakesMagic feed f.kind
        → Straddles f
        → Holds b t
        → let r = frames_between f b zu_run feed c in Waits f t r ⊎ Decided f t r
    between-run f b t c takes s v = elim (Bool-cases (length f.held == 0)) [
      | inl empty ↦
          rw (at_boundary-between f b zu_run c s, empty)
            (first_look_lem f b t c (length_zero f.held (ground arith)) s v)
      | inr some_held ↦
          rw (at_boundary-between f b zu_run c s, some_held)
            (elim (extend_lem (4 - length f.held) f.kind f.held t b s.prefix v) [
              | inr miss ↦ inr (extended-miss feed f b t zu_run c s.proper miss)
              | inl fits ↦ elim (Bool-cases (leb 4 (length (f.held ++ t)))) [
                | inl whole ↦
                    inr (extended-whole feed f b t zu_run c takes s.proper (ground arith) fits)
                | inr few ↦
                    let (prefix, rest, answer) =
                      extended-few feed f b t zu_run c (ground arith) fits in
                    rw answer (inl (refl, refl, ground arith, prefix, rest))
              ]
            ])
    ]

    -- The last call decides.
    between-finish :
        (f : Frames) (b : Buffer) (t : List ℕ) (c : C)
        → TakesMagic feed f.kind
        → Straddles f
        → Holds b t
        → judge f.flags (frames_between f b zu_finish feed c)
          ≡ some (outcome f.flags f.kind (f.held ++ t))
    between-finish f b t c takes s v =
        let known = ap (λ w. some (outcome f.flags f.kind (f.held ++ w))) (append-nil t) in
        elim (Bool-cases (length f.held == 0)) [
          | inl empty ↦
              let no_held = length_zero f.held (ground arith) in
              rw (at_boundary-between f b zu_finish c s, empty)
                (first_look_end f b t c no_held v
                  ∙ ap (λ h. some (outcome f.flags f.kind (h ++ t))) (sym no_held))
          | inr some_held ↦
              rw (at_boundary-between f b zu_finish c s, some_held)
                (elim (extend_lem (4 - length f.held) f.kind f.held t b s.prefix v) [
                  | inr miss ↦ extended-miss feed f b t zu_finish c s.proper miss [] ∙ known
                  | inl fits ↦ elim (Bool-cases (leb 4 (length (f.held ++ t)))) [
                    | inl whole ↦
                        extended-whole feed f b t zu_finish c takes s.proper (ground arith) fits []
                        ∙ known
                    | inr few ↦
                        let (prefix, rest, answer) =
                          extended-few feed f b t zu_finish c (ground arith) fits in
                        let out = outcome_short f.flags f.kind (f.held ++ t) (ground arith) in
                        let none_left : (avail_in (loop_of f b).2 == 0) ≡ true = ground arith in
                        let some_bytes = on_rest-held f.flags f.held t (ground arith) in
                        ap (judge f.flags) answer
                        ∙ judged_tail f.flags (record f { held = []; state = done }) (loop_of f b).2
                            c rest
                        ∙ rw (out, some_bytes) refl
                  ]
                ])
        ]

    -- One call for each chunk, the last with no more to come, until an answer is not `need_input`. What
    -- a waiting call leaves behind is consumed, and the next chunk comes in a buffer of its own.
    unfoldable pub over_chunks : Frames → List (List ℕ) → List ℕ → C → Option Verdict
    over_chunks f [] last c = judge f.flags (frames_between f (source last) zu_finish feed c)
    over_chunks f (t ∷ ts) last c =
        let r = frames_between f (source t) zu_run feed c in
        let rest = over_chunks (r.1) ts last (r.3) in or_later (judge f.flags r) rest

    over_chunks-step :
        (f : Frames) (t : List ℕ) (ts : List (List ℕ)) (last : List ℕ) (c : C)
        → over_chunks f (t ∷ ts) last c ≡ (
            let r = frames_between f (source t) zu_run feed c in
            or_later (judge f.flags r) (over_chunks (r.1) ts last (r.3)))
    unfolding over_chunks
    over_chunks-step f t ts last c = refl

    -- Under concatenation, at a frame boundary where the bytes held are fewer than four and begin
    -- like a magic, and with a library that takes a whole magic: what follows a frame is classified
    -- by its bytes alone, however they are cut into buffers. It is `continues` exactly where the
    -- first four bytes begin another frame.
    pub same_at_every_chunk_size :
        (f : Frames) (chunks : List (List ℕ)) (last : List ℕ) (c : C)
        → TakesMagic feed f.kind
        → Straddles f
        → over_chunks f chunks last c ≡ some (outcome f.flags f.kind (f.held ++ joined chunks last))
    unfolding over_chunks
    same_at_every_chunk_size f [] last c takes s =
        between-finish f (source last) last c takes s (source-Holds last)
    same_at_every_chunk_size f (t ∷ ts) last c takes s =
        let r = frames_between f (source t) zu_run feed c in
        let rest = over_chunks (r.1) ts last (r.3) in
        elim (between-run f (source t) t c takes s (source-Holds t)) [
          | inl (waits, kept, proper, prefix, _) ↦
              let f' = record f { held = f.held ++ t } in
              let s' : Straddles f' = record {
                at_boundary = s.at_boundary;
                concat = s.concat;
                prefix = prefix;
                proper = proper;
              } in
              let c' = r.3 in
              let later = same_at_every_chunk_size f' ts last c' takes s' in
              let waiting = judge_waits f.flags r waits in
              over_chunks-step f t ts last c
              ∙ ap (λ v. or_later v rest) waiting
              ∙ ap (λ g. over_chunks g ts last c') kept
              ∙ later
              ∙ ap (λ w. some (outcome f.flags f.kind w)) (append_assoc f.held t (joined ts last))
          | inr decided ↦
              over_chunks-step f t ts last c ∙ ap (λ v. or_later v rest) (decided (joined ts last))
        ]
