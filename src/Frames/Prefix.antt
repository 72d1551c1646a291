-- ===== src/Frames/Prefix.antt =====
-- Prefixes of a frame magic (src/zu_frames.c), and what the bytes after a frame amount to.
use mathlib.Core.List.{append-nil}
use zukomp.Base.{
  ℕ, zero, suc, ◌-◌, ◌≤◌, ◌<◌, ◌≡◌, refl, ap, ◌∙◌, subst, true, false, List, [], ◌∷◌, ◌++◌, leb,
  ◌&&◌, if◌then◌else◌, has_bit, length, take, bytes_eq, bytes_eq_iff, arith, Bool-cases, inl, inr,
  length-append,
}
use zukomp.Types.{dec_reject_trailing}
use zukomp.Frames.{Kind, is_prefix, own_magic, skip_tail}

bytes_eq_prefix :
    (xs ys m : List ℕ)
    → bytes_eq (xs ++ ys) (take (length (xs ++ ys)) m) ≡ true
    → bytes_eq xs (take (length xs) m) ≡ true
bytes_eq_prefix [] ys m h = (bytes_eq_iff [] []).1 refl
bytes_eq_prefix (x ∷ xs) ys [] h =
    let wrong : x ∷ (xs ++ ys) ≡ [] = (bytes_eq_iff _ _).0 h in absurd (cc)
bytes_eq_prefix (x ∷ xs) ys (z ∷ m) h = ground (
  arith,
  bytes_eq_prefix xs ys m,
  bytes_eq_iff (x ∷ (xs ++ ys)) (z ∷ take (length (xs ++ ys)) m),
  bytes_eq_iff (xs ++ ys) (take (length (xs ++ ys)) m),
  bytes_eq_iff xs (take (length xs) m),
  bytes_eq_iff (x ∷ xs) (z ∷ take (length xs) m),
)

-- A prefix of a prefix is one.
pub is_prefix-append :
    (kind : Kind) (xs ys : List ℕ) → is_prefix kind (xs ++ ys) ≡ true → is_prefix kind xs ≡ true
unfolding is_prefix
is_prefix-append kind [] ys h = refl
is_prefix-append kind (x ∷ xs) ys h =
    ground (arith, bytes_eq_prefix (x ∷ xs) ys (own_magic kind), bytes_eq_prefix xs ys skip_tail)

pub take-append_le {ℓ} :
    {A : Type ℓ} (n : ℕ) (xs ys : List A)
    → length xs ≤ n
    → take n (xs ++ ys) ≡ xs ++ take (n - length xs) ys
take-append_le n [] ys h = ap (λ k. take k ys) (omega arith)
take-append_le zero (x ∷ xs) ys h = absurd (omega arith)
take-append_le (suc n) (x ∷ xs) ys h =
    ap (◌∷◌ x) (take-append_le n xs ys (omega arith) ∙ ap (λ k. xs ++ take k ys) (omega arith))

-- The bytes after a frame begin another, are none, or are trailing.
pub data Verdict : Type 0 where
  continues ended trailing : Verdict

abbrev pub on_tail : ℕ → Verdict
on_tail flags = if has_bit flags dec_reject_trailing then trailing else ended

abbrev pub on_rest : ℕ → List ℕ → Verdict
on_rest flags [] = ended
on_rest flags (x ∷ xs) = on_tail flags

-- What the format says, with all of the bytes at hand: another frame begins where four bytes are
-- there and are the format's magic or a skippable frame's.
pub outcome : ℕ → Kind → List ℕ → Verdict
outcome flags kind t =
    if leb 4 (length t) && is_prefix kind (take 4 t) then continues else on_rest flags t

pub outcome_mismatch :
    (flags : ℕ) (kind : Kind) (p q : List ℕ)
    → length p ≤ 4
    → is_prefix kind p ≡ false
    → outcome flags kind (p ++ q) ≡ on_tail flags
unfolding outcome is_prefix
outcome_mismatch flags kind [] q le h = cc
outcome_mismatch flags kind (x ∷ p) q le h =
    elim (Bool-cases (is_prefix kind (take 4 (x ∷ (p ++ q))))) [
      | inl fits ↦
          let short : is_prefix kind (x ∷ (p ++ take (4 - length (x ∷ p)) q)) ≡ true =
            subst (λ t. is_prefix kind t ≡ true) (take-append_le 4 (x ∷ p) q le) fits in
          let wrong = is_prefix-append kind (x ∷ p) (take (4 - length (x ∷ p)) q) short in cc
      | inr miss ↦ ground arith
    ]

pub outcome_match :
    (flags : ℕ) (kind : Kind) (p q : List ℕ)
    → length p ≡ 4
    → is_prefix kind p ≡ true
    → outcome flags kind (p ++ q) ≡ continues
unfolding outcome
outcome_match flags kind p q e h =
    let none_left : 4 - length p ≡ 0 = omega arith in
    let whole : take 4 (p ++ q) ≡ p =
      take-append_le 4 p q (omega arith) ∙ ap (λ k. p ++ take k q) none_left ∙ append-nil p in
    ground (arith, whole, length-append p q)

pub outcome_short :
    (flags : ℕ) (kind : Kind) (p : List ℕ) → length p < 4 → outcome flags kind p ≡ on_rest flags p
unfolding outcome
outcome_short flags kind p lt = ground arith
