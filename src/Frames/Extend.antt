-- ===== src/Frames/Extend.antt =====
-- The loop of `zu_int_frames_between` (src/zu_frames.c) that extends a held prefix.
use mathlib.Core.List.{append_assoc, append-nil}
use zukomp.Base.{
  ℕ, zero, suc, ◌+◌, ◌-◌, ◌<◌, ◌≡◌, ◌⊎◌, inl, inr, refl, sym, ap, ◌∙◌, Bool, true, false, List, [],
  ◌∷◌, ◌++◌, ◌==◌, length, take, drop, get_or, arith, Bool-cases,
}
use zukomp.Buffer.{Buffer, avail_in, next_byte, consume, bytes}
use zukomp.Frames.{Kind, is_prefix, extend}
use zukomp.Frames.Prefix.{is_prefix-append}

-- A buffer whose bytes on offer are `t`.
pub record Holds (b : Buffer) (t : List ℕ) : Type 0 where
  pub size : avail_in b ≡ length t
  pub rest : drop b.src_pos (bytes b.src) ≡ t

get_or-drop :
    (i x : ℕ) (xs t : List ℕ) → drop i xs ≡ x ∷ t → (get_or xs i 0 ≡ x) × (drop (i + 1) xs ≡ t)
get_or-drop zero x [] t e = cc
get_or-drop zero x (y ∷ ys) t e = ground (arith, e)
get_or-drop (suc i) x [] t e = cc
get_or-drop (suc i) x (y ∷ ys) t e =
    let (this, next) = get_or-drop i x ys t e in
    let shift : suc i + 1 ≡ suc (i + 1) = omega arith in
    (this, ap (λ k. drop k (y ∷ ys)) shift ∙ next)

Holds-next :
    (b : Buffer) (x : ℕ) (t : List ℕ) → Holds b (x ∷ t) → (next_byte b ≡ x) × Holds (consume b 1) t
Holds-next b x t h =
    let (this, next) = get_or-drop b.src_pos x (bytes b.src) t h.rest in
    (this, record { size = omega (arith, h.size); rest = next })

-- The loop over a held prefix takes the bytes of `take rounds t`, or stops at one that does not fit.
abbrev pub Fits : Kind → ℕ → List ℕ → List ℕ → Bool × List ℕ × Buffer → Type 0
Fits kind rounds h t (fits, held, b) =
    (is_prefix kind (h ++ take rounds t) ≡ true)
    × (fits ≡ true)
    × (held ≡ h ++ take rounds t)
    × (avail_in b ≡ length t - rounds)

abbrev pub Misfits : Kind → ℕ → List ℕ → List ℕ → Bool × List ℕ × Buffer → Type 0
Misfits kind rounds h t (fits, held, b) =
    (is_prefix kind (h ++ take rounds t) ≡ false) × (fits ≡ false) × (0 < avail_in b)

disproved :
    (kind : Kind) (p q : List ℕ) → is_prefix kind p ≡ false → is_prefix kind (p ++ q) ≡ false
disproved kind p q bad = elim (Bool-cases (is_prefix kind (p ++ q))) [
  | inl fits ↦ let wrong = is_prefix-append kind p q fits in absurd (cc)
  | inr miss ↦ miss
]

pub length_zero : (xs : List ℕ) → length xs ≡ 0 → xs ≡ []
length_zero [] e = refl
length_zero (x ∷ xs) e = absurd (omega arith)

pub extend_lem :
    (rounds : ℕ) (kind : Kind) (h t : List ℕ) (b : Buffer)
    → is_prefix kind h ≡ true
    → Holds b t
    → let r = extend rounds kind h b in Fits kind rounds h t r ⊎ Misfits kind rounds h t r
unfolding extend
extend_lem zero kind h t b p v =
    inl (rw append-nil p, refl, sym (append-nil h), omega (arith, v.size))
extend_lem (suc n) kind h [] b p v =
    let none_left : (avail_in b == 0) ≡ true = ground (arith, v.size) in
    rw none_left (inl (rw append-nil p, refl, sym (append-nil h), omega (arith, v.size)))
extend_lem (suc n) kind h (x ∷ t) b p v =
    let some_left : (avail_in b == 0) ≡ false = ground (arith, v.size) in
    let (byte, next) = Holds-next b x t v in
    let cons : h ++ (x ∷ take n t) ≡ (h ++ (x ∷ [])) ++ take n t =
      sym (append_assoc h (x ∷ []) (take n t)) in
    elim (Bool-cases (is_prefix kind (h ++ (x ∷ [])))) [
      | inl good ↦
          let one_less : length (x ∷ t) - suc n ≡ length t - n = omega arith in
          rw (one_less, some_left, byte, good, cons)
            (extend_lem n kind (h ++ (x ∷ [])) t (consume b 1) good next)
      | inr bad ↦
          let miss = disproved kind (h ++ (x ∷ [])) (take n t) bad in
          rw (some_left, byte, bad, cons) (inr (miss, refl, omega (arith, v.size)))
    ]
