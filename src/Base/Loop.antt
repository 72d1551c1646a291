-- ===== src/Base/Loop.antt =====
-- `for (;;)` as one function for its body: an iteration goes round again or leaves the loop.
use Prim.Native.Nat.{ℕ, zero, suc, ◌<◌}
use mathlib.Core.Path.{◌≡◌, refl, ap, subst}
use mathlib.Core.Option.{Option, none, some, some-injective, none-ne-some}
use native.Mathlib.Omega.{arith}

pub data Outcome {ℓ κ} (X : Type ℓ) (R : Type κ) : Type (ℓ ⊔ κ) where
  again : X → Outcome X R
  leave : R → Outcome X R

-- `none`: the fuel ran out.
unfoldable pub loop {ℓ κ} : {X : Type ℓ} {R : Type κ} → ℕ → (X → Outcome X R) → X → Option R
loop zero body x = none
loop (suc fuel) body x = elim (body x) [ again y ↦ loop fuel body y | leave r ↦ some r ]

-- The loop's result after one more iteration, which had the outcome `o`.
abbrev resume {ℓ κ} : {X : Type ℓ} {R : Type κ} → (X → Option R) → Outcome X R → Option R
resume rest o = elim o [ again y ↦ rest y | leave r ↦ some r ]

-- A first round that leaves.
pub loop_leaves {ℓ κ} :
    {X : Type ℓ} {R : Type κ} (fuel : ℕ) (body : X → Outcome X R) (x : X) (r : R)
    → 0 < fuel
    → body x ≡ leave r
    → loop fuel body x ≡ some r
unfolding loop
loop_leaves zero body x r lt e = absurd (omega arith)
loop_leaves (suc fuel) body x r lt e = ap (resume (loop fuel body)) e

-- Only the first iteration sees where the loop starts.
pub loop_from {ℓ κ} :
    {X : Type ℓ} {R : Type κ} (fuel : ℕ) (body : X → Outcome X R) (x y : X)
    → body x ≡ body y
    → loop fuel body x ≡ loop fuel body y
unfolding loop
loop_from zero body x y e = refl
loop_from (suc fuel) body x y e = ap (resume (loop fuel body)) e

abbrev pub Rounds {ℓ κ} :
    {X : Type ℓ} {R : Type κ} (I : X → Type 0) (P : R → Type 0) (m : X → ℕ) (x : X)
    → Outcome X R
    → Type 0
Rounds I P m x (again y) = I y × (m y < m x)
Rounds I P m x (leave r) = P r

-- A body that keeps `I` and lowers a measure leaves the loop, by a result that has `P`.
module _ {ℓ κ} {X : Type ℓ} {R : Type κ} (body : X → Outcome X R) (I : X → Type 0) (P : R → Type 0)
    (m : X → ℕ) (round : (x : X) → I x → Rounds I P m x (body x)) where
  resume_total :
      (rest : X → Option R) (x : X) (o : Outcome X R)
      → Rounds I P m x o
      → ((y : X) → m y < m x → I y → (r : R) × (rest y ≡ some r) × P r)
      → (r : R) × (resume rest o ≡ some r) × P r
  resume_total rest x (again y) h ih = ih y h.1 h.0
  resume_total rest x (leave r) h ih = (r, refl, h)

  pub loop_total :
      (fuel : ℕ) (x : X) → m x < fuel → I x → (r : R) × (loop fuel body x ≡ some r) × P r
  unfolding loop
  loop_total zero x lt h = absurd (omega arith)
  loop_total (suc fuel) x lt h =
      resume_total (loop fuel body) x (body x) (round x h)
        (λ y lower kept. loop_total fuel y (omega arith) kept)

abbrev pub Falls {ℓ κ} :
    {X : Type ℓ} {R : Type κ} (I : ℕ → X → Type 0) (P : R → Type 0) (k : ℕ) → Outcome X R → Type 0
Falls I P k (again y) = (j : ℕ) × (k ≡ suc j) × I j y
Falls I P k (leave r) = P r

-- An invariant that counts the iterations still to come.
module _ {ℓ κ} {X : Type ℓ} {R : Type κ} (body : X → Outcome X R) (I : ℕ → X → Type 0)
    (P : R → Type 0) (round : (k : ℕ) (x : X) → I k x → Falls I P k (body x)) where
  resume_counted :
      (rest : X → Option R) (k : ℕ) (o : Outcome X R)
      → Falls I P k o
      → ((j : ℕ) (y : X) → k ≡ suc j → I j y → (r : R) × (rest y ≡ some r) × P r)
      → (r : R) × (resume rest o ≡ some r) × P r
  resume_counted rest k (again y) (j, e, h) ih = ih j y e h
  resume_counted rest k (leave r) h ih = (r, refl, h)

  pub loop_counted :
      (fuel k : ℕ) (x : X) → k < fuel → I k x → (r : R) × (loop fuel body x ≡ some r) × P r
  unfolding loop
  loop_counted zero k x lt h = absurd (omega arith)
  loop_counted (suc fuel) k x lt h =
      resume_counted (loop fuel body) k (body x) (round k x h)
        (λ j y e kept. loop_counted fuel j y (omega arith) kept)

abbrev pub Keeps {ℓ κ} :
    {X : Type ℓ} {R : Type κ} (I : X → Type 0) (P : R → Type 0) → Outcome X R → Type 0
Keeps I P (again y) = I y
Keeps I P (leave r) = P r

-- However much fuel there is, a body that keeps `I` leaves by a result that has `P`, if it leaves.
module _ {ℓ κ} {X : Type ℓ} {R : Type κ} (body : X → Outcome X R) (I : X → Type 0) (P : R → Type 0)
    (round : (x : X) → I x → Keeps I P (body x)) where
  resume_keeps :
      (rest : X → Option R) (o : Outcome X R) (r : R)
      → Keeps I P o
      → ((y : X) → I y → rest y ≡ some r → P r)
      → resume rest o ≡ some r
      → P r
  resume_keeps rest (again y) r h ih e = ih y h e
  resume_keeps rest (leave x) r h ih e = subst P (some-injective x r e) h

  pub loop_keeps : (fuel : ℕ) (x : X) (r : R) → I x → loop fuel body x ≡ some r → P r
  unfolding loop
  loop_keeps zero x r h e = absurd (none-ne-some r e)
  loop_keeps (suc fuel) x r h e =
      resume_keeps (loop fuel body) (body x) r (round x h) (λ y kept. loop_keeps fuel y r kept) e
