-- ===== src/Base/Lists.antt =====
-- Lists measured and indexed by native numbers, and regions of memory as lists of bytes.
use Prim.Native.Nat.{ℕ, zero, suc, ◌+◌, ◌-◌, ◌≤◌, min}
use Prim.Native.Char.{code}
use Prim.Native.String.{String}
use mathlib.Core.Path.{◌≡◌, refl, ap}
use mathlib.Core.Bool.{Bool, true, false, ◌&&◌}
use mathlib.Core.Logic.{◌↔◌}
use mathlib.Core.List.{List, [], ◌∷◌, ◌++◌}
use mathlib.Core.Option.{Option, none, some}
use native.Mathlib.Omega.{arith}
use zukomp.Base.Tests.{◌==◌}

module _ {ℓ} {A : Type ℓ} where
  abbrev pub length : List A → ℕ
  length [] = 0
  length (x ∷ xs) = suc (length xs)

  abbrev pub get_elem? : List A → ℕ → Option A
  get_elem? [] i = none
  get_elem? (x ∷ xs) zero = some x
  get_elem? (x ∷ xs) (suc i) = get_elem? xs i

  abbrev pub get_or : List A → ℕ → A → A
  get_or [] i d = d
  get_or (x ∷ xs) zero d = x
  get_or (x ∷ xs) (suc i) d = get_or xs i d

  -- A write out of bounds changes nothing.
  abbrev pub set : List A → ℕ → A → List A
  set [] i v = []
  set (x ∷ xs) zero v = v ∷ xs
  set (x ∷ xs) (suc i) v = x ∷ set xs i v

  abbrev pub take : ℕ → List A → List A
  take zero xs = []
  take (suc n) [] = []
  take (suc n) (x ∷ xs) = x ∷ take n xs

  abbrev pub drop : ℕ → List A → List A
  drop zero xs = xs
  drop (suc n) [] = []
  drop (suc n) (x ∷ xs) = drop n xs

  -- `memcpy` of the bytes `ys` to index `i`; what would go past the end is lost.
  abbrev pub write : List A → ℕ → List A → List A
  write [] i ys = []
  write (x ∷ xs) zero [] = x ∷ xs
  write (x ∷ xs) zero (y ∷ ys) = y ∷ write xs zero ys
  write (x ∷ xs) (suc i) ys = x ∷ write xs i ys

-- The bytes of a C string, up to its NUL.
abbrev pub codes : String → List ℕ
codes String.[] = []
codes (String.◌∷◌ c s) = code c ∷ codes s

module _ {ℓ} {A : Type ℓ} where
  pub length-append : (xs ys : List A) → length (xs ++ ys) ≡ length xs + length ys
  length-append [] ys = omega arith
  length-append (x ∷ xs) ys = omega (arith, length-append xs ys)

  pub length-take : (n : ℕ) (xs : List A) → length (take n xs) ≡ min n (length xs)
  length-take zero xs = omega arith
  length-take (suc n) [] = omega arith
  length-take (suc n) (x ∷ xs) = omega (arith, length-take n xs)

  pub length-drop : (n : ℕ) (xs : List A) → length (drop n xs) ≡ length xs - n
  length-drop zero xs = omega arith
  length-drop (suc n) [] = omega arith
  length-drop (suc n) (x ∷ xs) = omega (arith, length-drop n xs)

  pub length-write : (xs : List A) (i : ℕ) (ys : List A) → length (write xs i ys) ≡ length xs
  length-write [] i ys = refl
  length-write (x ∷ xs) zero [] = refl
  length-write (x ∷ xs) zero (y ∷ ys) = ap suc (length-write xs zero ys)
  length-write (x ∷ xs) (suc i) ys = ap suc (length-write xs i ys)

  pub length-set : (xs : List A) (i : ℕ) (v : A) → length (set xs i v) ≡ length xs
  length-set [] i v = refl
  length-set (x ∷ xs) zero v = refl
  length-set (x ∷ xs) (suc i) v = ap suc (length-set xs i v)

  pub take-write : (xs : List A) (i : ℕ) (ys : List A) → take i (write xs i ys) ≡ take i xs
  take-write [] i ys = refl
  take-write (x ∷ xs) zero ys = refl
  take-write (x ∷ xs) (suc i) ys = ap (◌∷◌ x) (take-write xs i ys)

  take-write_front :
      (xs ys : List A) → length ys ≤ length xs → take (length ys) (write xs 0 ys) ≡ ys
  take-write_front [] [] h = refl
  take-write_front [] (y ∷ ys) h = absurd (omega arith)
  take-write_front (x ∷ xs) [] h = refl
  take-write_front (x ∷ xs) (y ∷ ys) h = ap (◌∷◌ y) (take-write_front xs ys (omega arith))

  -- What stands below the end of a write is what stood below its start, then the bytes written.
  pub take-write-add :
      (xs : List A) (i j : ℕ) (ys : List A)
      → j ≡ i + length ys
      → j ≤ length xs
      → take j (write xs i ys) ≡ take i xs ++ ys
  take-write-add xs zero j ys e h =
      let e' : j ≡ length ys = omega arith in rw e' (take-write_front xs ys (omega arith))
  take-write-add [] (suc i) j ys e h = absurd (omega arith)
  take-write-add (x ∷ xs) (suc i) zero ys e h = absurd (omega arith)
  take-write-add (x ∷ xs) (suc i) (suc j) ys e h =
      ap (◌∷◌ x) (take-write-add xs i j ys (omega arith) (omega arith))

  pub write_front :
      (xs ys : List A) → length ys ≤ length xs → write xs 0 ys ≡ ys ++ drop (length ys) xs
  write_front [] [] h = refl
  write_front [] (y ∷ ys) h = absurd (omega arith)
  write_front (x ∷ xs) [] h = refl
  write_front (x ∷ xs) (y ∷ ys) h = ap (◌∷◌ y) (write_front xs ys (omega arith))

  pub take_all : (n : ℕ) (xs : List A) → length xs ≤ n → take n xs ≡ xs
  take_all zero [] h = refl
  take_all zero (x ∷ xs) h = absurd (omega arith)
  take_all (suc n) [] h = refl
  take_all (suc n) (x ∷ xs) h = ap (◌∷◌ x) (take_all n xs (omega arith))

  pub take-take : (m n : ℕ) (xs : List A) → m ≤ n → take m (take n xs) ≡ take m xs
  take-take zero n xs h = refl
  take-take (suc m) zero xs h = absurd (omega arith)
  take-take (suc m) (suc n) [] h = refl
  take-take (suc m) (suc n) (x ∷ xs) h = ap (◌∷◌ x) (take-take m n xs (omega arith))

  pub take-append-drop : (n : ℕ) (xs : List A) → take n xs ++ drop n xs ≡ xs
  take-append-drop zero xs = refl
  take-append-drop (suc n) [] = refl
  take-append-drop (suc n) (x ∷ xs) = ap (◌∷◌ x) (take-append-drop n xs)

  pub drop-drop : (m n k : ℕ) (xs : List A) → k ≡ m + n → drop n (drop m xs) ≡ drop k xs
  drop-drop zero n k xs e = ap (λ i. drop i xs) (omega arith)
  drop-drop (suc m) n zero xs e = absurd (omega arith)
  drop-drop (suc m) zero (suc k) [] e = refl
  drop-drop (suc m) (suc n) (suc k) [] e = refl
  drop-drop (suc m) n (suc k) (x ∷ xs) e = drop-drop m n k xs (omega arith)

  -- A prefix, and the part of the list that follows it.
  pub take-add : (m n k : ℕ) (xs : List A) → k ≡ m + n → take m xs ++ take n (drop m xs) ≡ take k xs
  take-add zero n k xs e = ap (λ i. take i xs) (omega arith)
  take-add (suc m) n zero xs e = absurd (omega arith)
  take-add (suc m) zero (suc k) [] e = refl
  take-add (suc m) (suc n) (suc k) [] e = refl
  take-add (suc m) n (suc k) (x ∷ xs) e = ap (◌∷◌ x) (take-add m n k xs (omega arith))

-- `memcmp` of equal lengths and `strcmp` of C strings, as tests for equality.
unfoldable pub bytes_eq : List ℕ → List ℕ → Bool
bytes_eq [] [] = true
bytes_eq [] (y ∷ ys) = false
bytes_eq (x ∷ xs) [] = false
bytes_eq (x ∷ xs) (y ∷ ys) = x == y && bytes_eq xs ys

pub bytes_eq_iff : (xs ys : List ℕ) → (bytes_eq xs ys ≡ true) ↔ (xs ≡ ys)
unfolding bytes_eq
bytes_eq_iff [] [] = ground arith
bytes_eq_iff [] (y ∷ ys) = ground arith
bytes_eq_iff (x ∷ xs) [] = ground arith
bytes_eq_iff (x ∷ xs) (y ∷ ys) = ground (arith, bytes_eq_iff xs ys)
