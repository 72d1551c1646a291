-- ===== src/Tests/Memory.antt =====
-- The output sink (src/zu_whole.c).
use zukomp.Base.{
  ◌⊎◌, false, ℕ, zero, suc, ◌≤◌, ◌≡◌, refl, ap, ◌∙◌, sym, or_else, true, Option, some, List, [],
  ◌∷◌, length, take, arith,
}
use zukomp.Buffer.{bytes}
use zukomp.Types.{is, ok}
use zukomp.Whole.{Outbuf, reserve}
use zukomp.Whole.Reserve.{IsValid, Reallocates, Reserved, reserve_makes_room}

-- A block of `n` bytes that begins with those of `xs`.
pub pad : ℕ → List ℕ → List ℕ
pad zero xs = []
pad (suc n) [] = 0 ∷ pad n []
pad (suc n) (x ∷ xs) = x ∷ pad n xs

length-pad : (n : ℕ) (xs : List ℕ) → length (pad n xs) ≡ n
unfolding pad
length-pad zero xs = omega arith
length-pad (suc n) [] = omega (arith, length-pad n [])
length-pad (suc n) (x ∷ xs) = omega (arith, length-pad n xs)

take-pad : (n : ℕ) (xs : List ℕ) → length xs ≤ n → take (length xs) (pad n xs) ≡ xs
unfolding pad
take-pad n [] le = refl
take-pad zero (x ∷ xs) le = absurd (omega arith)
take-pad (suc n) (x ∷ xs) le = ap (λ ys. x ∷ ys) (take-pad n xs (omega arith))

abbrev pub padded : Option (List ℕ) → ℕ → Option (List ℕ)
padded p n = some (pad n (bytes p))

block : (p : Option (List ℕ)) (n : ℕ) (q : List ℕ) → padded p n ≡ some q → pad n (bytes p) ≡ q
block p n q e = ap (λ o. or_else o q) e

pub padded-Reallocates : Reallocates padded
padded-Reallocates = record {
  sized = λ p n q e. ap (λ ys. length ys) (sym (block p n q e)) ∙ length-pad n (bytes p);
  kept = λ p n q e le.
      ap (λ ys. take (length (bytes p)) ys) (sym (block p n q e)) ∙ take-pad n (bytes p) le;
}

abbrev pub sink : Outbuf
sink = record { owner = true; buf = some (1 ∷ 2 ∷ 3 ∷ []); size = 3; used = 2 }

pub sink-IsValid : IsValid sink
sink-IsValid = record { memory = omega arith; used_in = omega arith; size_word = omega arith }

reserve_makes_room_example :
    let (st, p, live') = reserve padded sink 5000 1 in
    (st ≡ ok) × Reserved sink 5000 p ⊎ (is st ok ≡ false) × (p ≡ sink) × (live' ≡ 1)
reserve_makes_room_example =
    reserve_makes_room padded sink 5000 1 padded-Reallocates sink-IsValid (omega arith)
