-- ===== src/Size/Exact.antt =====
-- The checked arithmetic is exact: it never wraps, and it refuses only what would.
use native.Mathlib.Nat.{le-div_iff_mul-le, mul_comm}
use zukomp.Base.{
  ℕ, zero, suc, ◌+◌, ◌*◌, ◌/◌, ◌≤◌, ◌<◌, ◌≡◌, ◌↔◌, ◌⊎◌, none, some, arith, inl, inr, ap, sym, ◌∙◌,
  ltb, Bool-cases, word, size_max,
}
use zukomp.Types.{ok, err_memory, code}
use zukomp.Size.{add, mul, grow, min_buffer, next_capacity}

-- For all `size_t` a and b: `zu_int_add` gives the true sum where it fits `size_t`, and
-- ZU_ERR_MEMORY with nothing written where it does not.
pub add_exact :
    (a b : ℕ)
    → a < word
    → b < word
    → (a + b < word → add a b ≡ (ok, some (a + b))) × (word ≤ a + b → add a b ≡ (err_memory, none))
unfolding add
add_exact a b ha hb = ground arith

quotient_test : (a b : ℕ) → (b ≤ size_max / suc a) ↔ (suc a * b ≤ size_max)
quotient_test a b = rw (mul_comm (suc a) b) (le-div_iff_mul-le (omega arith))

-- For all `size_t` a and b: `zu_int_mul` gives the true product where it fits `size_t`, and
-- ZU_ERR_MEMORY with nothing written where it does not.
pub mul_exact :
    (a b : ℕ)
    → a < word
    → b < word
    → (a * b < word → mul a b ≡ (ok, some (a * b))) × (word ≤ a * b → mul a b ≡ (err_memory, none))
unfolding mul
mul_exact zero b ha hb = grind arith
mul_exact (suc a) b ha hb = ground (arith, quotient_test a b)

overflow_fails :
    (current needed : ℕ)
    → current < word
    → needed < word
    → word ≤ current + needed
    → grow current needed ≡ (err_memory, none)
unfolding grow add
overflow_fails current needed hc hn h = ground arith

-- For all `size_t` current and needed whose sum fits `size_t`: `zu_int_grow` succeeds with a capacity
-- that fits `size_t`, holds current + needed bytes and at least ZU_INT_MIN_BUFFER, is at least twice
-- the current one where the doubled size fits, and is exactly one of these three sizes.
pub grow_succeeds :
    (current needed : ℕ)
    → current + needed < word
    → (n : ℕ) × (grow current needed ≡ (ok, some n))
      × (n < word)
      × (current + needed ≤ n)
      × (min_buffer ≤ n)
      × (current * 2 < word → current * 2 ≤ n)
      × ((n ≡ min_buffer) ⊎ (n ≡ current + needed) ⊎ (n ≡ current * 2))
unfolding grow add next_capacity
grow_succeeds current needed h = (
  next_capacity current (current + needed),
  ground arith,
  ground (arith, mul_exact current 2),
  ground (arith, mul_exact current 2),
  ground (arith, mul_exact current 2),
  ground (arith, mul_exact current 2),
  ground (arith, mul_exact current 2),
)

-- For all `size_t` current and needed: `zu_int_grow` answers ZU_ERR_MEMORY with nothing written where
-- current + needed does not fit `size_t`, and only there.
pub grow_fails :
    (current needed : ℕ)
    → current < word
    → needed < word
    → (grow current needed ≡ (err_memory, none)) ↔ (word ≤ current + needed)
grow_fails current needed hc hn = (
  λ e. elim (Bool-cases (ltb (current + needed) word)) [
    | inl fits ↦
        let (n, succeeds, _, _, _, _, _) = grow_succeeds current needed (ground arith) in
        let same : 0 ≡ 10 = ap (λ r. code r.0) (sym succeeds ∙ e) in absurd (omega arith)
    | inr over ↦ ground arith
  ],
  overflow_fails current needed hc hn,
)
