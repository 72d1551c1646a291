-- ===== src/Size.antt =====
-- src/zu_buf.c: checked size arithmetic. The option beside a status is what goes through `out`.
pub mod Exact
use zukomp.Base.{
  ℕ, ◌+◌, ◌-◌, ◌*◌, ◌/◌, ◌%◌, not, Option, none, some, ◌&&◌, ltb, ◌==◌, if◌then◌else◌, size_max,
  word, or_else,
}
use zukomp.Types.{Status, ok, err_memory}

-- `ZU_INT_MIN_BUFFER`
abbrev pub min_buffer : ℕ
min_buffer = 4096

-- `zu_int_add`
unfoldable pub add : ℕ → ℕ → Status × Option ℕ
add a b = if ltb (size_max - a) b then (err_memory, none) else (ok, some ((a + b) % word))

-- `zu_int_mul`
unfoldable pub mul : ℕ → ℕ → Status × Option ℕ
mul a b =
    if not (a == 0) && ltb (size_max / a) b then (err_memory, none) else (ok, some (a * b % word))

-- Doubling, or what is required where that overflows; never less than is required.
next_capacity : ℕ → ℕ → ℕ
next_capacity current required =
    let doubled = or_else (mul current 2).1 required in
    let next = if ltb required doubled then doubled else required in
    if ltb next min_buffer then min_buffer else next

-- `zu_int_grow`
unfoldable pub grow : ℕ → ℕ → Status × Option ℕ
unfolding next_capacity
grow current needed = elim (add current needed).1 [
  | none ↦ ((add current needed).0, none)
  | some required ↦ (ok, some (next_capacity current required))
]
