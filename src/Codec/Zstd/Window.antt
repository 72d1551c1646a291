-- ===== src/Codec/Zstd/Window.antt =====
-- src/codec_zstd.c: the decoder's window is the least power of two that holds `max_output`, within limits.
use native.Mathlib.Nat.{pow-le-pow_right}
use zukomp.Base.{
  if_split, ℕ, zero, suc, ◌+◌, ◌-◌, ◌^◌, ◌≤◌, ◌<◌, ◌≡◌, ◌⊎◌, inl, inr, refl, subst, ltb, ltb→lt,
  ◌==◌, Bool-cases, arith,
}
use zukomp.Codec.Zstd.{log_from, ceil_log2, window_log}

-- `r` is where the search from `b` for a power of two of at least `n` stops.
record Stops (b n r : ℕ) : Type 0 where
  from : b ≤ r
  capped : r ≤ 63
  covers : n ≤ 2 ^ r ⊎ r ≡ 63
  least : r ≡ b ⊎ 2 ^ (r - 1) < n

least_after : (b n r : ℕ) → 2 ^ b < n → r ≡ b + 1 ⊎ 2 ^ (r - 1) < n → 2 ^ (r - 1) < n
least_after b n r lt (inl e) =
    let back : b ≡ r - 1 = omega arith in subst (λ (k : ℕ). 2 ^ k < n) back lt
least_after b n r lt (inr h) = h

log_from-Stops : (left b n : ℕ) → b + left ≡ 63 → Stops b n (log_from left b n)
unfolding log_from
log_from-Stops zero b n e = record {
  from = omega arith;
  capped = omega arith;
  covers = inr (omega arith);
  least = inl refl;
}
log_from-Stops (suc left) b n e =
    let h = log_from-Stops left (b + 1) n (omega arith) in
    elim (Bool-cases (ltb (2 ^ b) n)) [
      | inl t ↦ rw t (record {
        from = omega (arith, h.from);
        capped = h.capped;
        covers = h.covers;
        least = inr (least_after b n (log_from left (b + 1) n) (ltb→lt (2 ^ b) n t) h.least);
      })
      | inr f ↦ rw f (record {
        from = omega arith;
        capped = omega arith;
        covers = inl (ground arith);
        least = inl refl;
      })
    ]

ceil_log2-Stops : (n : ℕ) → Stops 0 n (ceil_log2 n)
unfolding ceil_log2
ceil_log2-Stops n = log_from-Stops 63 0 n (omega arith)

pow_le : {i j : ℕ} → i ≤ j → 2 ^ i ≤ 2 ^ j
pow_le h = pow-le-pow_right (omega arith) h

-- The window for a limit that is not 0, whose power of two is `log`.
abbrev Fits : ℕ → ℕ → Type 0
Fits n w =
    (23 ≤ w)
    × (w ≤ 27)
    × (n ≡ 0 → w ≡ 27)
    × (w < 27 → n ≤ 2 ^ w)
    × (23 < w → 0 < n → 2 ^ (w - 1) < n)

covered : (n log w : ℕ) → Stops 0 n log → log ≤ w → w < 63 → n ≤ 2 ^ w
covered n log w h le small = elim h.covers [
  | inl c ↦ omega (arith, pow_le le)
  | inr e ↦ absurd (omega arith)
]

not_half : (n log w : ℕ) → Stops 0 n log → w ≤ log → 0 < w → 2 ^ (w - 1) < n
not_half n log w h le some = elim h.least [
  | inl e ↦ absurd (omega arith)
  | inr c ↦ let up : w - 1 ≤ log - 1 = omega arith in omega (arith, pow_le up)
]

-- The window that the decoder allows lies between 8 MiB and 128 MiB, whatever max_output is, and is
-- 128 MiB where there is none. Below 128 MiB it has room for max_output, and above 8 MiB, where there is
-- a max_output, half of it has not.
pub window_log_fits :
    (max_output : ℕ)
    → let w = window_log max_output in
      (23 ≤ w)
      × (w ≤ 27)
      × (max_output ≡ 0 → w ≡ 27)
      × (w < 27 → max_output ≤ 2 ^ w)
      × (23 < w → 0 < max_output → 2 ^ (w - 1) < max_output)
unfolding window_log
window_log_fits max_output =
    let log = ceil_log2 max_output in
    let h = ceil_log2-Stops max_output in
    if_split (Fits max_output) (max_output == 0)
      (λ z. (
        omega arith,
        omega arith,
        λ _. refl,
        λ q. absurd (omega arith),
        λ _ q. absurd (ground arith),
      ))
      (λ nz. elim (Bool-cases (ltb log 23)) [
        | inl low ↦
            let le : log ≤ 23 = ground arith in
            rw low (
              omega arith,
              omega arith,
              λ q. absurd (ground arith),
              λ _. covered max_output log 23 h le (omega arith),
              λ q. absurd (omega arith),
            )
        | inr high ↦
            let ge : 23 ≤ log = ground arith in
            rw high (
              if_split (Fits max_output) (ltb log 27)
                (λ t.
                  let lt = ltb→lt log 27 t in
                  (
                    ge,
                    omega arith,
                    λ q. absurd (ground arith),
                    λ _. covered max_output log log h (omega arith) (omega arith),
                    λ _ _. not_half max_output log log h (omega arith) (omega arith),
                  ))
                (λ f.
                  let up : 27 ≤ log = ground arith in
                  (
                    omega arith,
                    omega arith,
                    λ q. absurd (ground arith),
                    λ q. absurd (omega arith),
                    λ _ _. not_half max_output log 27 h up (omega arith),
                  )))
      ])
