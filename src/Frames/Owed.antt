-- ===== src/Frames/Owed.antt =====
-- The byte that `zu_int_frames_stalled` took from the library: what `zu_int_frames_pay` does with it
-- (src/zu_frames.c).
use zukomp.Base.{
  ◌≤◌, sym, ap, subst, ℕ, ◌<◌, ◌≡◌, refl, true, false, some, [], ◌∷◌, ◌++◌, arith, ◌==◌, length,
}
use zukomp.Buffer.{Buffer, IsValid, Advances, emit-Advances, written, written-emit, avail_out}
use zukomp.Frames.{Frames, frames_pay}

-- What is left to do after a byte was taken.
pub record Owes (f : Frames) (x : ℕ) : Type 0 where
  pub kept : (b : Buffer) → b.dst_pos ≡ b.dst_size → frames_pay f b ≡ (false, f, b)
  pub delivered :
      (b : Buffer)
      → IsValid b
      → b.dst_pos < b.dst_size
      → let (goes_on, f', b') = frames_pay f b in
        (goes_on ≡ true)
        × (written b' ≡ written b ++ (x ∷ []))
        × Advances b b'
        × (frames_pay f' b' ≡ (true, f', b'))

owes : (f : Frames) (x : ℕ) → Owes (record f { owed = some x }) x
unfolding frames_pay
owes f x = record {
  kept = λ b e. let full : (b.dst_pos == b.dst_size) ≡ true = ground (arith, e) in rw full refl;
  delivered = λ b v lt.
      let room : (b.dst_pos == b.dst_size) ≡ false = ground (arith, lt) in
      let fits : length (x ∷ []) ≤ avail_out b = omega arith in
      rw room (refl, written-emit b (x ∷ []) v fits, emit-Advances b (x ∷ []) v fits, refl);
}

pub owing : (f : Frames) (x : ℕ) → f.owed ≡ some x → Owes f x
owing f x e = subst (λ (g : Frames). Owes g x) (sym (ap (λ o. record f { owed = o }) e)) (owes f x)
