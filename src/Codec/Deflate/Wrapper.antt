-- ===== src/Codec/Deflate/Wrapper.antt =====
-- src/codec_deflate.c: the zlib header and the checksum trailers, written and read back.
use zukomp.Base.{
  Bool-cases, ==_iff, ℕ, ◌+◌, ◌*◌, ◌/◌, ◌%◌, ◌^◌, ◌<◌, ◌≡◌, refl, sym, ap, ◌∙◌, true, false, not,
  List, ◌++◌, write_front, inl, inr, ◌⊎◌, ◌==◌, if◌then◌else◌, if_elim, length, write, arith,
}
use zukomp.Base.Int.{ℤ, ltb_ℤ, eq_ℤ, pos}
use zukomp.Types.{ok, err_checksum}
use zukomp.Codec.Deflate.{
  Wrap, raw, zlib, gzip, flevel, check_bytes, high_first, low_first, zlib_header, zlib_check_header,
  zlib_sniff, trailer_bytes, check_trailer, high_first, low_first,
}
use zukomp.Codec.Deflate.{is_raw}

flevel-cases :
    (level : ℤ) → (flevel level ≡ 0) ⊎ (flevel level ≡ 1) ⊎ (flevel level ≡ 2) ⊎ (flevel level ≡ 3)
unfolding flevel
flevel-cases level =
    let P : ℕ → Type 0 = λ f. (f ≡ 0) ⊎ (f ≡ 1) ⊎ (f ≡ 2) ⊎ (f ≡ 3) in
    if_elim P (not (ltb_ℤ (pos 1) level)) (inl refl) (
      if_elim P (not (ltb_ℤ (pos 5) level)) (inr (inl refl))
        (if_elim P (eq_ℤ level (pos 6)) (inr (inr (inl refl))) (inr (inr (inr refl)))))

-- At every level, the header that the encoder writes passes the decoder's test and is recognised as
-- zlib, whatever bytes follow it.
pub zlib_header_accepted :
    (level : ℤ) (rest : List ℕ)
    → (zlib_check_header (zlib_header level ++ rest) ≡ ok)
      × (zlib_sniff (zlib_header level ++ rest) ≡ true)
unfolding zlib_check_header zlib_header zlib_sniff check_bytes
zlib_header_accepted level rest = elim (flevel-cases level) [
  | inl e ↦ (rw e refl, rw e (ground arith))
  | inr (inl e) ↦ (rw e refl, rw e (ground arith))
  | inr (inr (inl e)) ↦ (rw e refl, rw e (ground arith))
  | inr (inr (inr e)) ↦ (rw e refl, rw e (ground arith))
]

bytes_back :
    (c : ℕ)
    → c < 2 ^ 32
    → c / 1 % 256 + c / 2 ^ 8 % 256 * 2 ^ 8 + c / 2 ^ 16 % 256 * 2 ^ 16 + c / 2 ^ 24 % 256 * 2 ^ 24
      ≡ c
bytes_back c h = omega arith

-- What is written is what is read back.
high_first-write :
    (tail : List ℕ) (c n : ℕ)
    → length tail ≡ 8
    → high_first (write tail 0 (trailer_bytes zlib c n)) ≡ c % 2 ^ 32
unfolding trailer_bytes
high_first-write tail c n h =
    ap high_first (write_front tail (trailer_bytes zlib c n) (omega arith))
    ∙ omega (arith, bytes_back (c % 2 ^ 32) (omega arith))

low_first-write :
    (tail : List ℕ) (c n : ℕ)
    → length tail ≡ 8
    → (low_first (write tail 0 (trailer_bytes gzip c n)) 0 ≡ c % 2 ^ 32)
      × (low_first (write tail 0 (trailer_bytes gzip c n)) 4 ≡ n % 2 ^ 32)
unfolding trailer_bytes
low_first-write tail c n h =
    let e = write_front tail (trailer_bytes gzip c n) (omega arith) in
    (
      ap (λ (t : List ℕ). low_first t 0) e ∙ omega (arith, bytes_back (c % 2 ^ 32) (omega arith)),
      ap (λ (t : List ℕ). low_first t 4) e ∙ omega (arith, bytes_back (n % 2 ^ 32) (omega arith)),
    )

-- One sum read and tested, and two.
one_tested :
    (a c x : ℕ)
    → a ≡ c
    → let st = if not (a == x) then err_checksum else ok in
      (st ≡ ok) × (c ≡ x) ⊎ (st ≡ err_checksum) × (c ≡ x → ⊥)
one_tested a c x e = elim (Bool-cases (a == x)) [
  | inl t ↦ inl (rw t refl, sym e ∙ (==_iff a x).0 t)
  | inr f ↦ inr (rw f refl, λ q. ground arith)
]

two_tested :
    (a b c n x y : ℕ)
    → a ≡ c
    → b ≡ n
    → let st = if not (a == x) then err_checksum else if not (b == y) then err_checksum else ok in
      (st ≡ ok) × ((c ≡ x) × (n ≡ y)) ⊎ (st ≡ err_checksum) × ((c ≡ x) × (n ≡ y) → ⊥)
two_tested a b c n x y e f = elim (Bool-cases (a == x)) [
  | inl t ↦ elim (Bool-cases (b == y)) [
    | inl u ↦ inl (rw (t, u) refl, (sym e ∙ (==_iff a x).0 t, sym f ∙ (==_iff b y).0 u))
    | inr u ↦ inr (rw (t, u) refl, λ q. ground arith)
  ]
  | inr t ↦ inr (rw t refl, λ q. ground arith)
]

-- The sums that a trailer carries are those of the other stream.
pub Same : Wrap → ℕ → ℕ → ℕ → ℕ → Type 0
Same gzip c n c' n' = (c % 2 ^ 32 ≡ c' % 2 ^ 32) × (n % 2 ^ 32 ≡ n' % 2 ^ 32)
Same _ c n c' n' = c % 2 ^ 32 ≡ c' % 2 ^ 32

-- The trailer that an encoder leaves in `tail` after the checksum `c` and `n` bytes, tested by a decoder
-- that came to `c'` and `n'`: accepted where the 32 bits of the sums that it carries agree, and
-- otherwise a checksum error.
pub trailer_accepted :
    (w : Wrap) (tail : List ℕ) (c n c' n' : ℕ)
    → is_raw w ≡ false
    → length tail ≡ 8
    → let st = check_trailer w (write tail 0 (trailer_bytes w c n)) c' n' in
      (st ≡ ok) × Same w c n c' n' ⊎ (st ≡ err_checksum) × (Same w c n c' n' → ⊥)
unfolding check_trailer trailer_bytes is_raw Same
trailer_accepted raw tail c n c' n' r h = absurd (ground arith)
trailer_accepted zlib tail c n c' n' r h =
    let t = write tail 0 (trailer_bytes zlib c n) in
    one_tested (high_first t) (c % 2 ^ 32) (c' % 2 ^ 32) (high_first-write tail c n h)
trailer_accepted gzip tail c n c' n' r h =
    let t = write tail 0 (trailer_bytes gzip c n) in
    let e = low_first-write tail c n h in
    two_tested (low_first t 0) (low_first t 4) (c % 2 ^ 32) (n % 2 ^ 32) (c' % 2 ^ 32) (n' % 2 ^ 32)
      e.0 e.1
