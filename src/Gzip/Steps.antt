-- ===== src/Gzip/Steps.antt =====
-- The parser of src/zu_gzip.c over one field of the header at a time.
use zukomp.Base.{
  ℕ, ◌+◌, ◌*◌, ◌/◌, ◌%◌, ◌^◌, ◌≤◌, ◌<◌, ◌≡◌, refl, true, false, List, [], ◌∷◌, ◌++◌, if◌then◌else◌,
  length, arith, ltb, ◌==◌, set,
}
use zukomp.Gzip.{
  Header, extra_len, extra, name, comment, hcrc, done, header_init, header_feed, max_field, is_done,
  after_fixed, after_xlen, after_extra, after_name, after_comment,
}
use zukomp.Gzip.Grammar.{Parsed, complete, feed_all, crc_over, NoNul}

module _ (crc32 : ℕ → List ℕ → ℕ) where
  pub crc_over-append :
      (c : ℕ) (xs ys : List ℕ)
      → crc_over crc32 c (xs ++ ys) ≡ crc_over crc32 (crc_over crc32 c xs) ys
  unfolding crc_over
  crc_over-append c [] ys = refl
  crc_over-append c (x ∷ xs) ys = crc_over-append (crc32 c (x ∷ [])) xs ys

  pub crc_over-text :
      (c : ℕ) (xs ys : List ℕ)
      → crc_over crc32 c (xs ++ (0 ∷ ys)) ≡ crc_over crc32 (crc_over crc32 c (xs ++ (0 ∷ []))) ys
  unfolding crc_over
  crc_over-text c [] ys = refl
  crc_over-text c (x ∷ xs) ys = crc_over-text (crc32 c (x ∷ [])) xs ys

  -- What the run makes of the bytes after a byte that the parser took.
  unfoldable pub resume : Header → List ℕ → Parsed
  resume h rest = if is_done h.state then complete h rest else feed_all crc32 h rest

  pub feed_name :
      (h : Header) (xs rest : List ℕ) (k : ℕ)
      → NoNul xs
      → k + length xs ≤ max_field
      → feed_all crc32 (record h { state = name; field_len = k }) (xs ++ (0 ∷ rest))
        ≡ resume
            (record h {
              state = after_name h.flg;
              field_len = 0;
              crc = crc_over crc32 h.crc (xs ++ (0 ∷ []));
            })
            rest
  unfolding feed_all header_feed resume crc_over
  feed_name h [] rest k n le = refl
  feed_name h (x ∷ xs) rest k n le =
      let nonzero : (x == 0) ≡ false = ground (arith, n.0) in
      let short : ltb max_field (k + 1) ≡ false = ground arith in
      rw (nonzero, short)
        (feed_name (record h { crc = crc32 h.crc (x ∷ []) }) xs rest (k + 1) n.1 (omega arith))

  pub feed_comment :
      (h : Header) (xs rest : List ℕ) (k : ℕ)
      → NoNul xs
      → k + length xs ≤ max_field
      → feed_all crc32 (record h { state = comment; field_len = k }) (xs ++ (0 ∷ rest))
        ≡ resume
            (record h {
              state = after_comment h.flg;
              field_len = 0;
              crc = crc_over crc32 h.crc (xs ++ (0 ∷ []));
            })
            rest
  unfolding feed_all header_feed resume crc_over
  feed_comment h [] rest k n le = refl
  feed_comment h (x ∷ xs) rest k n le =
      let nonzero : (x == 0) ≡ false = ground (arith, n.0) in
      let short : ltb max_field (k + 1) ≡ false = ground arith in
      rw (nonzero, short)
        (feed_comment (record h { crc = crc32 h.crc (x ∷ []) }) xs rest (k + 1) n.1 (omega arith))

  -- The extra field, `k` of whose `n` bytes are behind.
  pub feed_extra_lem :
      (h : Header) (x : ℕ) (xs rest : List ℕ) (k n : ℕ)
      → n ≡ k + length (x ∷ xs)
      → feed_all crc32 (record h { state = extra; xpos = k; xlen = n }) (x ∷ (xs ++ rest))
        ≡ resume
            (record h {
              state = after_extra h.flg;
              xpos = n;
              xlen = n;
              crc = crc_over crc32 h.crc (x ∷ xs);
            })
            rest
  unfolding feed_all header_feed resume crc_over
  feed_extra_lem h x [] rest k n e =
      let last : ltb (k + 1) n ≡ false = ground arith in
      let all : k + 1 ≡ n = omega arith in rw (last, all) refl
  feed_extra_lem h x (y ∷ ys) rest k n e =
      let more_left : ltb (k + 1) n ≡ true = ground arith in
      rw more_left
        (feed_extra_lem (record h { crc = crc32 h.crc (x ∷ []) }) y ys rest (k + 1) n (omega arith))

  -- XLEN, the two bytes of `n`.
  pub feed_xlen :
      (h : Header) (n : ℕ) (rest : List ℕ)
      → n < 65536
      → feed_all crc32
          (record h { state = extra_len; xlen = 0; xlen_pos = 0 })
          ((n % 256) ∷ (n / 256) ∷ rest)
        ≡ resume
            (record h {
              state = after_xlen n h.flg;
              xlen = n;
              xlen_pos = 2;
              crc = crc_over crc32 h.crc ((n % 256) ∷ (n / 256) ∷ []);
            })
            rest
  unfolding feed_all header_feed resume crc_over
  feed_xlen h n rest lt =
      let low : (0 + n % 256 * 2 ^ (8 * 0)) % 2 ^ 16 ≡ n % 256 = omega arith in
      let whole : (n % 256 + n / 256 * 2 ^ (8 * 1)) % 2 ^ 16 ≡ n = omega arith in
      rw (low, whole) refl

  -- The header checksum.
  pub feed_check :
      (h : Header) (rest : List ℕ)
      → (g : Header) × (feed_all crc32
            (record h { state = hcrc; hcrc_pos = 0 })
            ((h.crc % 256) ∷ (h.crc / 256 % 256) ∷ rest)
          ≡ complete g rest)
        × (g.flg ≡ h.flg)
  unfolding feed_all header_feed
  feed_check h rest =
      let good : (h.crc % 256 + 256 * (h.crc / 256 % 256) == h.crc % 2 ^ 16) ≡ true =
        ground arith in
      (
        record h { state = done; hcrc0 = h.crc % 256; hcrc1 = h.crc / 256 % 256; hcrc_pos = 2 },
        rw good refl,
        refl,
      )

  -- The parser inside the fixed part.
  abbrev pub at_fixed : List ℕ → ℕ → ℕ → ℕ → Header
  at_fixed bytes pos g c = record (header_init crc32) {
    bytes = bytes;
    fixed_pos = pos;
    flg = g;
    crc = c;
  }

  pub feed_start :
      (g : ℕ) (rest : List ℕ)
      → g < 32
      → (bytes : List ℕ) × (feed_all crc32 (header_init crc32) (0x1f ∷ 0x8b ∷ 8 ∷ g ∷ rest)
          ≡ feed_all crc32
              (at_fixed bytes 4 g (crc_over crc32 (crc32 0 []) (0x1f ∷ 0x8b ∷ 8 ∷ g ∷ [])))
              rest)
  unfolding feed_all header_feed header_init crc_over
  feed_start g rest h =
      let e : (g / 32 % 8 == 0) ≡ true = ground arith in
      (0x1f ∷ 0x8b ∷ 8 ∷ g ∷ 0 ∷ 0 ∷ 0 ∷ 0 ∷ 0 ∷ 0 ∷ [], rw e refl)

  -- MTIME and XFL.
  pub feed_middle :
      (bytes : List ℕ) (pos g c b : ℕ) (rest : List ℕ)
      → 4 ≤ pos
      → pos < 9
      → feed_all crc32 (at_fixed bytes pos g c) (b ∷ rest)
        ≡ feed_all crc32 (at_fixed (set bytes pos b) (pos + 1) g (crc32 c (b ∷ []))) rest
  unfolding feed_all header_feed header_init
  feed_middle bytes pos g c b rest lo hi =
      let e1 : (pos + 1 == 1) ≡ false = ground arith in
      let e2 : (pos + 1 == 2) ≡ false = ground arith in
      let e3 : (pos + 1 == 3) ≡ false = ground arith in
      let e4 : (pos + 1 == 4) ≡ false = ground arith in
      let e5 : ltb (pos + 1) 10 ≡ true = ground arith in rw (e1, e2, e3, e4, e5) refl

  pub feed_last :
      (bytes : List ℕ) (g c b : ℕ) (rest : List ℕ)
      → feed_all crc32 (at_fixed bytes 9 g c) (b ∷ rest)
        ≡ resume
            (record (at_fixed (set bytes 9 b) 10 g (crc32 c (b ∷ []))) { state = after_fixed g })
            rest
  unfolding feed_all header_feed header_init resume
  feed_last bytes g c b rest = refl
