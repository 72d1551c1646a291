-- ===== src/Registry/Sniffing.antt =====
-- What `zu_sniff` (src/zu_registry.c) answers, on all of its outcomes.
use zukomp.Base.{
  ℕ, ◌+◌, ◌≤◌, ◌<◌, ◌≡◌, ◌≢◌, refl, sym, true, false, Option, none, some, List, [], ◌∷◌, inl, inr,
  ◌⊎◌, ◌&&◌, ltb, subst, arith, take, drop, bytes_eq_iff, Bool-cases, Option-cases, word,
}
use zukomp.Types.{ok, err_unsupported, Vtable, codec_none}
use zukomp.Size.Exact.{add_exact}
use zukomp.Registry.{Registry}
use zukomp.Registry.Detect.{magic_matches, has_magic, longest, accepts, first_sniffer, sniff}
use zukomp.Registry.Distinct.{IsProper, IsValid}
use zukomp.Registry.Resolve.{In, All-at}

module _ {S : Type 0} (buf : List ℕ) (n : ℕ) where
  -- The bytes hold the whole of the entry's magic at its offset.
  pub record Carries (v : Vtable S) : Type 0 where
    pub magic : List ℕ
    pub advertised : v.magic ≡ some magic
    pub nonempty : 0 < v.magic_len
    pub within : v.magic_offset + v.magic_len ≤ n
    pub equal : take v.magic_len (drop v.magic_offset buf) ≡ take v.magic_len magic

  has_magic-Carries :
      (v : Vtable S)
      → v.magic_len < word
      → v.magic_offset < word
      → has_magic buf n v ≡ true
      → Carries v
  unfolding has_magic magic_matches
  has_magic-Carries v hl ho h = elim (Option-cases v.magic) [
    | inl e ↦ ground arith
    | inr (m, e) ↦ record {
      magic = m;
      advertised = e;
      nonempty = ground arith;
      within = ground (arith, add_exact v.magic_offset v.magic_len);
      equal = ground (
        arith,
        add_exact v.magic_offset v.magic_len,
        bytes_eq_iff (take v.magic_len (drop v.magic_offset buf)) (take v.magic_len m),
      );
    }
  ]

  Carries-has_magic : (v : Vtable S) → n < word → Carries v → has_magic buf n v ≡ true
  unfolding has_magic magic_matches
  Carries-has_magic v hn c = ground (
    arith,
    add_exact v.magic_offset v.magic_len,
    bytes_eq_iff (take v.magic_len (drop v.magic_offset buf)) (take v.magic_len c.magic),
  )

  abbrev Picks : List (Vtable S) → ℕ → ℕ → Type 0
  Picks vs best c =
      (v : Vtable S) × In v vs
      × (c ≡ v.codec)
      × (has_magic buf n v ≡ true)
      × (best < v.magic_len)
      × ((w : Vtable S) → In w vs → has_magic buf n w ≡ true → w.magic_len ≤ v.magic_len)

  abbrev Keeps : List (Vtable S) → ℕ → ℕ → ℕ → Type 0
  Keeps vs best out c =
      (c ≡ out) × ((w : Vtable S) → In w vs → has_magic buf n w ≡ true → w.magic_len ≤ best)

  below_head :
      (x : Vtable S) (vs : List (Vtable S)) (k : ℕ)
      → (has_magic buf n x ≡ true → x.magic_len ≤ k)
      → ((w : Vtable S) → In w vs → has_magic buf n w ≡ true → w.magic_len ≤ k)
      → (w : Vtable S) → In w (x ∷ vs)
      → has_magic buf n w ≡ true
      → w.magic_len ≤ k
  below_head x vs k hx hvs w (inl e) h =
      subst (λ (y : Vtable S). has_magic buf n y ≡ true → y.magic_len ≤ k) (sym e) hx h
  below_head x vs k hx hvs w (inr m) h = hvs w m h

  longer_head :
      (x : Vtable S) (vs : List (Vtable S)) (best c : ℕ)
      → has_magic buf n x ≡ true
      → best < x.magic_len
      → Keeps vs x.magic_len x.codec c ⊎ Picks vs x.magic_len c
      → Picks (x ∷ vs) best c
  longer_head x vs best c hx lt (inl (e, k)) =
      (x, inl refl, e, hx, lt, below_head x vs x.magic_len (λ _. omega arith) k)
  longer_head x vs best c hx lt (inr (v, m, e, hv, lt', k)) =
      (v, inr m, e, hv, omega arith, below_head x vs v.magic_len (λ _. omega arith) k)

  same_head :
      (x : Vtable S) (vs : List (Vtable S)) (best out c : ℕ)
      → (has_magic buf n x ≡ true → x.magic_len ≤ best)
      → Keeps vs best out c ⊎ Picks vs best c
      → Keeps (x ∷ vs) best out c ⊎ Picks (x ∷ vs) best c
  same_head x vs best out c hx (inl (e, k)) = inl (e, below_head x vs best hx k)
  same_head x vs best out c hx (inr (v, m, e, hv, lt, k)) = inr (
    v,
    inr m,
    e,
    hv,
    lt,
    below_head x vs v.magic_len (λ h. let low : x.magic_len ≤ best = hx h in omega arith) k,
  )

  longest_lem :
      (vs : List (Vtable S)) (best out : ℕ)
      → Keeps vs best out (longest buf n vs best out) ⊎ Picks vs best (longest buf n vs best out)
  unfolding longest
  longest_lem [] best out = inl (refl, λ w m. absurd m)
  longest_lem (x ∷ vs) best out = elim (Bool-cases (has_magic buf n x && ltb best x.magic_len)) [
    | inl longer ↦ rw longer (
        inr (
          longer_head x vs best _ (ground arith) (ground arith)
            (longest_lem vs x.magic_len x.codec)))
    | inr not_longer ↦
        rw not_longer (same_head x vs best out _ (λ h. ground arith) (longest_lem vs best out))
  ]

  abbrev Accepts : List (Vtable S) → Option ℕ → Type 0
  Accepts vs none = (w : Vtable S) → In w vs → accepts buf n w ≡ false
  Accepts vs (some c) = (v : Vtable S) × In v vs × (c ≡ v.codec) × (accepts buf n v ≡ true)

  rejects_head :
      (x : Vtable S) (vs : List (Vtable S))
      → accepts buf n x ≡ false
      → ((w : Vtable S) → In w vs → accepts buf n w ≡ false)
      → (w : Vtable S) → In w (x ∷ vs)
      → accepts buf n w ≡ false
  rejects_head x vs hx k w (inl e) = rw e hx
  rejects_head x vs hx k w (inr m) = k w m

  accepts_head :
      (x : Vtable S) (vs : List (Vtable S)) (o : Option ℕ)
      → accepts buf n x ≡ false
      → Accepts vs o
      → Accepts (x ∷ vs) o
  accepts_head x vs none hx k = rejects_head x vs hx k
  accepts_head x vs (some c) hx (v, m, e, h) = (v, inr m, e, h)

  first_sniffer_lem : (vs : List (Vtable S)) → Accepts vs (first_sniffer buf n vs)
  unfolding first_sniffer
  first_sniffer_lem [] = λ w m. absurd m
  first_sniffer_lem (x ∷ vs) = elim (Bool-cases (accepts buf n x)) [
    | inl hit ↦ rw hit (x, inl refl, refl, hit)
    | inr miss ↦ rw miss (accepts_head x vs (first_sniffer buf n vs) miss (first_sniffer_lem vs))
  ]

-- The two `size_t` fields.
pub record Fits {S : Type 0} (v : Vtable S) : Type 0 where
  pub len : v.magic_len < word
  pub offset : v.magic_offset < word

module _ {S : Type 0} (r : Registry S) (buf : List ℕ) (n : ℕ) where
  -- Identified by magic: by the longest that the bytes carry.
  abbrev pub ByMagic : Type 0
  ByMagic =
      (v : Vtable S) × In v r.entries
      × (sniff r (some buf) n ≡ (ok, v.codec))
      × Carries buf n v
      × ((w : Vtable S) → In w r.entries → Carries buf n w → w.magic_len ≤ v.magic_len)

  -- Identified by a predicate.
  abbrev pub ByPredicate : Type 0
  ByPredicate =
      (v : Vtable S) × In v r.entries
      × (sniff r (some buf) n ≡ (ok, v.codec))
      × (accepts buf n v ≡ true)

  -- Not identified, since no predicate accepts.
  abbrev pub Unidentified : Type 0
  Unidentified =
      ((w : Vtable S) → In w r.entries → accepts buf n w ≡ false)
      × (sniff r (some buf) n ≡ (err_unsupported, codec_none))

  without_magic : longest buf n r.entries 0 codec_none ≡ codec_none → ByPredicate ⊎ Unidentified
  unfolding sniff
  without_magic e = go (first_sniffer buf n r.entries) refl (first_sniffer_lem buf n r.entries)
    where
      go :
          (o : Option ℕ)
          → first_sniffer buf n r.entries ≡ o
          → Accepts buf n r.entries o
          → ByPredicate ⊎ Unidentified
      go none f k = inr (k, ground arith)
      go (some c) f (v, m, e', h) = inl (v, m, ground arith, h)

  -- In a valid registry, for any bytes: the codec answered is one whose whole magic the bytes carry,
  -- and none that they carry is longer; or they carry no registered magic, and then it is one whose
  -- predicate accepts them; or no predicate accepts them either, and the answer is
  -- ZU_ERR_UNSUPPORTED. So a codec with neither magic nor predicate is never answered.
  pub sniff_outcome :
      IsValid r
      → ((v : Vtable S) → In v r.entries → Fits v)
      → n < word
      → ByMagic
        ⊎ ((w : Vtable S) → In w r.entries → ¬ Carries buf n w) × (ByPredicate ⊎ Unidentified)
  unfolding sniff
  sniff_outcome h fits hn = elim (longest_lem buf n r.entries 0 codec_none) [
    | inl (e, k) ↦ inr (
      λ w m c.
          let low : w.magic_len ≤ 0 = k w m (Carries-has_magic buf n w hn c) in
          omega (arith, c.nonempty),
      without_magic e,
    )
    | inr (v, m, e, hv, lt, k) ↦
        let named : v.codec ≢ codec_none = (All-at IsProper v r.entries h.proper m).has_codec in
        inl (
          v,
          m,
          ground arith,
          has_magic-Carries buf n v (fits v m).len (fits v m).offset hv,
          λ w m' c. k w m' (Carries-has_magic buf n w hn c),
        )
  ]
