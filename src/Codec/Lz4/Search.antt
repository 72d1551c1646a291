-- ===== src/Codec/Lz4/Search.antt =====
-- src/codec_lz4.c: the decoder's search for the size of a block.
use zukomp.Base.{
  ℕ, zero, suc, ◌*◌, ◌/◌, ◌≤◌, ◌<◌, ◌≡◌, ◌⊎◌, inl, inr, refl, sym, ap, ◌∙◌, subst, false, not,
  Option, none, some, List, take, length, ltb, leb, ◌==◌, if◌then◌else◌, if_elim, if_split, arith,
  Falls, loop_counted, Outcome,
}
use zukomp.Buffer.{bytes}
use zukomp.Types.{Status, ok, err_memory, err_invalid_data, err_output_limit, is, code}
use zukomp.Size.{add, mul}
use zukomp.Whole.Reserve.{Reallocates}
use zukomp.Codec.Lz4.{
  Liblz4, Lz4, int_max, fitting, padded, format_ceiling, is_limited, search_ceiling, first_cap,
  next_cap, target, written, Answer, stage, restaged, refused, tried, attempt, search_round, search,
}

-- What liblz4 says: no more than the capacity is decoded, and nothing is written outside the block.
pub record Decodes (lib : Liblz4) : Type 0 where
  pub fits : (src dst : List ℕ) (cap m : ℕ) → (lib.decompress_safe src dst cap).0 ≡ some m → m ≤ cap
  pub inside :
      (src dst : List ℕ) (cap : ℕ) → length (lib.decompress_safe src dst cap).1 ≡ length dst
  pub inside_partial :
      (src dst : List ℕ) (cap goal : ℕ)
      → length (lib.decompress_safe_partial src dst cap goal).1 ≡ length dst

-- The staging buffer's capacity is that of its block.
abbrev pub IsStaged : Lz4 → Type 0
IsStaged s = length (bytes s.stage) ≡ s.stage_cap

-- No more than an `int` holds, and than `max_output` where that is set.
abbrev pub Bounded : Lz4 → ℕ → Type 0
Bounded s n = (n ≤ int_max) × (0 < s.max_output → n ≤ s.max_output)

-- What the search leaves: a size that lies in the staging buffer, or an error; the output limit only where
-- there is one; and a staging buffer that has not grown past the bounds.
pub record Searched (s : Lz4) (x : Answer) : Type 0 where
  pub answer :
      (x.0 ≡ ok) × ((m : ℕ) × (x.1 ≡ some m) × (m ≤ x.2.stage_cap) × Bounded s m)
      ⊎ (is x.0 ok ≡ false) × (x.1 ≡ none)
  pub limit : x.0 ≡ err_output_limit → 0 < s.max_output
  pub staged : IsStaged x.2
  pub memory : x.2.stage_cap ≤ s.stage_cap ⊎ Bounded s x.2.stage_cap

fourfold : ℕ → ℕ → ℕ
fourfold zero cap = cap
fourfold (suc k) cap = fourfold k (cap * 4)

fourfold_grows : (k cap : ℕ) → cap ≤ fourfold k cap
unfolding fourfold
fourfold_grows zero cap = omega arith
fourfold_grows (suc k) cap = omega (arith, fourfold_grows k (cap * 4))

written_cap : (s : Lz4) (cap : ℕ) (d : List ℕ) → (written s cap d).stage_cap ≡ s.stage_cap
written_cap s cap d = if_elim (λ (t : Lz4). t.stage_cap ≡ s.stage_cap) (cap == 0) refl refl

written-IsStaged :
    (s : Lz4) (cap : ℕ) (d : List ℕ)
    → IsStaged s
    → length d ≡ length (target s cap)
    → IsStaged (written s cap d)
written-IsStaged s cap d v e = ground arith

format_fits : (n : ℕ) → format_ceiling n ≤ int_max
unfolding format_ceiling padded fitting add mul
format_fits n = ground arith

-- What is within the search's ceiling is within the bounds.
ceiling-Bounded : (s : Lz4) (n : ℕ) → n ≤ search_ceiling s → Bounded s n
ceiling-Bounded s n le = ground (arith, format_fits s.in_len)

module _ (lib : Liblz4) (decodes : Decodes lib) (realloc : Option (List ℕ) → ℕ → Option (List ℕ))
    (reallocates : Reallocates realloc) (s : Lz4) where
  -- Before a round: at most `k` more can follow it.
  record Sought (k : ℕ) (x : Lz4 × ℕ) : Type 0 where
    staged : IsStaged x.0
    cap_in : x.1 ≤ search_ceiling s
    near : search_ceiling s ≤ fourfold k x.1
    memory : x.0.stage_cap ≤ s.stage_cap ⊎ x.0.stage_cap ≤ search_ceiling s

  -- Once the staging buffer holds the capacity.
  record Roomy (k cap : ℕ) (t : Lz4) : Type 0 where
    sought : Sought k (t, cap)
    room : cap ≤ t.stage_cap

  abbrev Goes : ℕ → Outcome (Lz4 × ℕ) Answer → Type 0
  Goes k o = Falls Sought (Searched s) k o

  remembered : (n : ℕ) → n ≤ s.stage_cap ⊎ n ≤ search_ceiling s → n ≤ s.stage_cap ⊎ Bounded s n
  remembered n (inl le) = inl le
  remembered n (inr le) = inr (ceiling-Bounded s n le)

  failed :
      (st : Status) (t : Lz4) (k cap : ℕ)
      → Sought k (t, cap)
      → is st ok ≡ false
      → (st ≡ err_output_limit → 0 < s.max_output)
      → Searched s (st, none, t)
  failed st t k cap g bad lim = record {
    answer = inr (bad, refl);
    limit = lim;
    staged = g.staged;
    memory = remembered t.stage_cap g.memory;
  }

  next-Sought :
      (k cap : ℕ) (t : Lz4)
      → Sought k (t, cap)
      → cap < search_ceiling s
      → (j : ℕ) × (k ≡ suc j) × Sought j (t, next_cap (search_ceiling s) cap)
  unfolding fourfold
  next-Sought zero cap t g lt = let near = g.near in absurd (omega arith)
  next-Sought (suc j) cap t g lt = (
    j,
    refl,
    record {
      staged = g.staged;
      cap_in = ground arith;
      near =
          if_split (λ c. search_ceiling s ≤ fourfold j c) (ltb (search_ceiling s / 4) cap)
            (λ _. fourfold_grows j (search_ceiling s))
            (λ _.
              let fits = (ceiling-Bounded s (search_ceiling s) (omega arith)).0 in
              subst (λ c. search_ceiling s ≤ fourfold j c) (omega arith) g.near);
      memory = g.memory;
    },
  )

  rewritten :
      (k cap : ℕ) (t : Lz4) (d : List ℕ)
      → Roomy k cap t
      → length d ≡ length (target t cap)
      → Roomy k cap (written t cap d)
  rewritten k cap t d g e = record {
    sought = record {
      staged = written-IsStaged t cap d g.sought.staged e;
      cap_in = g.sought.cap_in;
      near = g.sought.near;
      memory =
          subst (λ c. c ≤ s.stage_cap ⊎ c ≤ search_ceiling s) (sym (written_cap t cap d))
            g.sought.memory;
    };
    room = omega (arith, written_cap t cap d, g.room);
  }

  refused-Goes :
      (k cap : ℕ) (p : Option ℕ) (t : Lz4)
      → Roomy k cap t
      → Goes k (refused lib realloc (is_limited s) (search_ceiling s) cap (p, t))
  unfolding refused
  refused-Goes k cap none t g =
      failed err_invalid_data t k cap g.sought refl (λ e. absurd (ground arith))
  refused-Goes k cap (some p) t g =
      if_elim (Goes k) (ltb p cap)
        (failed err_invalid_data t k cap g.sought refl (λ e. absurd (ground arith)))
        (if_split (Goes k) (leb (search_ceiling s) cap)
          (λ _.
            failed (if is_limited s then err_output_limit else err_invalid_data) t k cap g.sought
              (ground arith) (λ e. ground arith))
          (λ f. next-Sought k cap t g.sought (ground arith)))

  tried-Goes :
      (k cap : ℕ) (r : Option ℕ) (t : Lz4)
      → Roomy k cap t
      → ((m : ℕ) → r ≡ some m → m ≤ cap)
      → Goes k (tried lib realloc (is_limited s) (search_ceiling s) cap (r, t))
  unfolding tried
  tried-Goes k cap (some r) t g fits =
      let le = fits r refl in
      record {
        answer = inl (
          refl,
          (r, refl, omega (arith, g.room), ceiling-Bounded s r (omega (arith, g.sought.cap_in))),
        );
        limit = λ e. absurd (ground arith);
        staged = g.sought.staged;
        memory = remembered t.stage_cap g.sought.memory;
      }
  tried-Goes k cap none t g fits =
      let x = lib.decompress_safe_partial (take t.in_len (bytes t.input)) (target t cap) cap cap in
      refused-Goes k cap x.0 (written t cap x.1) (
        rewritten k cap t x.1 g
          (decodes.inside_partial (take t.in_len (bytes t.input)) (target t cap) cap cap))

  abbrev Made : ℕ → ℕ → Status × Lz4 → Type 0
  Made k cap x = (x.0 ≡ ok) × Roomy k cap x.1 ⊎ (x.0 ≡ err_memory) × Sought k (x.1, cap)

  restaged-Made :
      (k cap : ℕ) (t : Lz4) (q : Option (List ℕ))
      → Sought k (t, cap)
      → ((p : List ℕ) → q ≡ some p → length p ≡ cap)
      → Made k cap (restaged realloc t cap q)
  unfolding restaged
  restaged-Made k cap t none g sized = inr (refl, g)
  restaged-Made k cap t (some p) g sized = inl (
    refl,
    record {
      sought = record {
        staged = sized p refl;
        cap_in = g.cap_in;
        near = g.near;
        memory = inr g.cap_in;
      };
      room = omega arith;
    },
  )

  -- The staging buffer is made to hold the capacity, or there is no memory.
  stage-Made : (k cap : ℕ) (t : Lz4) → Sought k (t, cap) → Made k cap (stage realloc t cap)
  unfolding stage
  stage-Made k cap t g =
      if_split (Made k cap) (ltb t.stage_cap cap)
        (λ more.
          let n = if cap == 0 then 1 else cap in
          let whole : n ≡ cap = ground arith in
          restaged-Made k cap t (realloc t.stage n) g
            (λ p e. reallocates.sized t.stage n p e ∙ whole))
        (λ fits. inl (refl, record { sought = g; room = ground arith }))

  attempt-Goes :
      (k cap : ℕ) (x : Status × Lz4)
      → Made k cap x
      → Goes k (attempt lib realloc (is_limited s) (search_ceiling s) cap x)
  unfolding attempt
  attempt-Goes k cap (st, t) (inl (good, g)) =
      let x = lib.decompress_safe (take t.in_len (bytes t.input)) (target t cap) cap in
      if_split (Goes k) (not (is st ok))
        (λ bad. let fine = ap (λ (c : Status). is c ok) good in absurd (ground arith))
        (λ _.
          tried-Goes k cap x.0 (written t cap x.1)
            (rewritten k cap t x.1 g
              (decodes.inside (take t.in_len (bytes t.input)) (target t cap) cap))
            (λ m e. decodes.fits (take t.in_len (bytes t.input)) (target t cap) cap m e))
  attempt-Goes k cap (st, t) (inr (bad, g)) =
      let fails = ap (λ (c : Status). is c ok) bad in
      if_split (Goes k) (not (is st ok))
        (λ _.
          failed st t k cap g fails
            (λ e. let c : 10 ≡ 11 = sym (ap code bad) ∙ ap code e in absurd (omega arith)))
        (λ fine. absurd (ground arith))

  round-Goes :
      (k : ℕ) (x : Lz4 × ℕ)
      → Sought k x
      → Goes k (search_round lib realloc (is_limited s) (search_ceiling s) x)
  unfolding search_round
  round-Goes k (t, cap) g = attempt-Goes k cap (stage realloc t cap) (stage-Made k cap t g)

  first-Sought : IsStaged s → Sought 10 (s, first_cap s.in_len (search_ceiling s))
  unfolding fourfold
  first-Sought v =
      let fits = (ceiling-Bounded s (search_ceiling s) (omega arith)).0 in
      record { staged = v; cap_in = ground arith; near = ground arith; memory = inl (omega arith) }

  -- From a staging buffer whose capacity is that of its block, over a liblz4 that decodes within the
  -- capacity and a `realloc` that does what C says: the search comes to an end, in at most eleven
  -- rounds. It gives a size that lies in the staging buffer, in an `int` and in `max_output` where that is
  -- set, or an error; the output limit is answered only where `max_output` is set; and the staging buffer
  -- is no larger than it was, or within the same bounds.
  pub search_ends : IsStaged s → (x : Answer) × (search lib realloc s ≡ some x) × Searched s x
  unfolding search
  search_ends v =
      loop_counted (search_round lib realloc (is_limited s) (search_ceiling s)) Sought (Searched s)
        round-Goes 11 10 (s, first_cap s.in_len (search_ceiling s)) (omega arith) (first-Sought v)
