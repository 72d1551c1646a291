-- ===== src/Whole/Reserve.antt =====
-- What `zu_int_reserve` (src/zu_whole.c) promises the loop.
use zukomp.Base.{
  ℕ, ◌+◌, ◌-◌, ◌≤◌, ◌<◌, ◌≡◌, ◌⊎◌, inl, inr, refl, sym, ap, ◌∙◌, subst, Bool, false, not, Option,
  none, some, List, leb, if◌then◌else◌, length, take, take_all, arith, word, Bool-cases,
}
use zukomp.Buffer.{bytes}
use zukomp.Types.{Status, ok, err_invalid_argument, is, code}
use zukomp.Size.{add, grow, mul}
use zukomp.Size.Exact.{add_exact, grow_succeeds}
use zukomp.Whole.{Outbuf, reserve, within, to_size, grown}

-- The sink's size is that of its block, and what is used lies in it.
pub record IsValid (o : Outbuf) : Type 0 where
  pub memory : length (bytes o.buf) ≡ o.size
  pub used_in : o.used ≤ o.size
  pub size_word : o.size < word

-- What C says of `realloc`: a block of the new size that begins with the old one's bytes.
pub record Reallocates (realloc : Option (List ℕ) → ℕ → Option (List ℕ)) : Type 0 where
  pub sized : (p : Option (List ℕ)) (n : ℕ) (q : List ℕ) → realloc p n ≡ some q → length q ≡ n
  pub kept :
      (p : Option (List ℕ)) (n : ℕ) (q : List ℕ)
      → realloc p n ≡ some q
      → length (bytes p) ≤ n
      → take (length (bytes p)) q ≡ bytes p

-- The sink after a reservation that succeeded: the room is there, and the old bytes are.
pub record Reserved (o : Outbuf) (extra : ℕ) (p : Outbuf) : Type 0 where
  pub valid : IsValid p
  pub owner : p.owner ≡ o.owner
  pub used : p.used ≡ o.used
  pub room : o.used + extra ≤ p.size
  pub content : take o.size (bytes p.buf) ≡ bytes o.buf

module _ (realloc : Option (List ℕ) → ℕ → Option (List ℕ)) where
  abbrev pub Outcome : Outbuf → ℕ → ℕ → Status × Outbuf × ℕ → Type 0
  Outcome o extra live (st, p, live') =
      (st ≡ ok) × Reserved o extra p ⊎ (is st ok ≡ false) × (p ≡ o) × (live' ≡ live)

  grown_lem :
      (o : Outbuf) (extra live next : ℕ) (q : Option (List ℕ))
      → Reallocates realloc
      → IsValid o
      → realloc o.buf next ≡ q
      → o.used + extra ≤ next
      → o.size ≤ next
      → next < word
      → Outcome o extra live (grown realloc o live next q)
  unfolding grown
  grown_lem o extra live next none k v e room le lt = inr (refl, refl, refl)
  grown_lem o extra live next (some q) k v e room le lt = inl (
    refl,
    record {
      valid = record {
        memory = k.sized o.buf next q e;
        used_in = omega (arith, v.used_in);
        size_word = lt;
      };
      owner = refl;
      used = refl;
      room = room;
      content = ap (λ n. take n q) (sym v.memory) ∙ k.kept o.buf next q e (omega (arith, v.memory));
    },
  )

  within_lem :
      (o : Outbuf) (extra live : ℕ)
      → Reallocates realloc
      → IsValid o
      → o.used + extra < word
      → Outcome o extra live (within realloc o live (ok, some (o.used + extra)))
  unfolding within to_size
  within_lem o extra live k v lt = elim (Bool-cases (leb (o.used + extra) o.size)) [
    | inl there ↦ rw there (
        inl (
          refl,
          record {
            valid = v;
            owner = refl;
            used = refl;
            room = ground arith;
            content = take_all o.size (bytes o.buf) (omega (arith, v.memory));
          },
        ))
    | inr short ↦
        let small : o.size < o.used + extra = ground arith in
        let (n, grows, fits, room, floor, doubled, which) =
          grow_succeeds o.size (o.used + extra - o.size) (omega arith) in
        rw (short, grows)
          (grown_lem o extra live n (realloc o.buf n) k v refl (omega arith) (omega arith) fits)
  ]

  -- For a `realloc` that does what C says, on a valid sink and an `extra` below 2^64: the
  -- reservation answers ZU_OK and leaves a valid sink of the same use with room for `extra` more
  -- bytes and every byte of the old block in its place; or it answers an error and changes neither
  -- the sink nor the count of live blocks.
  pub reserve_makes_room :
      (o : Outbuf) (extra live : ℕ)
      → Reallocates realloc
      → IsValid o
      → extra < word
      → let (st, p, live') = reserve realloc o extra live in
        (st ≡ ok) × Reserved o extra p ⊎ (is st ok ≡ false) × (p ≡ o) × (live' ≡ live)
  unfolding reserve within
  reserve_makes_room o extra live k v lt =
      let entry = λ (b : Bool).
        if not b
        then (err_invalid_argument, o, live)
        else within realloc o live (add o.used extra) in
      let exact = add_exact o.used extra (omega (arith, v.used_in, v.size_word)) lt in
      elim (Bool-cases o.owner) [
        | inr free ↦ subst (Outcome o extra live) (sym (ap entry free)) (inr (refl, refl, refl))
        | inl owned ↦ elim (Bool-cases (leb word (o.used + extra))) [
          | inl over ↦
              let fails = exact.1 (ground arith) in
              subst (Outcome o extra live) (sym (ap entry owned ∙ ap (within realloc o live) fails))
                (inr (refl, refl, refl))
          | inr under ↦
              let small : o.used + extra < word = ground arith in
              subst (Outcome o extra live)
                (sym (ap entry owned ∙ ap (within realloc o live) (exact.0 small)))
                (within_lem o extra live k v small)
        ]
      ]

  -- A reservation that does not succeed answers an error.
  pub reserve_error :
      (o : Outbuf) (extra live : ℕ)
      → is (reserve realloc o extra live).0 ok ≡ false
      → 3 < code (reserve realloc o extra live).0
  unfolding reserve within to_size grown add grow mul
  reserve_error o extra live = λ e. ground arith
