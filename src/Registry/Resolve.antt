-- ===== src/Registry/Resolve.antt =====
-- In a valid registry (src/zu_registry.c) every lookup answers with the entry that it should.
use zukomp.Base.{
  ℕ, ◌+◌, ◌≡◌, refl, sym, ◌∙◌, ap, length-append, true, false, Option, none, some, List, [], ◌∷◌,
  ◌++◌, inl, inr, ◌⊎◌, arith, or_else, bytes_eq_iff, ◌==◌, is_none, if◌then◌else◌, Bool-cases, leb,
  length,
}
use zukomp.Types.{ok, err_invalid_argument, err_memory, Vtable}
use zukomp.Registry.{
  Registry, Decl, declared, registry_lookup, claims_declared, ieq, is_refused, register, find_codec,
  registry_cap,
}
use zukomp.Registry.Find.{
  named, named_declared, codec_lookup, coded, coded_declared, from_content_encoding,
}
use zukomp.Registry.Distinct.{Apart, IsProper, All, Distinct, IsValid}

ieq_refl : (xs : List ℕ) → ieq xs xs ≡ true
unfolding ieq
ieq_refl [] = refl
ieq_refl (x ∷ xs) = ground (arith, ieq_refl xs)

ieq_comm : (xs ys : List ℕ) → ieq xs ys ≡ ieq ys xs
unfolding ieq
ieq_comm [] [] = refl
ieq_comm [] (y ∷ ys) = refl
ieq_comm (x ∷ xs) [] = refl
ieq_comm (x ∷ xs) (y ∷ ys) = ground (arith, ieq_comm xs ys)

module _ {S : Type 0} where
  abbrev pub In : Vtable S → List (Vtable S) → Type 0
  In v [] = ⊥
  In v (w ∷ ws) = (v ≡ w) ⊎ In v ws

  pub All-at :
      (P : Vtable S → Type 0) (v : Vtable S) (vs : List (Vtable S)) → All P vs → In v vs → P v
  All-at P v [] h m = absurd m
  All-at P v (w ∷ ws) h (inl e) = rw e h.0
  All-at P v (w ∷ ws) h (inr m) = All-at P v ws h.1 m

  find_codec_at :
      (v : Vtable S) (vs : List (Vtable S)) → Distinct vs → In v vs → find_codec vs v.codec ≡ some v
  find_codec_at v [] d m = absurd m
  find_codec_at v (w ∷ ws) d (inl e) = rw e (ground arith)
  find_codec_at v (w ∷ ws) d (inr m) =
      ground (arith, (All-at (Apart w) v ws d.0 m).codecs, find_codec_at v ws d.1 m)

  named_at :
      (v : Vtable S) (vs : List (Vtable S))
      → Distinct vs
      → In v vs
      → named vs (or_else v.name []) ≡ v.codec
  unfolding named
  named_at v [] d m = absurd m
  named_at v (w ∷ ws) d (inl e) =
      rw e (ground (arith, bytes_eq_iff (or_else w.name []) (or_else w.name [])))
  named_at v (w ∷ ws) d (inr m) = ground (
    arith,
    (All-at (Apart w) v ws d.0 m).names,
    bytes_eq_iff (or_else w.name []) (or_else v.name []),
    named_at v ws d.1 m,
  )

  coded_at :
      (v : Vtable S) (vs : List (Vtable S)) (token : List ℕ)
      → Distinct vs
      → In v vs
      → v.content_encoding ≡ some token
      → coded vs token ≡ v.codec
  unfolding coded
  coded_at v [] token d m t = absurd m
  coded_at v (w ∷ ws) token d (inl e) t = ground (
    arith,
    ieq_refl token,
    ap (λ (x : Vtable S). x.content_encoding) e,
    ap (λ (x : Vtable S). x.codec) e,
  )
  coded_at v (w ∷ ws) token d (inr m) t =
      ground (arith, (All-at (Apart w) v ws d.0 m).tokens, coded_at v ws token d.1 m t)

  named_declared_at :
      (v : Vtable S) (ds : List Decl) (vs : List (Vtable S))
      → claims_declared v ds ≡ false
      → named vs (or_else v.name []) ≡ v.codec
      → named_declared ds vs (or_else v.name []) ≡ v.codec
  unfolding named_declared claims_declared
  named_declared_at v [] vs c e = e
  named_declared_at v (d ∷ ds) vs c e = ground (arith, named_declared_at v ds vs)

  coded_declared_at :
      (v : Vtable S) (ds : List Decl) (vs : List (Vtable S)) (token : List ℕ)
      → v.content_encoding ≡ some token
      → claims_declared v ds ≡ false
      → coded vs token ≡ v.codec
      → coded_declared ds vs token ≡ v.codec
  unfolding coded_declared claims_declared
  coded_declared_at v [] vs token t c e = e
  coded_declared_at v (d ∷ ds) vs token t c e = ground (arith, coded_declared_at v ds vs token)

  codec_lookup_at :
      (r : Registry S) (v : Vtable S) (n : Option (List ℕ))
      → v.name ≡ n
      → is_none v.name ≡ false
      → IsValid r
      → In v r.entries
      → codec_lookup r n ≡ v.codec
  unfolding codec_lookup
  codec_lookup_at r v none e s h m = ground (arith, ap is_none e)
  codec_lookup_at r v (some n) e s h m =
      ap (λ (o : Option (List ℕ)). named_declared declared r.entries (or_else o [])) (sym e)
      ∙ named_declared_at v declared r.entries (All-at IsProper v r.entries h.proper m).unclaimed
          (named_at v r.entries h.distinct m)

  -- In a valid registry the three ways to name a registered codec, its number, its name and its
  -- content-coding token, all lead to that entry: no name resolves differently by number and by name.
  pub lookups_agree :
      (r : Registry S) (v : Vtable S)
      → IsValid r
      → In v r.entries
      → (registry_lookup r v.codec ≡ some v)
        × (codec_lookup r v.name ≡ v.codec)
        × ((token : List ℕ)
            → v.content_encoding ≡ some token
            → from_content_encoding r (some token) ≡ v.codec)
  unfolding registry_lookup codec_lookup from_content_encoding
  lookups_agree r v h m = (
    ground (
      arith,
      find_codec_at v r.entries h.distinct m,
      (All-at IsProper v r.entries h.proper m).has_codec,
    ),
    codec_lookup_at r v v.name refl (All-at IsProper v r.entries h.proper m).has_name h m,
    λ token t.
        coded_declared_at v declared r.entries token t
          (All-at IsProper v r.entries h.proper m).unclaimed
          (coded_at v r.entries token h.distinct m t),
  )

  find_codec-append :
      (vs : List (Vtable S)) (v : Vtable S) (c : ℕ)
      → find_codec vs v.codec ≡ none
      → find_codec (vs ++ (v ∷ [])) c ≡ (if v.codec == c then some v else find_codec vs c)
  find_codec-append [] v c h = refl
  find_codec-append (w ∷ ws) v c h = ground (arith, find_codec-append ws v c)

  accepted_lookup :
      (r : Registry S) (v : Vtable S) (g c : ℕ)
      → is_refused r v ≡ false
      → registry_lookup (record { entries = r.entries ++ (v ∷ []); generation = g }) c
        ≡ (if v.codec == c then some v else registry_lookup r c)
  unfolding is_refused registry_lookup
  accepted_lookup r v g c h =
      let fresh : find_codec r.entries v.codec ≡ none = ground arith in
      ground (arith, find_codec-append r.entries v c fresh)

  -- What a call of `zu_register_codec` changes, on all of its outcomes: it succeeds or changes nothing;
  -- where it succeeds, the new codec's number leads to the new entry, every other number leads where it
  -- led before, and the generation and the count go up by one.
  pub register_effect :
      (r : Registry S) (v : Vtable S)
      → (register r v ≡ (err_invalid_argument, r))
        ⊎ (register r v ≡ (err_memory, r))
        ⊎ ((register r v).0 ≡ ok)
          × ((register r v).1.generation ≡ r.generation + 1)
          × (length (register r v).1.entries ≡ length r.entries + 1)
          × ((c : ℕ)
              → registry_lookup (register r v).1 c
                ≡ (if v.codec == c then some v else registry_lookup r c))
  unfolding register
  register_effect r v = elim (Bool-cases (is_refused r v)) [
    | inl bad ↦ rw (bad, register) (inl refl)
    | inr good ↦ elim (Bool-cases (leb registry_cap (length r.entries))) [
      | inl full ↦ rw (good, full, register) (inr (inl refl))
      | inr room ↦
          rw (good, room, register)
            (inr (
              inr (
                refl,
                refl,
                omega (arith, length-append r.entries (v ∷ [])),
                λ c. accepted_lookup r v (r.generation + 1) c good,
              )))
    ]
  ]
