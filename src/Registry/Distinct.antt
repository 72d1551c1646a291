-- ===== src/Registry/Distinct.antt =====
-- The identity invariants that `zu_register_codec` (src/zu_registry.c) keeps.
use zukomp.Base.{
  ◌≤◌, ◌≡◌, ◌≢◌, false, none, List, [], ◌∷◌, ◌++◌, inl, inr, arith, leb, length, length-append,
  or_else, bytes_eq_iff, Bool-cases, is_none,
}
use zukomp.Types.{Vtable, codec_none}
use zukomp.Registry.{
  Registry, empty, declared, declared_for, registry_cap, registry_lookup, lacks_functions,
  wrong_identity, claims_declared, claims_registered, same_token, is_refused, register, find_codec,
}

module _ {S : Type 0} where
  -- No two entries answer to one identity, one name or one content-coding token.
  pub record Apart (v w : Vtable S) : Type 0 where
    pub codecs : v.codec ≢ w.codec
    pub names : or_else v.name [] ≢ or_else w.name []
    pub tokens : same_token v.content_encoding w.content_encoding ≡ false

  -- What an entry is on its own.
  pub record IsProper (v : Vtable S) : Type 0 where
    pub has_codec : v.codec ≢ codec_none
    pub has_name : is_none v.name ≡ false
    pub functions : lacks_functions v ≡ false
    pub identity : wrong_identity v (declared_for declared v.codec) ≡ false
    pub unclaimed : claims_declared v declared ≡ false

  abbrev pub All : (Vtable S → Type 0) → List (Vtable S) → Type 0
  All P [] = Unit
  All P (v ∷ vs) = P v × All P vs

  abbrev pub Distinct : List (Vtable S) → Type 0
  Distinct [] = Unit
  Distinct (v ∷ vs) = All (Apart v) vs × Distinct vs

  pub record IsValid (r : Registry S) : Type 0 where
    pub distinct : Distinct r.entries
    pub proper : All IsProper r.entries
    pub within : length r.entries ≤ registry_cap
    pub counted : r.generation ≡ length r.entries

  pub empty-IsValid : IsValid empty
  empty-IsValid = record { distinct = tt; proper = tt; within = omega arith; counted = omega arith }

  All-snoc :
      (P : Vtable S → Type 0) (vs : List (Vtable S)) (v : Vtable S)
      → All P vs
      → P v
      → All P (vs ++ (v ∷ []))
  All-snoc P [] v h p = (p, tt)
  All-snoc P (w ∷ ws) v h p = (h.0, All-snoc P ws v h.1 p)

  Distinct-snoc :
      (vs : List (Vtable S)) (v : Vtable S)
      → Distinct vs
      → All (λ w. Apart w v) vs
      → Distinct (vs ++ (v ∷ []))
  Distinct-snoc [] v d a = (tt, tt)
  Distinct-snoc (w ∷ ws) v d a = (All-snoc (Apart w) ws v d.0 a.0, Distinct-snoc ws v d.1 a.1)

  -- What the search by identity and `claims_registered` leave open.
  Apart-unclaimed :
      (vs : List (Vtable S)) (v : Vtable S)
      → find_codec vs v.codec ≡ none
      → claims_registered v vs ≡ false
      → All (λ w. Apart w v) vs
  unfolding claims_registered
  Apart-unclaimed [] v f c = tt
  Apart-unclaimed (w ∷ ws) v f c = (
    record {
      codecs = λ e. ground arith;
      names = λ e. ground (arith, bytes_eq_iff (or_else w.name []) (or_else v.name []));
      tokens = ground arith;
    },
    Apart-unclaimed ws v (ground arith) (ground arith),
  )

  pub register-IsProper : (r : Registry S) (v : Vtable S) → is_refused r v ≡ false → IsProper v
  unfolding is_refused
  register-IsProper r v h = record {
    has_codec = ground arith;
    has_name = ground arith;
    functions = ground arith;
    identity = ground arith;
    unclaimed = ground arith;
  }

  accepted-Apart :
      (r : Registry S) (v : Vtable S) → is_refused r v ≡ false → All (λ w. Apart w v) r.entries
  unfolding is_refused registry_lookup
  accepted-Apart r v h = Apart-unclaimed r.entries v (ground arith) (ground arith)

  -- Whether it accepts the vtable or not, `zu_register_codec` keeps the registry valid: identities,
  -- names and tokens distinct, every entry proper, the table within its capacity and the generation
  -- equal to the number of entries.
  pub register-IsValid : (r : Registry S) (v : Vtable S) → IsValid r → IsValid (register r v).1
  unfolding register
  register-IsValid r v h = elim (Bool-cases (is_refused r v)) [
    | inl bad ↦ rw (bad, register) h
    | inr good ↦ elim (Bool-cases (leb registry_cap (length r.entries))) [
      | inl full ↦ rw (good, full, register) h
      | inr room ↦
          rw (good, room, register)
            (record {
              distinct = Distinct-snoc r.entries v h.distinct (accepted-Apart r v good);
              proper = All-snoc IsProper r.entries v h.proper (register-IsProper r v good);
              within = ground (arith, length-append r.entries (v ∷ []));
              counted = omega (arith, length-append r.entries (v ∷ []), h.counted);
            })
    ]
  ]
