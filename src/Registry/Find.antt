-- ===== src/Registry/Find.antt =====
-- src/zu_registry.c: the lookups by name and token, and the capability description.
use zukomp.Base.{
  ℕ, Bool, Option, none, some, List, [], ◌∷◌, ltb, ◌&&◌, ◌||◌, if◌then◌else◌, is_none, or_else, not,
  length, bytes_eq,
}
use zukomp.Base.Int.{ℤ, pos, eq_ℤ}
use zukomp.Types.{Status, ok, err_invalid_argument, err_unsupported, Vtable, codec_none}
use zukomp.Registry.{Decl, Registry, declared, registry_lookup, same_token}

module _ {S : Type 0} where
  -- The two loops of `zu_codec_lookup`: the declared names, then the registered ones.
  unfoldable pub named : List (Vtable S) → List ℕ → ℕ
  named [] name = codec_none
  named (v ∷ vs) name = if bytes_eq (or_else v.name []) name then v.codec else named vs name

  unfoldable pub named_declared : List Decl → List (Vtable S) → List ℕ → ℕ
  named_declared [] vs name = named vs name
  named_declared (d ∷ ds) vs name =
      if bytes_eq d.name name then d.codec else named_declared ds vs name

  unfoldable pub codec_lookup : Registry S → Option (List ℕ) → ℕ
  codec_lookup r none = codec_none
  codec_lookup r (some name) = named_declared declared r.entries name

  -- The two loops of `zu_codec_from_content_encoding`.
  unfoldable pub coded : List (Vtable S) → List ℕ → ℕ
  coded [] token = codec_none
  coded (v ∷ vs) token =
      if same_token v.content_encoding (some token) then v.codec else coded vs token

  unfoldable pub coded_declared : List Decl → List (Vtable S) → List ℕ → ℕ
  coded_declared [] vs token = coded vs token
  coded_declared (d ∷ ds) vs token =
      if same_token d.content_encoding (some token) then d.codec else coded_declared ds vs token

  unfoldable pub from_content_encoding : Registry S → Option (List ℕ) → ℕ
  from_content_encoding r none = codec_none
  from_content_encoding r (some token) = coded_declared declared r.entries token

  pub codec_available : Registry S → ℕ → Bool
  codec_available r c = not (is_none (registry_lookup r c))

  -- `level_best` ends at byte 160 of the vtable; both levels 0 are "not advertised".
  abbrev no_named_levels : Vtable S → Bool
  no_named_levels v =
      ltb v.struct_size 160 || eq_ℤ v.level_fast (pos 0) && eq_ℤ v.level_best (pos 0)

  pub vtable_level_fast : Vtable S → ℤ
  vtable_level_fast v = if no_named_levels v then v.level_default else v.level_fast

  pub vtable_level_best : Vtable S → ℤ
  vtable_level_best v = if no_named_levels v then v.level_default else v.level_best

-- `zu_codec_info`, whose `level_fast` and `level_best` are written only where the caller's struct
-- reaches so far: `detectable` ends at byte 52 and `level_best` at byte 60.
pub record Info : Type 0 where
  pub codec : ℕ
  pub name : Option (List ℕ)
  pub content_encoding : Option (List ℕ)
  pub source : Option (List ℕ)
  pub level_min : ℤ
  pub level_max : ℤ
  pub level_default : ℤ
  pub flags : ℕ
  pub detectable : Bool
  pub named_levels : Option (ℤ × ℤ)

module _ {S : Type 0} where
  info : Vtable S → ℕ → Info
  info v struct_size = record {
    codec = v.codec;
    name = v.name;
    content_encoding = v.content_encoding;
    source = v.source;
    level_min = v.level_min;
    level_max = v.level_max;
    level_default = v.level_default;
    flags = v.flags;
    detectable = not (is_none v.magic) || not (is_none v.sniff);
    named_levels =
        if ltb struct_size 60 then none else some (vtable_level_fast v, vtable_level_best v);
  }

  -- `zu_codec_get_info`, for a caller's struct of the given size.
  pub codec_get_info : Registry S → ℕ → ℕ → Status × Option Info
  codec_get_info r c struct_size =
      if ltb struct_size 52 then (err_invalid_argument, none) else elim (registry_lookup r c) [
        | none ↦ (err_unsupported, none)
        | some v ↦ (ok, some (info v struct_size))
      ]

  pub identities : List (Vtable S) → List ℕ
  identities [] = []
  identities (v ∷ vs) = v.codec ∷ identities vs

  -- `zu_codec_list`: the capacity of `out` (none where it is NULL) to the status, the count and what
  -- is written.
  pub codec_list : Registry S → Option ℕ → Status × ℕ × List ℕ
  codec_list r none = (ok, length r.entries, [])
  codec_list r (some cap) =
      if ltb cap (length r.entries)
      then (err_invalid_argument, length r.entries, [])
      else (ok, length r.entries, identities r.entries)
