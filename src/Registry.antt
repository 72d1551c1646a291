-- ===== src/Registry.antt =====
-- src/zu_registry.c: the table of declared names, registration, and the lookups by identity.
-- The table's state is an argument and a result of `register`; the two globals are its fields.
pub mod Find
pub mod Detect
pub mod Distinct
pub mod Resolve
pub mod Sniffing
use zukomp.Base.{
  ℕ, ◌+◌, Bool, true, false, not, Option, none, some, List, [], ◌∷◌, ◌++◌, ◌&&◌, ◌||◌, ltb, leb,
  ◌==◌, if◌then◌else◌, has_bit, is_none, or_else, length, codes, bytes_eq,
}
use zukomp.Types.{
  Status, ok, err_invalid_argument, err_memory, Vtable, vtable_required, can_encode, can_decode,
  codec_none, codec_identity, codec_deflate_raw, codec_zlib, codec_gzip, codec_brotli, codec_zstd,
  codec_lz4_frame, codec_lz4_block, codec_snappy_frame, codec_snappy_raw, codec_vendor_base,
}

-- `zu_int_codec_decl`
pub record Decl : Type 0 where
  pub codec : ℕ
  pub name : List ℕ
  pub content_encoding : Option (List ℕ)

abbrev decl : ℕ → List ℕ → Option (List ℕ) → Decl
decl c n e = record { codec = c; name = n; content_encoding = e }

-- `zu_int_declared`
abbrev pub declared : List Decl
declared =
    decl codec_identity (codes "identity") (some (codes "identity"))
    ∷ decl codec_deflate_raw (codes "deflate-raw") none
    ∷ decl codec_zlib (codes "zlib") (some (codes "deflate"))
    ∷ decl codec_gzip (codes "gzip") (some (codes "gzip"))
    ∷ decl codec_brotli (codes "brotli") (some (codes "br"))
    ∷ decl codec_zstd (codes "zstd") (some (codes "zstd"))
    ∷ decl codec_lz4_frame (codes "lz4-frame") none
    ∷ decl codec_lz4_block (codes "lz4-block") none
    ∷ decl codec_snappy_frame (codes "snappy-frame") none
    ∷ decl codec_snappy_raw (codes "snappy-raw") none
    ∷ []

-- `zu_int_declared_for`, over the rows that the loop has left.
unfoldable pub declared_for : List Decl → ℕ → Option Decl
declared_for [] c = none
declared_for (d ∷ ds) c = if d.codec == c then some d else declared_for ds c

-- ASCII upper case to lower case, as in `zu_int_ieq`.
abbrev pub lower : ℕ → ℕ
lower c = if leb b'A' c && leb c b'Z' then c + 32 else c

-- `zu_int_ieq` over C strings: the end of a list is the NUL.
unfoldable pub ieq : List ℕ → List ℕ → Bool
ieq [] [] = true
ieq [] (b ∷ bs) = false
ieq (a ∷ as') [] = false
ieq (a ∷ as') (b ∷ bs) = lower a == lower b && ieq as' bs

-- Two content-coding tokens that are both there and the same.
abbrev pub same_token : Option (List ℕ) → Option (List ℕ) → Bool
same_token none b = false
same_token (some a) none = false
same_token (some a) (some b) = ieq a b

module _ {S : Type 0} where
  -- `zu_int_registry_lookup`, over the entries that the loop has left.
  abbrev find_codec : List (Vtable S) → ℕ → Option (Vtable S)
  find_codec [] c = none
  find_codec (v ∷ vs) c = if v.codec == c then some v else find_codec vs c

  -- A capability without the functions for it.
  unfoldable pub lacks_functions : Vtable S → Bool
  lacks_functions v =
      has_bit v.flags can_encode
        && (is_none v.encoder_new || is_none v.encoder_process || not v.has_encoder_free)
      || has_bit v.flags can_decode
        && (is_none v.decoder_new || is_none v.decoder_process || not v.has_decoder_free)

  -- A declared identity carries its declared name; any other is in the vendor range.
  unfoldable pub wrong_identity : Vtable S → Option Decl → Bool
  wrong_identity v (some d) = not (bytes_eq (or_else v.name []) d.name)
  wrong_identity v none = ltb v.codec codec_vendor_base

  -- A declared name or token claimed under another identity.
  unfoldable pub claims_declared : Vtable S → List Decl → Bool
  claims_declared v [] = false
  claims_declared v (d ∷ ds) =
      bytes_eq d.name (or_else v.name []) && not (d.codec == v.codec)
      || same_token d.content_encoding v.content_encoding && not (d.codec == v.codec)
      || claims_declared v ds

  -- A name or token that is registered already.
  unfoldable pub claims_registered : Vtable S → List (Vtable S) → Bool
  claims_registered v [] = false
  claims_registered v (w ∷ ws) =
      bytes_eq (or_else w.name []) (or_else v.name [])
      || same_token w.content_encoding v.content_encoding
      || claims_registered v ws

-- The table in registration order, and `zu_int_registry_gen`.
pub record Registry (S : Type 0) : Type 0 where
  pub entries : List (Vtable S)
  pub generation : ℕ

abbrev pub empty : {S : Type 0} → Registry S
empty = record { entries = []; generation = 0 }

-- `ZU_INT_REGISTRY_CAP`
abbrev pub registry_cap : ℕ
registry_cap = 32

module _ {S : Type 0} where
  unfoldable pub registry_lookup : Registry S → ℕ → Option (Vtable S)
  registry_lookup r c = if c == codec_none then none else find_codec r.entries c

  -- `zu_int_registry_count` and `zu_int_registry_at`
  pub registry_count : Registry S → ℕ
  registry_count r = length r.entries

  -- The guards of `zu_register_codec`, all of which answer ZU_ERR_INVALID_ARGUMENT.
  unfoldable pub is_refused : Registry S → Vtable S → Bool
  is_refused r v =
      is_none v.name
      || is_none v.source
      || ltb v.struct_size vtable_required
      || v.codec == codec_none
      || lacks_functions v
      || not (is_none (registry_lookup r v.codec))
      || wrong_identity v (declared_for declared v.codec)
      || claims_declared v declared
      || claims_registered v r.entries

  -- `zu_register_codec`
  unfoldable pub register : Registry S → Vtable S → Status × Registry S
  register r v =
      if is_refused r v
      then (err_invalid_argument, r)
      else if leb registry_cap (length r.entries)
      then (err_memory, r)
      else (ok, record { entries = r.entries ++ (v ∷ []); generation = r.generation + 1 })

  -- `zu_int_register_builtin_codecs`: stops at the first that is refused.
  unfoldable pub register_all : Registry S → List (Vtable S) → Status × Registry S
  register_all r [] = (ok, r)
  register_all r (v ∷ vs) =
      let (st, r') = register r v in elim st [ ok ↦ register_all r' vs | other ↦ (other, r') ]
