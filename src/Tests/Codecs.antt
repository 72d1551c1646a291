-- ===== src/Tests/Codecs.antt =====
-- The registry (src/zu_registry.c) with the pass-through codec, and one call of that codec.
use zukomp.Base.{
  ℕ, ◌+◌, ◌≤◌, ◌<◌, ◌≡◌, ◌≢◌, ◌⊎◌, inl, inr, refl, ap, subst, bytes_eq, if◌then◌else◌, ◌==◌, min,
  none, some, List, [], ◌∷◌, ◌++◌, length, arith, codes,
}
use zukomp.Buffer.{Buffer, IsValid, written, peek, avail_in, avail_out}
use zukomp.Types.{
  Status, ok, need_input, need_output, stream_end, err_invalid_argument, err_memory, zu_finish,
  Vtable,
}
use zukomp.Registry.{
  Registry, empty, register, is_refused, registry_lookup, declared_for, ieq, lacks_functions,
  wrong_identity, claims_declared, claims_registered,
}
use zukomp.Registry.Find.{codec_lookup, from_content_encoding}
use zukomp.Registry.Distinct.{IsValid as ValidRegistry, register-IsValid, empty-IsValid}
use zukomp.Registry.Resolve.{In, lookups_agree, register_effect}
use zukomp.Registry.Sniffing.{Fits, Carries, ByMagic, ByPredicate, Unidentified, sniff_outcome}
use zukomp.Codec.Identity.{identity_vtable, identity_process}
use zukomp.Codec.Identity.Copy.{identity_copies}

abbrev vtable : Vtable ℕ
vtable = identity_vtable 0

abbrev registry : Registry ℕ
registry = record { entries = vtable ∷ []; generation = 1 }

-- The pass-through codec is accepted.
registered : register empty vtable ≡ (ok, registry)
unfolding register is_refused declared_for ieq lacks_functions wrong_identity claims_declared
    claims_registered registry_lookup bytes_eq identity_vtable
registered = refl

register-IsValid_example : ValidRegistry (register empty vtable).1
register-IsValid_example = register-IsValid empty vtable empty-IsValid

registry-IsValid : ValidRegistry registry
registry-IsValid =
    subst (λ (r : Registry ℕ). ValidRegistry r) (ap (λ (r : Status × Registry ℕ). r.1) registered)
      (register-IsValid empty vtable empty-IsValid)

register_effect_example :
    (register registry vtable ≡ (err_invalid_argument, registry))
    ⊎ (register registry vtable ≡ (err_memory, registry))
    ⊎ ((register registry vtable).0 ≡ ok)
      × ((register registry vtable).1.generation ≡ 2)
      × (length (register registry vtable).1.entries ≡ 2)
      × ((c : ℕ)
          → registry_lookup (register registry vtable).1 c
            ≡ (if vtable.codec == c then some vtable else registry_lookup registry c))
register_effect_example = register_effect registry vtable

lookups_agree_example :
    (registry_lookup registry vtable.codec ≡ some vtable)
    × (codec_lookup registry vtable.name ≡ vtable.codec)
    × ((token : List ℕ)
        → vtable.content_encoding ≡ some token
        → from_content_encoding registry (some token) ≡ vtable.codec)
lookups_agree_example = lookups_agree registry vtable registry-IsValid (inl refl)

-- A second codec, in the vendor range, with a magic of two bytes at offset 1.
abbrev vendor : Vtable ℕ
vendor = record vtable {
  codec = 2000;
  name = some (codes "vendor");
  content_encoding = none;
  magic = some (0xab ∷ 0xcd ∷ []);
  magic_len = 2;
  magic_offset = 1;
}

abbrev two_codecs : Registry ℕ
two_codecs = record { entries = vtable ∷ vendor ∷ []; generation = 2 }

vendor_registered : register registry vendor ≡ (ok, two_codecs)
unfolding register is_refused declared_for ieq lacks_functions wrong_identity claims_declared
    claims_registered registry_lookup bytes_eq identity_vtable
vendor_registered = refl

two_codecs-IsValid : ValidRegistry two_codecs
two_codecs-IsValid =
    subst (λ (r : Registry ℕ). ValidRegistry r)
      (ap (λ (r : Status × Registry ℕ). r.1) vendor_registered)
      (register-IsValid registry vendor registry-IsValid)

two_codecs-Fits : (v : Vtable ℕ) → In v two_codecs.entries → Fits v
unfolding identity_vtable
two_codecs-Fits v (inl e) = rw e (record { len = omega arith; offset = omega arith })
two_codecs-Fits v (inr (inl e)) = rw e (record { len = omega arith; offset = omega arith })
two_codecs-Fits v (inr (inr x)) = absurd x

abbrev sample : List ℕ
sample = 0 ∷ 0xab ∷ 0xcd ∷ 9 ∷ []

sniff_outcome_example :
    ByMagic two_codecs sample 4
    ⊎ ((w : Vtable ℕ) → In w two_codecs.entries → ¬ Carries sample 4 w)
      × (ByPredicate two_codecs sample 4 ⊎ Unidentified two_codecs sample 4)
sniff_outcome_example =
    sniff_outcome two_codecs sample 4 two_codecs-IsValid two_codecs-Fits (omega arith)

abbrev buffer : Buffer
buffer = record {
  src = some (7 ∷ 8 ∷ 9 ∷ []);
  src_size = 3;
  src_pos = 0;
  dst = some (0 ∷ 0 ∷ []);
  dst_size = 2;
  dst_pos = 0;
}

buffer-IsValid : IsValid buffer
buffer-IsValid = record {
  src_in = omega arith;
  dst_in = omega arith;
  src_mem = omega arith;
  dst_mem = omega arith;
  src_word = omega arith;
  dst_word = omega arith;
}

identity_copies_example :
    let (st, s', out) = identity_process {S = ℕ} (some 0) buffer zu_finish in
    let n = min (avail_in buffer) (avail_out buffer) in
    (written out ≡ written buffer ++ peek buffer n)
    × (out.src_pos ≡ buffer.src_pos + n)
    × (out.dst_pos ≡ buffer.dst_pos + n)
    × (avail_out buffer < avail_in buffer → st ≡ need_output)
    × (avail_in buffer ≤ avail_out buffer → zu_finish ≡ zu_finish → st ≡ stream_end)
    × (avail_in buffer ≤ avail_out buffer → zu_finish ≢ zu_finish → st ≡ need_input)
identity_copies_example = identity_copies (some 0) buffer zu_finish buffer-IsValid
