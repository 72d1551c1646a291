-- ===== src/Stream/Check.antt =====
-- src/zu_stream.c: the validation that both directions share, and the copy of the options.
use zukomp.Base.{
  ◌≡◌, refl, ◌<◌, ◌⊎◌, inl, inr, arith, Bool-cases, Option-cases, ℕ, ◌-◌, ◌%◌, ◌^◌, ◌+◌, not,
  Option, none, some, ltb, leb, ◌==◌, ◌&&◌, ◌||◌, if◌then◌else◌, is_none, has_bit,
}
use zukomp.Base.Int.{ℤ, pos, ltb_ℤ, eq_ℤ}
use zukomp.Buffer.{Buffer}
use zukomp.Types.{
  Status, code, ok, err_invalid_argument, err_unsupported, err_internal, Vtable, Process,
  EncoderOpts, DecoderOpts, level_default, encoder_opts_size, decoder_opts_size,
  decoder_opts_required, dec_expected_size,
}
use zukomp.Registry.{Registry, registry_lookup}

-- `zu_int_check_buffer`
unfoldable pub check_buffer : Buffer → Status
check_buffer b =
    if ltb b.src_size b.src_pos || ltb b.dst_size b.dst_pos
    then err_invalid_argument
    else if is_none b.src && not (b.src_size == 0)
    then err_invalid_argument
    else if is_none b.dst && not (b.dst_size == 0)
    then err_invalid_argument
    else ok

-- `zu_int_check_flush`: ZU_RUN, ZU_FLUSH and ZU_FINISH are 0, 1 and 2.
unfoldable pub check_flush : ℕ → Status
check_flush flush =
    if not (flush == 0) && not (flush == 1) && not (flush == 2) then err_invalid_argument else ok

-- `zu_int_check_level`
unfoldable pub check_level : {S : Type 0} → Vtable S → ℤ → Status
check_level v level =
    if eq_ℤ level level_default
    then ok
    else if eq_ℤ v.level_min (pos 0) && eq_ℤ v.level_max (pos 0) && eq_ℤ v.level_default (pos 0)
    then if eq_ℤ level (pos 0) then ok else err_invalid_argument
    else if ltb_ℤ level v.level_min || ltb_ℤ v.level_max level
    then err_invalid_argument
    else ok

module _ {S : Type 0} where
  unfoldable pub supporting : Option (Vtable S) → ℕ → Status × Option (Vtable S)
  supporting none direction = (err_unsupported, none)
  supporting (some v) direction =
      if not (has_bit v.flags direction) then (err_unsupported, none) else (ok, some v)

  -- `zu_int_resolve`
  unfoldable pub resolve : Registry S → ℕ → ℕ → Status × Option (Vtable S)
  unfolding supporting
  resolve r codec direction = supporting (registry_lookup r codec) direction

  pub resolve-cases :
      (r : Registry S) (codec direction : ℕ)
      → ((resolve r codec direction).1 ≡ none) × (3 < code (resolve r codec direction).0)
        ⊎ (v : Vtable S) × ((resolve r codec direction).1 ≡ some v)
          × (registry_lookup r codec ≡ some v)
  unfolding resolve supporting
  resolve-cases r codec direction = elim (Option-cases (registry_lookup r codec)) [
    | inl e ↦ rw (e, resolve) (inl (refl, omega arith))
    | inr (v, e) ↦ elim (Bool-cases (has_bit v.flags direction)) [
      | inl can ↦ inr (v, rw (e, can) refl, e)
      | inr cannot ↦ inl (rw (e, cannot) refl, rw (e, cannot) (omega arith))
    ]
  ]

  -- A call through a function pointer of a vtable. Through NULL it would be undefined; a registered
  -- vtable has the functions of every direction that it advertises.
  abbrev pub call : Option (Process S) → Process S
  call none s b flush = (err_internal, s, b)
  call (some f) s b flush = f s b flush

-- A field of `width` bytes at `offset`, of which the first `size` bytes of the struct were copied
-- over zeros, low bytes first.
abbrev pub copied : ℕ → ℕ → ℕ → ℕ → ℕ
copied size offset width x =
    if leb (offset + width) size
    then x
    else if leb size offset
    then 0
    else x % 256 ^ (size - offset)

-- `zu_int_copy_opts` on the two structs. What a caller's encoder options hold beyond `flags` is
-- nothing, and a size below the required one is refused before.
unfoldable pub copy_encoder_opts : EncoderOpts → EncoderOpts
copy_encoder_opts o = record {
  struct_size = encoder_opts_size;
  codec = copied o.struct_size 4 4 o.codec;
  level = if leb 12 o.struct_size then o.level else pos 0;
  flags = copied o.struct_size 12 4 o.flags;
}

unfoldable pub copy_decoder_opts : DecoderOpts → DecoderOpts
copy_decoder_opts o = record {
  struct_size = decoder_opts_size;
  codec = copied o.struct_size 4 4 o.codec;
  max_output = copied o.struct_size 8 8 o.max_output;
  max_ratio = copied o.struct_size 16 4 o.max_ratio;
  flags = copied o.struct_size 20 4 o.flags;
  expected_size = copied o.struct_size 24 8 o.expected_size;
}

-- `zu_int_check_dec_opts`
unfoldable pub check_dec_opts : DecoderOpts → Status
check_dec_opts o =
    if ltb o.struct_size decoder_opts_required
    then err_invalid_argument
    else if has_bit o.flags dec_expected_size && ltb o.struct_size 32
    then err_invalid_argument
    else ok
