-- ===== src/Codec/Deflate/Start.antt =====
-- src/codec_deflate.c: a state that was made is sound, and the three vtables are codecs for the driver.
use zukomp.Base.{
  ℕ, ◌<◌, ◌≡◌, refl, subst, ◌⊎◌, inl, inr, Bool, true, false, not, Option, some, if◌then◌else◌,
  if_elim, some-injective, none-ne-some, arith,
}
use zukomp.Base.Int.{ℤ, eq_ℤ}
use zukomp.Types.{Status, ok, code, Vtable, EncoderOpts, DecoderOpts, level_default}
use zukomp.Stream.Check.{call}
use zukomp.Stream.Contract.{KeepsCursors}
use zukomp.Stream.Decoder.Handle.{IsDecoder}
use zukomp.Stream.Encoder.Handle.{IsEncoder}
use zukomp.Codec.Miniz.{
  Code, mz_ok, mz_stream_end, mz_buf_error, mz_data_error, mz_mem_error, mz_param_error,
  mz_stream_error, mz_need_dict, mz_other, Engine, Bounded, starts,
}
use zukomp.Codec.Deflate.{Deflate, Wrap, raw, zlib, gzip, from_mz}
use zukomp.Codec.Deflate.Life.{deflate_new, opened, mz_default_level}
use zukomp.Codec.Deflate.Sound.{Sound, fits_first, length-own_header}
use zukomp.Codec.Deflate.Process.{deflate_process}
use zukomp.Codec.Deflate.Returns.{process-KeepsCursors}
use zukomp.Codec.Deflate.Codecs.{raw_vtable, zlib_vtable, gzip_vtable}

module _ {M : Type 0} (e : Engine M) where
  abbrev Made : Status × Option (Deflate M) → Type 0
  Made r = (r.0 ≡ ok ⊎ 3 < code r.0) × ((s : Deflate M) → r.1 ≡ some s → Sound s)

  opened-Made :
      (wrap : Wrap) (encoder : Bool) (level : ℤ) (flags : ℕ) (mz : Code) (m : M)
      → starts mz ≡ true
      → Made (opened e wrap encoder level flags (mz, m))
  unfolding opened from_mz
  opened-Made wrap encoder level flags mz_ok m h = (
    inl refl,
    λ s eq. subst Sound (some-injective _ s eq) (record {
      fitting = fits_first encoder wrap;
      hdr_is = refl;
      hdr_in = omega arith;
      hdr_room = length-own_header encoder wrap level _;
      tail_is = refl;
      tail_in = omega arith;
      tail_room = refl;
    }),
  )
  opened-Made wrap encoder level flags mz_mem_error m h =
      (inr (omega arith), λ s eq. absurd (none-ne-some s eq))
  opened-Made wrap encoder level flags mz_param_error m h =
      (inr (omega arith), λ s eq. absurd (none-ne-some s eq))
  opened-Made wrap encoder level flags mz_stream_error m h =
      (inr (omega arith), λ s eq. absurd (none-ne-some s eq))
  opened-Made wrap encoder level flags mz_stream_end m h = absurd (ground arith)
  opened-Made wrap encoder level flags mz_buf_error m h = absurd (ground arith)
  opened-Made wrap encoder level flags mz_data_error m h = absurd (ground arith)
  opened-Made wrap encoder level flags mz_need_dict m h = absurd (ground arith)
  opened-Made wrap encoder level flags mz_other m h = absurd (ground arith)

  -- Where miniz starts a stream or documents why not, `zu_int_deflate_new` answers ZU_OK or an error,
  -- for every wrapper, direction, level and flags and also where `calloc` fails, and a state that it
  -- makes is sound.
  pub new-Sound :
      Bounded e
      → (mem : Bool) (wrap : Wrap) (encoder : Bool) (level : ℤ) (flags : ℕ)
      → let r = deflate_new e mem wrap encoder level flags in
        (r.0 ≡ ok ⊎ 3 < code r.0) × ((s : Deflate M) → r.1 ≡ some s → Sound s)
  unfolding deflate_new
  new-Sound law mem wrap encoder level flags =
      let own = if eq_ℤ level level_default then mz_default_level else level in
      if_elim Made (not mem) (inr (omega arith), λ s eq. absurd (none-ne-some s eq))
        (if_elim (λ (r : Code × M). Made (opened e wrap encoder own flags r)) encoder
          (opened-Made wrap encoder own flags _ (e.deflate_init own).1 (law.deflate_starts own))
          (opened-Made wrap encoder own flags _ e.inflate_init.1 law.inflate_starts))

  -- The three vtables.
  unfoldable pub IsFamily : Bool → Vtable (Deflate M) → Type 0
  IsFamily mem v = (v ≡ raw_vtable e mem) ⊎ (v ≡ zlib_vtable e mem) ⊎ (v ≡ gzip_vtable e mem)

  module _ (law : Bounded e) (mem : Bool) where
    decodes :
        (wrap : Wrap) (f : DecoderOpts → Status × Option (Deflate M)) (o : DecoderOpts)
        → some (λ (o : DecoderOpts). deflate_new e mem wrap false level_default o.flags) ≡ some f
        → (f o).0 ≡ ok ⊎ 3 < code (f o).0
    decodes wrap f o eq =
        subst (λ (g : DecoderOpts → Status × Option (Deflate M)). (g o).0 ≡ ok ⊎ 3 < code (g o).0)
          (some-injective _ f eq) (new-Sound law mem wrap false level_default o.flags).0

    encodes :
        (wrap : Wrap) (f : EncoderOpts → Status × Option (Deflate M)) (o : EncoderOpts)
        → some (λ (o : EncoderOpts). deflate_new e mem wrap true o.level 0) ≡ some f
        → (f o).0 ≡ ok ⊎ 3 < code (f o).0
    encodes wrap f o eq =
        subst (λ (g : EncoderOpts → Status × Option (Deflate M)). (g o).0 ≡ ok ⊎ 3 < code (g o).0)
          (some-injective _ f eq) (new-Sound law mem wrap true o.level 0).0

    processes : KeepsCursors (call (some (deflate_process e)))
    processes = record { at = (process-KeepsCursors e law).at }

    pub family-IsDecoder : (v : Vtable (Deflate M)) → IsFamily mem v → IsDecoder v
    unfolding raw_vtable zlib_vtable gzip_vtable IsFamily
    family-IsDecoder v (inl q) = rw q (record { process = processes; constructs = decodes raw })
    family-IsDecoder v (inr (inl q)) =
        rw q (record { process = processes; constructs = decodes zlib })
    family-IsDecoder v (inr (inr q)) =
        rw q (record { process = processes; constructs = decodes gzip })

    pub family-IsEncoder : (v : Vtable (Deflate M)) → IsFamily mem v → IsEncoder v
    unfolding raw_vtable zlib_vtable gzip_vtable IsFamily
    family-IsEncoder v (inl q) = rw q (record { process = processes; constructs = encodes raw })
    family-IsEncoder v (inr (inl q)) =
        rw q (record { process = processes; constructs = encodes zlib })
    family-IsEncoder v (inr (inr q)) =
        rw q (record { process = processes; constructs = encodes gzip })
