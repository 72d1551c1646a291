-- ===== src/Codec/Zstd/OneShot.antt =====
-- src/codec_zstd.c behind src/zu_stream.c: the one-shot functions with the zstd codec.
use zukomp.Base.{
  ℕ, ◌<◌, ◌≡◌, ◌⊎◌, inl, inr, refl, subst, Bool, true, not, ◌==◌, Option, some, some-injective,
  none-ne-some, List, [], ◌∷◌, length, word, if_elim, Option-cases, arith,
}
use zukomp.Buffer.{bytes}
use zukomp.Types.{Status, ok, code, codec_none, codec_zstd, Vtable, DecoderOpts}
use zukomp.Registry.{Registry, registry_lookup}
use zukomp.Frames.{frames_init, zstd}
use zukomp.Stream.Check.{copy_decoder_opts}
use zukomp.Stream.Decoder.Handle.{IsDecoder}
use zukomp.Stream.OneShot.{Answer, whole, decompress_one}
use zukomp.Stream.Decoder.{decoder_new as handle_new}
use zukomp.Stream.OneShot.Decompress.{Decompressed, decompress_returns}
use zukomp.Codec.Libzstd.{Result, Library, Bounded, Delimits}
use zukomp.Codec.Zstd.{Zstd, set_window, windowed, is_error, window_log}
use zukomp.Codec.Zstd.Life.{decoder_new, kept, blank}
use zukomp.Codec.Zstd.Decode.Returns.{decoder-KeepsCursors}
use zukomp.Codec.Zstd.Codecs.{zstd_vtable}

module _ {C D : Type 0} (z : Library C D) (mem : Bool) where
  abbrev pub registry : Registry (Zstd C D)
  registry = record { entries = zstd_vtable z mem ∷ []; generation = 1 }

  abbrev Answers : Status × Option (Zstd C D) → Type 0
  Answers r = r.0 ≡ ok ⊎ 3 < code r.0

  windowed-Answers : (s : Zstd C D) (r : Result × D) → Answers (kept z (windowed z s r))
  unfolding kept windowed
  windowed-Answers s (r, d) =
      if_elim (λ (st : Status). Answers (kept z (st, record s { dctx = some d }))) (is_error r)
        (inr (omega arith)) (inl refl)

  decoder_new-Answers : (o : DecoderOpts) → Answers (decoder_new z mem o)
  unfolding decoder_new set_window
  decoder_new-Answers o =
      if_elim Answers (not mem) (inr (omega arith)) (elim (Option-cases z.create_dctx) [
        | inl e ↦ rw e (inr (omega arith))
        | inr (d, e) ↦ rw e (
            windowed-Answers
              (record blank {
                dctx = some d;
                max_output = o.max_output;
                frames = frames_init zstd o.flags;
              })
              (z.window_log_max d (window_log o.max_output)))
      ])

  pub is_zstd :
      (codec : ℕ) (v : Vtable (Zstd C D))
      → registry_lookup registry codec ≡ some v
      → zstd_vtable z mem ≡ v
  unfolding registry_lookup zstd_vtable
  is_zstd codec v =
      let P : Option (Vtable (Zstd C D)) → Type 0 = λ r. r ≡ some v → zstd_vtable z mem ≡ v in
      if_elim P (codec == codec_none) (λ q. absurd (none-ne-some v q))
        (if_elim P (codec_zstd == codec) (λ q. some-injective _ v q)
          (λ q. absurd (none-ne-some v q)))

  module _ (law : Bounded z) (ends : Delimits z) where
    zstd-IsDecoder : IsDecoder (zstd_vtable z mem)
    unfolding zstd_vtable
    zstd-IsDecoder = record {
      process = record { at = (decoder-KeepsCursors z law ends).at };
      constructs = λ f o q.
          subst (λ (g : DecoderOpts → Status × Option (Zstd C D)). (g o).0 ≡ ok ⊎ 3 < code (g o).0)
            (some-injective _ f q) (decoder_new-Answers o);
    }

    -- `decompress_returns` for the zstd codec.
    pub zstd_decompresses :
        (src dst : Option (List ℕ)) (n cap : ℕ) (handle : Bool) (o : DecoderOpts)
        → length (bytes src) ≡ n
        → length (bytes dst) ≡ cap
        → n < word
        → cap < word
        → (a : Answer) × (decompress_one registry (some o) src n dst cap true handle ≡ some a)
          × Decompressed
              (copy_decoder_opts o)
              (handle_new registry o handle)
              (whole src n dst cap)
              a
    zstd_decompresses src dst n cap handle o src_is dst_is n_fits cap_fits =
        decompress_returns registry o src dst n cap handle
          (λ v q. subst IsDecoder (is_zstd o.codec v q) zstd-IsDecoder) src_is dst_is n_fits
          cap_fits
