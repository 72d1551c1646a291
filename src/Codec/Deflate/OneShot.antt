-- ===== src/Codec/Deflate/OneShot.antt =====
-- src/codec_deflate.c behind src/zu_stream.c: the one-shot functions with a codec of the DEFLATE family.
use zukomp.Base.{
  [], ◌∷◌, inl, inr, if_elim, some-injective, none-ne-some, sym, ◌==◌, ℕ, ◌<◌, ◌≡◌, Bool, true,
  Option, some, List, length, word,
}
use zukomp.Buffer.{bytes}
use zukomp.Types.{
  codec_none, codec_deflate_raw, codec_zlib, codec_gzip, Vtable, EncoderOpts, DecoderOpts,
}
use zukomp.Registry.{Registry, registry_lookup}
use zukomp.Stream.Check.{copy_decoder_opts}
use zukomp.Stream.OneShot.{Answer, whole, compress_one, decompress_one}
use zukomp.Stream.Decoder.{decoder_new}
use zukomp.Stream.OneShot.Compress.{Compressed, compress_returns}
use zukomp.Stream.OneShot.Decompress.{Decompressed, decompress_returns}
use zukomp.Codec.Miniz.{Engine, Bounded}
use zukomp.Codec.Deflate.{Deflate}
use zukomp.Codec.Deflate.Codecs.{raw_vtable, zlib_vtable, gzip_vtable}
use zukomp.Codec.Deflate.Start.{IsFamily, family-IsDecoder, family-IsEncoder}

module _ {M : Type 0} (e : Engine M) (mem : Bool) where
  -- A registry of the three.
  abbrev pub family : Registry (Deflate M)
  family = record {
    entries = raw_vtable e mem ∷ zlib_vtable e mem ∷ gzip_vtable e mem ∷ [];
    generation = 3;
  }

  pub found-IsFamily :
      (codec : ℕ) (v : Vtable (Deflate M))
      → registry_lookup family codec ≡ some v
      → IsFamily e mem v
  unfolding registry_lookup IsFamily raw_vtable zlib_vtable gzip_vtable
  found-IsFamily codec v =
      let P : Option (Vtable (Deflate M)) → Type 0 = λ r. r ≡ some v → IsFamily e mem v in
      if_elim P (codec == codec_none) (λ q. absurd (none-ne-some v q))
        (if_elim P (codec_deflate_raw == codec) (λ q. inl (sym (some-injective _ v q)))
          (if_elim P (codec_zlib == codec) (λ q. inr (inl (sym (some-injective _ v q))))
            (if_elim P (codec_gzip == codec) (λ q. inr (inr (sym (some-injective _ v q))))
              (λ q. absurd (none-ne-some v q)))))

  module _ (law : Bounded e) (src dst : Option (List ℕ)) (n cap : ℕ) (handle : Bool)
      (src_is : length (bytes src) ≡ n) (dst_is : length (bytes dst) ≡ cap) (n_fits : n < word)
      (cap_fits : cap < word) where
    -- `decompress_returns` for the three codecs.
    pub family_decompresses :
        (o : DecoderOpts)
        → (a : Answer) × (decompress_one family (some o) src n dst cap true handle ≡ some a)
          × Decompressed (copy_decoder_opts o) (decoder_new family o handle) (whole src n dst cap) a
    family_decompresses o =
        decompress_returns family o src dst n cap handle
          (λ v q. family-IsDecoder e law mem v (found-IsFamily o.codec v q)) src_is dst_is n_fits
          cap_fits

    -- `compress_returns` for the three codecs.
    pub family_compresses :
        (o : EncoderOpts)
        → (a : Answer) × (compress_one family (some o) src n dst cap true handle ≡ some a)
          × Compressed cap a
    family_compresses o =
        compress_returns family o src dst n cap handle
          (λ v q. family-IsEncoder e law mem v (found-IsFamily o.codec v q)) src_is dst_is n_fits
          cap_fits
