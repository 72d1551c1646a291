-- ===== src/Codec/Deflate/Codecs.antt =====
-- src/codec_deflate.c: the three vtables, over miniz. `mem` says whether the state's `calloc` succeeds.
use zukomp.Base.{◌+◌, Bool, true, false, none, some, [], ◌∷◌, codes}
use zukomp.Base.Int.{pos}
use zukomp.Types.{
  Vtable, vtable_size, codec_deflate_raw, codec_zlib, codec_gzip, can_encode, can_decode, can_flush,
  level_default,
}
use zukomp.Gzip.{header_len}
use zukomp.Codec.Miniz.{Engine}
use zukomp.Codec.Deflate.{Deflate, raw, zlib, gzip, zlib_sniff}
use zukomp.Codec.Deflate.Life.{
  mz_default_level, deflate_new, encoder_reset, decoder_reset, deflate_bound,
}
use zukomp.Codec.Deflate.Process.{deflate_process}

module _ {M : Type 0} (e : Engine M) (mem : Bool) where
  -- `zu_int_codec_deflate_raw`, with its two constructors and its bound.
  unfoldable pub raw_vtable : Vtable (Deflate M)
  raw_vtable = record {
    struct_size = vtable_size;
    codec = codec_deflate_raw;
    name = some (codes "deflate-raw");
    content_encoding = none;
    source = some (codes "zukomp");
    level_min = pos 0;
    level_max = pos 9;
    level_default = mz_default_level;
    flags = can_encode + can_decode + can_flush;
    magic = none;
    magic_len = 0;
    magic_offset = 0;
    sniff = none;
    encoder_new = some (λ o. deflate_new e mem raw true o.level 0);
    encoder_process = some (deflate_process e);
    encoder_reset = some (encoder_reset e);
    has_encoder_free = true;
    decoder_new = some (λ o. deflate_new e mem raw false level_default o.flags);
    decoder_process = some (deflate_process e);
    decoder_reset = some (decoder_reset e);
    has_decoder_free = true;
    bound = some (λ level n. deflate_bound n 0);
    level_fast = pos 1;
    level_best = pos 9;
  }

  -- `zu_int_codec_zlib`
  unfoldable pub zlib_vtable : Vtable (Deflate M)
  unfolding raw_vtable
  zlib_vtable = record raw_vtable {
    codec = codec_zlib;
    name = some (codes "zlib");
    content_encoding = some (codes "deflate");
    sniff = some zlib_sniff;
    encoder_new = some (λ o. deflate_new e mem zlib true o.level 0);
    decoder_new = some (λ o. deflate_new e mem zlib false level_default o.flags);
    bound = some (λ level n. deflate_bound n 6);
  }

  -- `zu_int_codec_gzip`
  unfoldable pub gzip_vtable : Vtable (Deflate M)
  unfolding raw_vtable
  gzip_vtable = record raw_vtable {
    codec = codec_gzip;
    name = some (codes "gzip");
    content_encoding = some (codes "gzip");
    magic = some (0x1f ∷ 0x8b ∷ []);
    magic_len = 2;
    encoder_new = some (λ o. deflate_new e mem gzip true o.level 0);
    decoder_new = some (λ o. deflate_new e mem gzip false level_default o.flags);
    bound = some (λ level n. deflate_bound n (header_len + 8));
  }
