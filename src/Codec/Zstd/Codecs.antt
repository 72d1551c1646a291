-- ===== src/Codec/Zstd/Codecs.antt =====
-- src/codec_zstd.c: the vtable, over libzstd. `mem` says whether the state's `calloc` succeeds.
use zukomp.Base.{◌+◌, ◌-◌, ◌^◌, Bool, true, none, some, [], ◌∷◌, codes}
use zukomp.Base.Int.{pos, negsuc}
use zukomp.Types.{Vtable, vtable_size, codec_zstd, can_encode, can_decode, can_flush}
use zukomp.Codec.Libzstd.{Library}
use zukomp.Codec.Zstd.{Zstd, zstd_default_level}
use zukomp.Codec.Zstd.Life.{encoder_new, encoder_reset, decoder_new, decoder_reset, zstd_bound}
use zukomp.Codec.Zstd.Encode.{encoder_process}
use zukomp.Codec.Zstd.Decode.{decoder_process}

-- `zu_int_codec_zstd`
unfoldable pub zstd_vtable : {C D : Type 0} → Library C D → Bool → Vtable (Zstd C D)
zstd_vtable z mem = record {
  struct_size = vtable_size;
  codec = codec_zstd;
  name = some (codes "zstd");
  content_encoding = some (codes "zstd");
  source = some (codes "zukomp");
  level_min = negsuc (2 ^ 17 - 1);
  level_max = pos 22;
  level_default = zstd_default_level;
  flags = can_encode + can_decode + can_flush;
  magic = some (0x28 ∷ 0xb5 ∷ 0x2f ∷ 0xfd ∷ []);
  magic_len = 4;
  magic_offset = 0;
  sniff = none;
  encoder_new = some (encoder_new z mem);
  encoder_process = some (encoder_process z);
  encoder_reset = some (encoder_reset z);
  has_encoder_free = true;
  decoder_new = some (decoder_new z mem);
  decoder_process = some (decoder_process z);
  decoder_reset = some (decoder_reset z);
  has_decoder_free = true;
  bound = some (zstd_bound z);
  level_fast = pos 1;
  level_best = pos 19;
}
