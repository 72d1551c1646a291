-- ===== src/Tests/Streams.antt =====
-- The stream driver (src/zu_stream.c) over the pass-through codec.
use zukomp.Base.{
  take, ℕ, ◌+◌, ◌-◌, ◌*◌, ◌≤◌, ◌≡◌, ◌↔◌, inl, refl, ap, or_else, sym, subst, ltb, true, false, some,
  [], ◌∷◌, arith,
}
use zukomp.Base.Int.{pos}
use zukomp.Buffer.{bytes, Buffer, IsValid, Advances}
use zukomp.Types.{
  ok, code, stream_end, err_output_limit, zu_finish, DecoderOpts, EncoderOpts, Vtable,
  codec_identity,
}
use zukomp.Registry.{Registry, registry_lookup}
use zukomp.Stream.Check.{copy_decoder_opts, check_buffer, check_flush}
use zukomp.Stream.Decoder.{
  decoder_reset, decoder_new, Decoder, run_codec, verdict, counted, shrunk, restored, gate,
  exceeds_ratio, window, cap_to, ceiling, decoder_process, ratio_allowance, expects,
  rejects_trailing,
}
use zukomp.Stream.Decoder.Limits.{WithinLimits, limits_enforced, end_reported, ratio_test}
use zukomp.Stream.Decoder.Cap.{IsHonest, ceiling_enforced}
use zukomp.Stream.Decoder.Reset.{Outcomes, reset_renews}
use zukomp.Stream.Decoder.Session.{begin, calls, Within, total_capped}
use zukomp.Stream.Decoder.Handle.{IsDecoder}
use zukomp.Stream.OneShot.{Answer, whole, compress_one, decompress_one}
use zukomp.Stream.Encoder.Handle.{IsEncoder}
use zukomp.Stream.OneShot.Compress.{Compressed, compress_returns}
use zukomp.Stream.OneShot.Stored.{identity_opts, identity_stores}
use zukomp.Stream.OneShot.Decompress.{Decompressed, decompress_returns}
use zukomp.Codec.Identity.{identity_vtable, identity_process}
use zukomp.Codec.Identity.Copy.{identity-KeepsCursors}

abbrev vtable : Vtable ℕ
vtable = identity_vtable 0

abbrev capped : DecoderOpts
capped = record {
  struct_size = 32;
  codec = codec_identity;
  max_output = 3;
  max_ratio = 2;
  flags = 1;
  expected_size = 0;
}

abbrev pub decoder : Decoder ℕ
decoder = record {
  vtable = vtable;
  state = some 0;
  opts = capped;
  finished = false;
  total_in = 0;
  total_out = 0;
}

abbrev two_bytes : Buffer
two_bytes = record {
  src = some (7 ∷ 8 ∷ []);
  src_size = 2;
  src_pos = 0;
  dst = some (0 ∷ 0 ∷ 0 ∷ 0 ∷ []);
  dst_size = 4;
  dst_pos = 0;
}

two_bytes-IsValid : IsValid two_bytes
two_bytes-IsValid = record {
  src_in = omega arith;
  dst_in = omega arith;
  src_mem = omega arith;
  dst_mem = omega arith;
  src_word = omega arith;
  dst_word = omega arith;
}

pub decoder-IsHonest : IsHonest decoder
unfolding identity_vtable
decoder-IsHonest = record { at = λ s b flush v. identity-KeepsCursors.at s b flush v }

abbrev after : Decoder ℕ
after = (decoder_process decoder two_bytes zu_finish).1

abbrev delivered : ℕ
delivered = 0 + ((decoder_process decoder two_bytes zu_finish).2.dst_pos - two_bytes.dst_pos)

pub decoder_ceiling : ceiling decoder.opts ≡ some (3, err_output_limit)
unfolding ceiling
decoder_ceiling = refl

total_capped_example : Within decoder after 3 delivered
total_capped_example =
    total_capped decoder 3 err_output_limit decoder-IsHonest decoder_ceiling (omega arith) refl
      (calls begin two_bytes zu_finish two_bytes-IsValid refl refl)

ceiling_enforced_example :
    let (st, e, out) = decoder_process decoder two_bytes zu_finish in
    Advances two_bytes out
    × (e.total_out ≡ decoder.total_out + (out.dst_pos - two_bytes.dst_pos))
    × (e.total_out ≤ 3)
ceiling_enforced_example =
    ceiling_enforced decoder two_bytes zu_finish 3 err_output_limit decoder-IsHonest
      two_bytes-IsValid decoder_ceiling (omega arith) (omega arith)

-- The two bytes pass, and the stream ends.
decoder_ends : (decoder_process decoder two_bytes zu_finish).0 ≡ stream_end
unfolding identity_vtable identity_process decoder_process run_codec verdict counted shrunk restored
    gate exceeds_ratio check_buffer check_flush window cap_to ceiling ratio_allowance
decoder_ends = refl

limits_enforced_example : WithinLimits after
limits_enforced_example =
    limits_enforced decoder two_bytes zu_finish refl
      (subst (λ st. code st ≤ 3) (sym decoder_ends) (omega arith))

end_reported_example :
    let (st, e, out) = decoder_process decoder two_bytes zu_finish in
    (e.finished ≡ true)
    × (expects e.opts ≡ true → e.total_out ≡ e.opts.expected_size)
    × (rejects_trailing e.opts ≡ true → out.src_size ≤ out.src_pos)
end_reported_example = end_reported decoder two_bytes zu_finish refl decoder_ends

ratio_test_example : (ltb (ratio_allowance 5 4) 20 ≡ false) ↔ (20 ≤ 5 * 4)
ratio_test_example = ratio_test 5 20 4 (λ e. absurd (omega arith)) (omega arith)

abbrev registry : Registry ℕ
registry = record { entries = vtable ∷ []; generation = 1 }

vtable-IsDecoder : IsDecoder vtable
unfolding identity_vtable
vtable-IsDecoder = record {
  process = record { at = λ s b flush v. identity-KeepsCursors.at s b flush v };
  constructs = λ f o e. inl (ap (λ n. (or_else n f o).0) (sym e));
}

registered-IsDecoder :
    (v : Vtable ℕ) → registry_lookup registry codec_identity ≡ some v → IsDecoder v
unfolding registry_lookup identity_vtable
registered-IsDecoder v e = subst IsDecoder (ap (λ n. or_else n v) e) vtable-IsDecoder

decompress_returns_example :
    (a : Answer) × (decompress_one registry
        (some capped)
        (some (7 ∷ 8 ∷ []))
        2
        (some (0 ∷ 0 ∷ 0 ∷ []))
        3
        true
        true
      ≡ some a)
    × Decompressed
        (copy_decoder_opts capped)
        (decoder_new registry capped true)
        (whole (some (7 ∷ 8 ∷ [])) 2 (some (0 ∷ 0 ∷ 0 ∷ [])) 3)
        a
decompress_returns_example =
    decompress_returns registry capped (some (7 ∷ 8 ∷ [])) (some (0 ∷ 0 ∷ 0 ∷ [])) 2 3 true
      registered-IsDecoder (omega arith) (omega arith) (omega arith) (omega arith)

reset_renews_example : Outcomes capped after (decoder_reset after (some capped))
reset_renews_example = reset_renews after (some capped)

abbrev encoder_opts : EncoderOpts
encoder_opts = record { struct_size = 16; codec = codec_identity; level = pos 0; flags = 0 }

vtable-IsEncoder : IsEncoder vtable
unfolding identity_vtable
vtable-IsEncoder = record {
  process = record { at = λ s b flush v. identity-KeepsCursors.at s b flush v };
  constructs = λ f o e. inl (ap (λ n. (or_else n f o).0) (sym e));
}

registered-IsEncoder :
    (v : Vtable ℕ) → registry_lookup registry codec_identity ≡ some v → IsEncoder v
unfolding registry_lookup identity_vtable
registered-IsEncoder v e = subst IsEncoder (ap (λ n. or_else n v) e) vtable-IsEncoder

compress_returns_example :
    (a : Answer) × (compress_one registry
        (some encoder_opts)
        (some (7 ∷ 8 ∷ []))
        2
        (some (0 ∷ 0 ∷ 0 ∷ []))
        3
        true
        true
      ≡ some a)
    × Compressed 3 a
compress_returns_example =
    compress_returns registry encoder_opts (some (7 ∷ 8 ∷ [])) (some (0 ∷ 0 ∷ 0 ∷ [])) 2 3 true
      registered-IsEncoder (omega arith) (omega arith) (omega arith) (omega arith)

found : registry_lookup registry codec_identity ≡ some vtable
unfolding registry_lookup identity_vtable
found = refl

identity_stores_example :
    (a : Answer) × (compress_one registry
        (some identity_opts)
        (some (7 ∷ 8 ∷ []))
        2
        (some (0 ∷ 0 ∷ 0 ∷ []))
        3
        true
        true
      ≡ some a)
    × (a.status ≡ ok)
    × (a.written ≡ some 2)
    × (take 2 (bytes a.dst) ≡ 7 ∷ 8 ∷ [])
identity_stores_example =
    identity_stores registry 0 (7 ∷ 8 ∷ []) (0 ∷ 0 ∷ 0 ∷ []) found (omega arith) (omega arith)
