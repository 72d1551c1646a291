-- ===== src/Tests/Deflate.antt =====
-- The DEFLATE family (src/codec_deflate.c) over a stand-in for miniz.
use zukomp.Base.{
  ℕ, ◌+◌, ◌*◌, ◌/◌, ◌≤◌, ◌<◌, ◌≡◌, ◌≢◌, ◌⊎◌, refl, ap, true, false, Option, none, some, List, [],
  ◌∷◌, ◌++◌, or_else, write, take, arith, word, again, leave, loop,
}
use zukomp.Base.Int.{pos}
use zukomp.Buffer.{Buffer, IsValid, Advances, bytes, consume, next_byte}
use zukomp.Types.{
  Status, ok, code, need_input, stream_end, err_memory, err_checksum, zu_run, zu_finish,
  level_default, codec_gzip, DecoderOpts,
}
use zukomp.Stream.Check.{copy_decoder_opts}
use zukomp.Stream.Contract.{KeepsCursors}
use zukomp.Gzip.{header_init}
use zukomp.Codec.Deflate.{
  Deflate, header, flevel, zlib, gzip, trailer_bytes, check_trailer, zlib_header, zlib_check_header,
  zlib_sniff,
}
use zukomp.Codec.Deflate.Life.{deflate_new, opened, no_parser, checksum_update, deflate_bound}
use zukomp.Codec.Deflate.{is_raw}
use zukomp.Codec.Deflate.Process.{
  run, iteration, deflate_process, returned, at_stage, in_header, write_out, in_body, turn, counted,
  after_turn, carry_on, ended, write_tail,
}
use zukomp.Codec.Deflate.Sound.{Sound}
use zukomp.Codec.Deflate.Returns.{run_returns, process-KeepsCursors}
use zukomp.Codec.Deflate.Wrapper.{Same, zlib_header_accepted, trailer_accepted}
use zukomp.Codec.Deflate.Bound.{deflate_bound_exact}
use zukomp.Codec.Deflate.Start.{new-Sound}
use zukomp.Codec.Deflate.Sums.{Summed}
use zukomp.Codec.Deflate.Sums.Encoder.{encoder_sums}
use zukomp.Codec.Deflate.Probe.{between, holding, over, afresh, begun_member, probe_at_any_cut}
use zukomp.Codec.Deflate.Codecs.{gzip_vtable}
use zukomp.Stream.Decoder.{Decoder}
use zukomp.Tests.Toy.{toy, toy-Bounded, toy-Continues}

zlib_header_accepted_example :
    (zlib_check_header (zlib_header (pos 9) ++ (7 ∷ [])) ≡ ok)
    × (zlib_sniff (zlib_header (pos 9) ++ (7 ∷ [])) ≡ true)
zlib_header_accepted_example = zlib_header_accepted (pos 9) (7 ∷ [])

abbrev old_tail : List ℕ
old_tail = 1 ∷ 2 ∷ 3 ∷ 4 ∷ 5 ∷ 6 ∷ 7 ∷ 8 ∷ []

trailer_accepted_example :
    let st = check_trailer gzip (write old_tail 0 (trailer_bytes gzip 1000 5)) 1000 6 in
    (st ≡ ok) × Same gzip 1000 5 1000 6 ⊎ (st ≡ err_checksum) × (Same gzip 1000 5 1000 6 → ⊥)
unfolding is_raw
trailer_accepted_example = trailer_accepted gzip old_tail 1000 5 1000 6 refl (omega arith)

deflate_bound_exact_example :
    let total = 1000 + 1000 / 64 + (64 + 6) in
    (total < word
      → (deflate_bound 1000 6 ≡ (ok, some total)) × (1000 + 5 * (1000 / 65535 + 1) + 6 ≤ total))
    × (word ≤ total → deflate_bound 1000 6 ≡ (err_memory, none))
deflate_bound_exact_example = deflate_bound_exact 1000 6 (omega arith) (omega arith)

new-Sound_example :
    let r = deflate_new toy true gzip true level_default 0 in
    (r.0 ≡ ok ⊎ 3 < code r.0) × ((s : Deflate ℕ) → r.1 ≡ some s → Sound s)
new-Sound_example = new-Sound toy toy-Bounded true gzip true level_default 0

-- A zlib encoder, and three bytes for it.
abbrev encoder : Deflate ℕ
encoder = record {
  mz = 0;
  mz_called = false;
  encoder = true;
  wrap = zlib;
  stage = header;
  level = pos 6;
  hdr = 0x78 ∷ 0x9c ∷ 0 ∷ 0 ∷ 0 ∷ 0 ∷ 0 ∷ 0 ∷ 0 ∷ 0 ∷ [];
  hdr_len = 2;
  hdr_pos = 0;
  tail = 0 ∷ 0 ∷ 0 ∷ 0 ∷ 0 ∷ 0 ∷ 0 ∷ 0 ∷ [];
  tail_len = 4;
  tail_pos = 0;
  checksum = 1;
  uncompressed = 0;
  gz = no_parser toy;
  dec_flags = 0;
  probe_magic = false;
}

encoder_made : deflate_new toy true zlib true level_default 0 ≡ (ok, some encoder)
unfolding deflate_new opened zlib_header flevel header_init
encoder_made = refl

encoder-Sound : Sound encoder
encoder-Sound =
    (new-Sound toy toy-Bounded true zlib true level_default 0).1 encoder
      (ap (λ (r : Status × Option (Deflate ℕ)). r.1) encoder_made)

abbrev twelve : List ℕ
twelve = 0 ∷ 0 ∷ 0 ∷ 0 ∷ 0 ∷ 0 ∷ 0 ∷ 0 ∷ 0 ∷ 0 ∷ 0 ∷ 0 ∷ []

abbrev buffer : Buffer
buffer = record {
  src = some (7 ∷ 8 ∷ 9 ∷ []);
  src_size = 3;
  src_pos = 0;
  dst = some twelve;
  dst_size = 12;
  dst_pos = 0;
}

buffer-IsValid : IsValid buffer
buffer-IsValid = record {
  src_in = omega arith;
  dst_in = omega arith;
  src_mem = omega arith;
  dst_mem = omega arith;
  src_word = omega arith;
  dst_word = omega arith;
}

-- The whole stream: header, body and trailer.
encoded :
    let (st, s, b) = deflate_process toy (some encoder) buffer zu_finish in
    (st ≡ stream_end) × (take 10 (bytes b.dst) ≡ 0x78 ∷ 0x9c ∷ 7 ∷ 8 ∷ 9 ∷ 0 ∷ 0 ∷ 49 ∷ 0 ∷ 25 ∷ [])
unfolding deflate_process returned run loop iteration at_stage in_header write_out in_body turn
    counted after_turn carry_on ended write_tail is_raw checksum_update trailer_bytes
encoded = (refl, refl)

run_returns_example :
    (r : Status × Deflate ℕ × Buffer) × (run toy encoder buffer zu_finish ≡ some r)
    × (Sound r.1 × Advances buffer r.2)
run_returns_example =
    run_returns toy toy-Bounded buffer buffer-IsValid zu_finish encoder encoder-Sound

process-KeepsCursors_example : KeepsCursors (deflate_process toy)
process-KeepsCursors_example = process-KeepsCursors toy toy-Bounded

encoder_sums_example :
    (t : Deflate ℕ) × ((deflate_process toy (some encoder) buffer zu_finish).1 ≡ some t)
    × Summed toy encoder buffer t (deflate_process toy (some encoder) buffer zu_finish).2
unfolding is_raw
encoder_sums_example =
    encoder_sums toy toy-Bounded toy-Continues encoder buffer buffer-IsValid refl refl zu_finish
      encoder-Sound

abbrev opts : DecoderOpts
opts = record {
  struct_size = 32;
  codec = codec_gzip;
  max_output = 3;
  max_ratio = 0;
  flags = 3;
  expected_size = 0;
}

abbrev joining : Deflate ℕ
joining = record encoder { dec_flags = 2 }

abbrev two_at_once : Buffer
two_at_once = record buffer { src = some (0x1f ∷ 0x8b ∷ 8 ∷ []) }

abbrev first_alone : Buffer
first_alone = record buffer { src = some (0x1f ∷ []); src_size = 1 }

abbrev second_alone : Buffer
second_alone = record buffer { src = some (0x8b ∷ []); src_size = 1 }

probe_at_any_cut_example :
    (iteration toy zu_run (between toy joining, first_alone)
      ≡ leave (need_input, holding toy joining, consume first_alone 1))
    × (next_byte second_alone ≡ 0x8b
        → (iteration toy zu_run (between toy joining, two_at_once)
            ≡ again (afresh toy joining 0, two_at_once))
          × (iteration toy zu_run (afresh toy joining 0, two_at_once)
              ≡ again (begun_member toy joining 0, consume two_at_once 1))
          × (iteration toy zu_run (holding toy joining, second_alone)
              ≡ again (begun_member toy joining 0, second_alone)))
    × (next_byte second_alone ≢ 0x8b
        → (iteration toy zu_run (between toy joining, two_at_once)
            ≡ leave (stream_end, over toy joining, two_at_once))
          × (iteration toy zu_run (holding toy joining, second_alone)
              ≡ leave (stream_end, over toy joining, second_alone)))
probe_at_any_cut_example =
    probe_at_any_cut toy joining refl zu_run zu_run two_at_once first_alone second_alone 0
      (omega arith) refl (omega arith) refl (omega arith) (omega arith) refl refl

abbrev state : Deflate ℕ
state = or_else (deflate_new toy true gzip false level_default 3).1 encoder

abbrev made : Decoder (Deflate ℕ)
made = record {
  vtable = gzip_vtable toy true;
  state = some state;
  opts = copy_decoder_opts opts;
  finished = false;
  total_in = 0;
  total_out = 0;
}
