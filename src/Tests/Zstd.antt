-- ===== src/Tests/Zstd.antt =====
-- The zstd codec (src/codec_zstd.c) over a stand-in for libzstd: frames of one byte, and 0 the frame's end.
use zukomp.Base.{
  ℕ, zero, suc, ◌+◌, ◌-◌, ◌*◌, ◌^◌, ◌≤◌, ◌<◌, ◌≡◌, refl, ap, Bool, true, false, some, List, [], ◌∷◌,
  ◌++◌, take, length, arith,
}
use zukomp.Buffer.{Buffer, IsValid, Advances, bytes, written}
use zukomp.Types.{Status, need_output, zu_finish, codec_zstd, DecoderOpts}
use zukomp.Frames.{frames_init, zstd}
use zukomp.Frames.Cursors.{Short}
use zukomp.Stream.Check.{copy_decoder_opts}
use zukomp.Stream.Decoder.{Decoder as Handle, decoder_new as handle_new}
use zukomp.Codec.Libzstd.{Result, value, Directive, Turn, Library, Bounded, Delimits}
use zukomp.Codec.Zstd.{Zstd, window_log}
use zukomp.Codec.Zstd.Life.{blank, decoder_new}
use zukomp.Codec.Zstd.Window.{window_log_fits}
use zukomp.Codec.Zstd.Encode.{encode_loop}
use zukomp.Codec.Zstd.Encode.Returns.{Explains, encode_returns}
use zukomp.Codec.Zstd.Decode.{decode_loop, decoder_process}
use zukomp.Codec.Zstd.Decode.Returns.{decode_returns}
use zukomp.Codec.Zstd.Codecs.{zstd_vtable}
use zukomp.Codec.Zstd.Decode.Owed.{owed_first}

abbrev turn : Result → ℕ → List ℕ → Turn ℕ
turn r n ys = record { result = r; stream = 0; used = n; out = ys }

abbrev squeeze : ℕ → List ℕ → ℕ → Directive → Turn ℕ
squeeze c xs zero op = turn (value 1) 0 []
squeeze c [] (suc room) op = turn (value 0) 0 (0 ∷ [])
squeeze c (x ∷ xs) (suc room) op = turn (value 1) 1 (x ∷ [])

abbrev expand : ℕ → List ℕ → ℕ → Turn ℕ
expand d [] room = turn (value 1) 0 []
expand d (zero ∷ xs) room = turn (value 0) 1 []
expand d (suc x ∷ xs) zero = turn (value 1) 0 []
expand d (suc x ∷ xs) (suc room) = turn (value 1) 1 (suc x ∷ [])

abbrev toy : Library ℕ ℕ
toy = record {
  create_cctx = some 0;
  create_dctx = some 0;
  compression_level = λ c l. (value 0, c);
  checksum_flag = λ c. (value 0, c);
  window_log_max = λ d w. (value 0, d);
  reset_cctx = λ c. (value 0, c);
  reset_dctx = λ d. (value 0, d);
  compress_stream = squeeze;
  decompress_stream = expand;
  compress_bound = λ n. value (2 * n + 1);
}

squeeze_used :
    (c : ℕ) (xs : List ℕ) (room : ℕ) (op : Directive) → (squeeze c xs room op).used ≤ length xs
squeeze_used c xs zero op = omega arith
squeeze_used c [] (suc room) op = omega arith
squeeze_used c (x ∷ xs) (suc room) op = omega arith

squeeze_room :
    (c : ℕ) (xs : List ℕ) (room : ℕ) (op : Directive) → length (squeeze c xs room op).out ≤ room
squeeze_room c xs zero op = omega arith
squeeze_room c [] (suc room) op = omega arith
squeeze_room c (x ∷ xs) (suc room) op = omega arith

expand_used : (d : ℕ) (xs : List ℕ) (room : ℕ) → (expand d xs room).used ≤ length xs
expand_used d [] room = omega arith
expand_used d (zero ∷ xs) room = omega arith
expand_used d (suc x ∷ xs) zero = omega arith
expand_used d (suc x ∷ xs) (suc room) = omega arith

expand_room : (d : ℕ) (xs : List ℕ) (room : ℕ) → length (expand d xs room).out ≤ room
expand_room d [] room = omega arith
expand_room d (zero ∷ xs) room = omega arith
expand_room d (suc x ∷ xs) zero = omega arith
expand_room d (suc x ∷ xs) (suc room) = omega arith

is_end : Result → Bool
is_end (value zero) = true
is_end r = false

expand_ends :
    (d : ℕ) (xs : List ℕ) (room : ℕ)
    → (expand d xs room).result ≡ value 0
    → 0 < (expand d xs room).used
unfolding is_end
expand_ends d [] room h = let e = ap is_end h in absurd (ground arith)
expand_ends d (zero ∷ xs) room h = omega arith
expand_ends d (suc x ∷ xs) zero h = let e = ap is_end h in absurd (ground arith)
expand_ends d (suc x ∷ xs) (suc room) h = omega arith

toy-Bounded : Bounded toy
toy-Bounded = record {
  compress_used = squeeze_used;
  compress_room = squeeze_room;
  decompress_used = expand_used;
  decompress_room = expand_room;
}

toy-Delimits : Delimits toy
toy-Delimits = record {
  fresh = λ d. true;
  ended = λ d xs room h. refl;
  starts = λ d xs room f h. expand_ends d xs room h;
}

window_log_fits_example :
    let w = window_log (2 ^ 24 + 1) in
    (23 ≤ w)
    × (w ≤ 27)
    × (2 ^ 24 + 1 ≡ 0 → w ≡ 27)
    × (w < 27 → 2 ^ 24 + 1 ≤ 2 ^ w)
    × (23 < w → 0 < 2 ^ 24 + 1 → 2 ^ (w - 1) < 2 ^ 24 + 1)
window_log_fits_example = window_log_fits (2 ^ 24 + 1)

abbrev buffer : Buffer
buffer = record {
  src = some (7 ∷ 0 ∷ 0x28 ∷ []);
  src_size = 3;
  src_pos = 0;
  dst = some (0 ∷ 0 ∷ []);
  dst_size = 2;
  dst_pos = 0;
}

buffer-IsValid : IsValid buffer
buffer-IsValid = record {
  src_in = omega arith;
  dst_in = omega arith;
  src_mem = omega arith;
  dst_mem = omega arith;
  src_word = omega arith;
  dst_word = omega arith;
}

abbrev encoder : Zstd ℕ ℕ
encoder = record blank { encoder = true; cctx = some 0 }

abbrev decoder : Zstd ℕ ℕ
decoder = record blank { dctx = some 0 }

encode_returns_example :
    (r : Status × Zstd ℕ ℕ × Buffer) × (encode_loop toy encoder buffer zu_finish ≡ some r)
    × (Advances buffer r.2 × Explains r.0 r.2)
encode_returns_example = encode_returns toy toy-Bounded buffer buffer-IsValid encoder zu_finish

decode_returns_example :
    (r : Status × Zstd ℕ ℕ × Buffer) × (decode_loop toy decoder buffer zu_finish ≡ some r)
    × (Short r.1.frames × Advances buffer r.2)
decode_returns_example =
    decode_returns toy toy-Bounded toy-Delimits buffer buffer-IsValid zu_finish decoder
      (omega arith)

abbrev opts : DecoderOpts
opts = record {
  struct_size = 32;
  codec = codec_zstd;
  max_output = 3;
  max_ratio = 0;
  flags = 3;
  expected_size = 0;
}

abbrev state : Zstd ℕ ℕ
state = record decoder { max_output = 3; frames = frames_init zstd 3 }

abbrev made : Handle (Zstd ℕ ℕ)
made = record {
  vtable = zstd_vtable toy true;
  state = some state;
  opts = copy_decoder_opts opts;
  finished = false;
  total_in = 0;
  total_out = 0;
}

abbrev owing : Zstd ℕ ℕ
owing = record state { frames = record (frames_init zstd 3) { owed = some 42 } }

owed_first_example :
    (buffer.dst_pos ≡ buffer.dst_size
      → decoder_process toy (some owing) buffer zu_finish ≡ (need_output, some owing, buffer))
    × (buffer.dst_pos < buffer.dst_size
        → let (st, t, c) = decoder_process toy (some owing) buffer zu_finish in
          (buffer.dst_pos < c.dst_pos)
          × (take (buffer.dst_pos + 1) (bytes c.dst) ≡ written buffer ++ (42 ∷ [])))
unfolding frames_init
owed_first_example =
    owed_first toy toy-Bounded toy-Delimits owing 42 buffer buffer-IsValid zu_finish refl 0 refl
      (omega arith)
