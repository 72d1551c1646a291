-- ===== src/Stream/OneShot/Stored.antt =====
-- `zu_compress_one` (src/zu_stream.c) with the pass-through codec of src/codec_identity.c.
use zukomp.Base.{
  ℕ, ◌+◌, ◌≤◌, ◌<◌, ◌≡◌, refl, ap, sym, ◌∙◌, true, false, none, some, List, length, take, arith,
  word, min, leave, loop_leaves, take_all,
}
use zukomp.Buffer.{Buffer, IsValid, bytes, avail_in, avail_out}
use zukomp.Types.{Status, ok, stream_end, is, zu_finish, EncoderOpts, codec_identity, level_default}
use zukomp.Registry.{Registry, registry_lookup}
use zukomp.Stream.Check.{
  resolve, supporting, check_level, copy_encoder_opts, check_buffer, check_flush,
}
use zukomp.Stream.Encoder.{
  Encoder, encoder_new, encoder_process, run_codec, gate, with_vtable, construct, start,
}
use zukomp.Stream.OneShot.{
  Answer, whole, compress_one, given, one_shot, from_handle, answered, answer_of, run_to_end,
  iteration, after_call,
}
use zukomp.Stream.OneShot.Rounds.{arguments_there, whole-IsValid}
use zukomp.Codec.Identity.{identity_vtable, identity_process}
use zukomp.Codec.Identity.Copy.{identity_copies}

abbrev pub identity_opts : EncoderOpts
identity_opts = record {
  struct_size = 16;
  codec = codec_identity;
  level = level_default;
  flags = 0;
}

buffer_passes : (b : Buffer) → IsValid b → check_buffer b ≡ ok
unfolding check_buffer
buffer_passes b v = ground (arith, v.src_in, v.dst_in, v.src_mem, v.dst_mem)

module _ {S : Type 0} where
  abbrev opened : S → Encoder S
  opened s = record {
    vtable = identity_vtable s;
    state = some s;
    opts = copy_encoder_opts identity_opts;
    finished = false;
  }

  new_lem :
      (r : Registry S) (s : S)
      → registry_lookup r codec_identity ≡ some (identity_vtable s)
      → encoder_new r identity_opts true ≡ (ok, some (opened s))
  unfolding encoder_new resolve supporting with_vtable construct start identity_vtable check_level
  new_lem r s e = rw e refl

  gate_open : (s : S) (b : Buffer) → IsValid b → gate (opened s) b zu_finish ≡ none
  unfolding gate check_flush
  gate_open s b v = rw (buffer_passes b v, gate) refl

  process_lem :
      (s : S) (b : Buffer)
      → IsValid b
      → let (st, t, out) = identity_process (some s) b zu_finish in
        encoder_process (opened s) b zu_finish
        ≡ (st, record (opened s) { state = t; finished = is st stream_end }, out)
  unfolding encoder_process run_codec identity_vtable
  process_lem s b v = rw (gate_open s b v, encoder_process) refl

  -- In a registry that has the pass-through codec, for every input and every destination that is no
  -- smaller, of sizes below 2^64: the one-shot encoder answers ZU_OK with the size of the input, and
  -- the destination begins with exactly the input's bytes.
  pub identity_stores :
      (r : Registry S) (s : S) (xs ys : List ℕ)
      → registry_lookup r codec_identity ≡ some (identity_vtable s)
      → length xs ≤ length ys
      → length ys < word
      → (a : Answer) × (compress_one r
            (some identity_opts)
            (some xs)
            (length xs)
            (some ys)
            (length ys)
            true
            true
          ≡ some a)
        × (a.status ≡ ok)
        × (a.written ≡ some (length xs))
        × (take (length xs) (bytes a.dst) ≡ xs)
  unfolding compress_one one_shot given from_handle answered run_to_end iteration after_call
  identity_stores r s xs ys e le lt =
      let b = whole (some xs) (length xs) (some ys) (length ys) in
      let v =
        whole-IsValid (some xs) (some ys) (length xs) (length ys) refl refl (omega arith) lt in
      let there = arguments_there (some xs) (some ys) (length xs) (length ys) refl refl in
      let (copied, taken, put, full, ends, waits) = identity_copies (some s) b zu_finish v in
      let end = ends (omega arith) refl in
      let (st, t, out) = identity_process (some s) b zu_finish in
      let handle = λ (q : Status). record (opened s) { state = t; finished = is q stream_end } in
      let round : iteration encoder_process (opened s, b) ≡ leave (ok, handle stream_end, out) =
        ap (after_call b) (process_lem s b v)
        ∙ ap (λ (q : Status). after_call b (q, handle q, out)) end in
      let stops =
        loop_leaves (length xs + length ys + 1) (iteration encoder_process) (opened s, b)
          (ok, handle stream_end, out) (omega arith) round in
      let size : out.dst_pos ≡ length xs = omega (arith, put) in
      let all : min (avail_in b) (avail_out b) ≡ length xs = omega arith in
      (
        answer_of (ok, handle stream_end, out),
        ap (λ m. from_handle encoder_process m b) (new_lem r s e) ∙ ap answered stops,
        refl,
        ap some size,
        ap (λ n. take n (bytes out.dst)) (sym size)
            ∙ copied
            ∙ ap (λ n. take n xs) all
            ∙ take_all (length xs) xs (omega arith),
      )
