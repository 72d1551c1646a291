-- ===== src/Stream/OneShot/Decompress.antt =====
-- `zu_decompress_one` (src/zu_stream.c) from end to end.
use zukomp.Base.{
  ℕ, ◌+◌, ◌-◌, ◌≤◌, ◌<◌, ◌≡◌, ◌≢◌, ◌⊎◌, inr, refl, ap, sym, ◌∙◌, subst, Bool, true, false, Option,
  none, some, List, length, arith, word,
}
use zukomp.Buffer.{Buffer, IsValid, Advances, Advances-IsValid, bytes, avail_out}
use zukomp.Types.{
  Status, ok, err_invalid_argument, err_unsupported, err_invalid_data, err_truncated, err_checksum,
  err_trailing, err_memory, err_output_limit, err_ratio_limit, err_internal, need_input,
  need_output, stream_end, code, is, zu_finish, Vtable, DecoderOpts,
}
use zukomp.Registry.{Registry, registry_lookup}
use zukomp.Stream.Check.{call, copy_decoder_opts}
use zukomp.Stream.Contract.{KeepsCursors}
use zukomp.Stream.Decoder.{Decoder, expects, rejects_trailing, decoder_new, decoder_process}
use zukomp.Stream.Decoder.Limits.{limits_enforced, end_reported}
use zukomp.Stream.Decoder.Cap.{IsHonest, process-Counts, process_keeps, window_room}
use zukomp.Stream.Decoder.Handle.{
  process_running, process-Advances, IsDecoder, Made, decoder_new-Made,
}
use zukomp.Stream.OneShot.{
  Answer, whole, run_to_end, given, decompress_one, one_shot, from_handle, answer_of, answered,
}
use zukomp.Stream.OneShot.Rounds.{arguments_there, whole-IsValid, run_to_end-Returned}

is-stream_end : (st : Status) → is st stream_end ≡ true → st ≡ stream_end
is-stream_end ok e = absurd (ground arith)
is-stream_end need_input e = absurd (ground arith)
is-stream_end need_output e = absurd (ground arith)
is-stream_end stream_end e = refl
is-stream_end err_invalid_argument e = absurd (ground arith)
is-stream_end err_unsupported e = absurd (ground arith)
is-stream_end err_invalid_data e = absurd (ground arith)
is-stream_end err_truncated e = absurd (ground arith)
is-stream_end err_checksum e = absurd (ground arith)
is-stream_end err_trailing e = absurd (ground arith)
is-stream_end err_memory e = absurd (ground arith)
is-stream_end err_output_limit e = absurd (ground arith)
is-stream_end err_ratio_limit e = absurd (ground arith)
is-stream_end err_internal e = absurd (ground arith)

-- What the options promise of a stream that ended with the cursors of `b`.
pub record Delivered (o : DecoderOpts) (b : Buffer) : Type 0 where
  pub output : o.max_output ≢ 0 → b.dst_pos ≤ o.max_output
  pub expected : expects o ≡ true → b.dst_pos ≡ o.expected_size
  pub trailing : rejects_trailing o ≡ true → b.src_size ≤ b.src_pos

-- What the caller is left with, where `zu_decoder_new` gave `made` and the loop starts from `first`: with
-- ZU_OK, there is a handle, and the loop over it left the buffer `b`.
pub record Decompressed {S : Type 0} (o : DecoderOpts) (made : Status × Option (Decoder S))
    (first : Buffer) (a : Answer) : Type 0 where
  pub status : a.status ≡ ok ⊎ 3 < code a.status
  pub memory : length (bytes a.dst) ≡ length (bytes first.dst)
  pub size : (w : ℕ) × (a.written ≡ some w) × (w ≤ length (bytes first.dst))
  pub good :
      a.status ≡ ok
      → (d : Decoder S) × (e : Decoder S) × (b : Buffer) × (made ≡ (ok, some d))
        × (run_to_end decoder_process d first ≡ some (ok, e, b))
        × (a ≡ answer_of (ok, e, b))
        × (b.src_size ≡ first.src_size)
        × Delivered o b

module _ {S : Type 0} where
  -- A handle in the one-shot loop: its stream has not ended, and its counter is the buffer's cursor.
  record Running (o : DecoderOpts) (d : Decoder S) (b : Buffer) : Type 0 where
    honest : IsHonest d
    valid : IsValid b
    total : d.total_out ≡ b.dst_pos
    running : d.finished ≡ false
    opts : d.opts ≡ o

  moves :
      (o : DecoderOpts) (d : Decoder S) (b : Buffer)
      → Running o d b
      → Advances b (decoder_process d b zu_finish).2
  moves o d b i = process-Advances d b zu_finish i.honest i.valid

  counts :
      (o : DecoderOpts) (d : Decoder S) (b : Buffer)
      → Running o d b
      → let (st, e, out) = decoder_process d b zu_finish in
        (b.dst_pos ≤ out.dst_pos) × (e.total_out ≡ d.total_out + (out.dst_pos - b.dst_pos))
  counts o d b i =
      let room = window_room d.opts d.total_out (avail_out b) in
      let counted =
        process-Counts d b zu_finish i.honest i.valid
          (omega (arith, room, i.total, i.valid.dst_in, i.valid.dst_word)) in
      (counted.0.dst_le, counted.1)

  goes_on :
      (o : DecoderOpts) (d : Decoder S) (b : Buffer)
      → Running o d b
      → code (decoder_process d b zu_finish).0 < 3
      → let r = decoder_process d b zu_finish in Running o (r.1) (r.2)
  goes_on o d b i h =
      let keeps = process_keeps d b zu_finish in
      record {
        honest =
            subst (λ (t : Vtable S). KeepsCursors (call t.decoder_process)) (sym keeps.1) i.honest;
        valid = Advances-IsValid i.valid (moves o d b i);
        total = omega (arith, (counts o d b i).0, (counts o d b i).1, i.total);
        running = process_running d b zu_finish i.running h;
        opts = keeps.0 ∙ i.opts;
      }

  ends :
      (o : DecoderOpts) (d : Decoder S) (b : Buffer)
      → Running o d b
      → is (decoder_process d b zu_finish).0 stream_end ≡ true
      → Delivered o (decoder_process d b zu_finish).2
  ends o d b i h =
      let keeps = process_keeps d b zu_finish in
      let end = is-stream_end (decoder_process d b zu_finish).0 h in
      let limits = limits_enforced d b zu_finish i.running (ground arith) in
      let (finished, expected, trailing) = end_reported d b zu_finish i.running end in
      let total : (decoder_process d b zu_finish).1.total_out
          ≡ (decoder_process d b zu_finish).2.dst_pos =
        omega (arith, (counts o d b i).0, (counts o d b i).1, i.total) in
      subst (λ (p : DecoderOpts). Delivered p (decoder_process d b zu_finish).2) (keeps.0 ∙ i.opts)
        (record {
          output = λ n.
              subst (λ m. m ≤ (decoder_process d b zu_finish).1.opts.max_output) total
                (limits.output n);
          expected = λ e. sym total ∙ expected e;
          trailing = trailing;
        })

  loop_answer :
      (o : DecoderOpts) (first : Buffer) (d : Decoder S)
      → Running o d first
      → (a : Answer) × (from_handle decoder_process (ok, some d) first ≡ some a)
        × Decompressed o (ok, some d) first a
  unfolding from_handle answered
  loop_answer o first d i =
      let ((st, e, b), returns, (moved, status, good)) =
        run_to_end-Returned decoder_process (Running o) (λ e b. Delivered o b) (moves o) (goes_on o)
          (ends o) first d i i.valid in
      (
        answer_of (st, e, b),
        ap answered returns,
        record {
          status = status;
          memory = moved.memory;
          size = (b.dst_pos, refl, omega (arith, moved.dst_in, moved.dst_size, i.valid.dst_mem));
          good = λ z. (
            d,
            e,
            b,
            refl,
            returns ∙ ap (λ (c : Status). some (c, e, b)) z,
            ap (λ (c : Status). answer_of (c, e, b)) z,
            moved.src_size,
            good z,
          );
        },
      )

  handle_answer :
      (o : DecoderOpts) (first : Buffer) (made : Status × Option (Decoder S))
      → Made o made
      → IsValid first
      → first.dst_pos ≡ 0
      → first.dst_size ≡ length (bytes first.dst)
      → (a : Answer) × (from_handle decoder_process made first ≡ some a)
        × Decompressed o made first a
  unfolding from_handle
  handle_answer o first (st, none) error v z full = (
    record { status = st; written = some 0; dst = first.dst },
    refl,
    record {
      status = inr error;
      memory = refl;
      size = (0, refl, omega arith);
      good = λ e. absurd (omega (arith, ap code e));
    },
  )
  handle_answer o first (st, some d) (e, fresh) v z full =
      subst
        (λ s.
          (a : Answer) × (from_handle decoder_process (s, some d) first ≡ some a)
          × Decompressed o (s, some d) first a)
        (sym e)
        (loop_answer o first d record {
          honest = fresh.decoder.process;
          valid = v;
          total = fresh.no_output ∙ sym z;
          running = fresh.running;
          opts = fresh.opts;
        })

  -- Where every codec of the registry keeps the cursor contract and its constructor answers ZU_OK
  -- or an error, the one-shot decoder returns, on every input and destination of sizes below 2^64:
  -- ZU_OK or an error, never a request for input or room, with a size within the destination. With
  -- ZU_OK, the size is the output cursor of the buffer that the loop over the handle left, at most
  -- max_output where that is set and exactly the expected size where that is set; and where trailing
  -- bytes are rejected, that buffer's input cursor is at the end of the input.
  pub decompress_returns :
      (r : Registry S) (o : DecoderOpts) (src dst : Option (List ℕ)) (n cap : ℕ) (mem : Bool)
      → ((v : Vtable S) → registry_lookup r o.codec ≡ some v → IsDecoder v)
      → length (bytes src) ≡ n
      → length (bytes dst) ≡ cap
      → n < word
      → cap < word
      → (a : Answer) × (decompress_one r (some o) src n dst cap true mem ≡ some a)
        × Decompressed (copy_decoder_opts o) (decoder_new r o mem) (whole src n dst cap) a
  unfolding decompress_one one_shot given
  decompress_returns r o src dst n cap mem k hn hcap ln lcap =
      let there = arguments_there src dst n cap hn hcap in
      let v = whole-IsValid src dst n cap hn hcap ln lcap in
      let (a, returns, sound) =
        handle_answer (copy_decoder_opts o) (whole src n dst cap) (decoder_new r o mem)
          (decoder_new-Made r o mem k) v refl (sym hcap) in
      (a, rw there returns, sound)
