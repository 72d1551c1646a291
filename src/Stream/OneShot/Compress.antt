-- ===== src/Stream/OneShot/Compress.antt =====
-- `zu_compress_one` (src/zu_stream.c) from end to end.
use zukomp.Base.{
  ℕ, ◌≤◌, ◌<◌, ◌≡◌, ◌⊎◌, inr, refl, ap, sym, subst, Bool, true, Option, none, some, List, length,
  arith, word,
}
use zukomp.Buffer.{Buffer, IsValid, Advances, Advances-IsValid, bytes}
use zukomp.Types.{Status, ok, stream_end, code, is, zu_finish, Vtable, EncoderOpts}
use zukomp.Registry.{Registry, registry_lookup}
use zukomp.Stream.Check.{call}
use zukomp.Stream.Contract.{KeepsCursors}
use zukomp.Stream.Encoder.{Encoder, encoder_new, encoder_process}
use zukomp.Stream.Encoder.Handle.{
  IsHonest, IsEncoder, Made, process-Advances, process_keeps, encoder_new-Made,
}
use zukomp.Stream.OneShot.{
  Answer, whole, compress_one, given, one_shot, from_handle, answered, answer_of,
}
use zukomp.Stream.OneShot.Rounds.{arguments_there, whole-IsValid, run_to_end-Returned}

-- What the caller is left with.
pub record Compressed (cap : ℕ) (a : Answer) : Type 0 where
  pub status : a.status ≡ ok ⊎ 3 < code a.status
  pub memory : length (bytes a.dst) ≡ cap
  pub size : (w : ℕ) × (a.written ≡ some w) × (w ≤ cap)

module _ {S : Type 0} where
  record Running (e : Encoder S) (b : Buffer) : Type 0 where
    honest : IsHonest e
    valid : IsValid b

  abbrev Finished : Encoder S → Buffer → Type 0
  Finished e b = e.finished ≡ true

  moves : (e : Encoder S) (b : Buffer) → Running e b → Advances b (encoder_process e b zu_finish).2
  moves e b i = process-Advances e b zu_finish i.honest i.valid

  goes_on :
      (e : Encoder S) (b : Buffer)
      → Running e b
      → code (encoder_process e b zu_finish).0 < 3
      → let r = encoder_process e b zu_finish in Running (r.1) (r.2)
  goes_on e b i h = record {
    honest =
        subst (λ (t : Vtable S). KeepsCursors (call t.encoder_process))
          (sym (process_keeps e b zu_finish).0) i.honest;
    valid = Advances-IsValid i.valid (moves e b i);
  }

  ends :
      (e : Encoder S) (b : Buffer)
      → Running e b
      → is (encoder_process e b zu_finish).0 stream_end ≡ true
      → let r = encoder_process e b zu_finish in Finished (r.1) (r.2)
  ends e b i h = (process_keeps e b zu_finish).1 h

  loop_answer :
      (first : Buffer) (e : Encoder S)
      → Running e first
      → (a : Answer) × (from_handle encoder_process (ok, some e) first ≡ some a)
        × Compressed (length (bytes first.dst)) a
  unfolding from_handle answered
  loop_answer first e i =
      let ((st, e', b), returns, (moved, status, good)) =
        run_to_end-Returned encoder_process Running Finished moves goes_on ends first e i i.valid in
      (
        answer_of (st, e', b),
        ap answered returns,
        record {
          status = status;
          memory = moved.memory;
          size = (b.dst_pos, refl, omega (arith, moved.dst_in, moved.dst_size, i.valid.dst_mem));
        },
      )

  handle_answer :
      (first : Buffer) (made : Status × Option (Encoder S))
      → Made made
      → IsValid first
      → (a : Answer) × (from_handle encoder_process made first ≡ some a)
        × Compressed (length (bytes first.dst)) a
  unfolding from_handle
  handle_answer first (st, none) error v = (
    record { status = st; written = some 0; dst = first.dst },
    refl,
    record { status = inr error; memory = refl; size = (0, refl, omega arith) },
  )
  handle_answer first (st, some e) (started, encoder, fresh) v =
      subst
        (λ s.
          (a : Answer) × (from_handle encoder_process (s, some e) first ≡ some a)
          × Compressed (length (bytes first.dst)) a)
        (sym started) (loop_answer first e record { honest = encoder.process; valid = v })

  -- Where every codec of the registry keeps the cursor contract and its constructor answers ZU_OK
  -- or an error, the one-shot encoder returns, on every input and destination of sizes below 2^64:
  -- ZU_OK or an error, never a request for input or room, with a size within the destination,
  -- whose length is unchanged.
  pub compress_returns :
      (r : Registry S) (o : EncoderOpts) (src dst : Option (List ℕ)) (n cap : ℕ) (mem : Bool)
      → ((v : Vtable S) → registry_lookup r o.codec ≡ some v → IsEncoder v)
      → length (bytes src) ≡ n
      → length (bytes dst) ≡ cap
      → n < word
      → cap < word
      → (a : Answer) × (compress_one r (some o) src n dst cap true mem ≡ some a) × Compressed cap a
  unfolding compress_one one_shot given
  compress_returns r o src dst n cap mem k hn hcap ln lcap =
      let there = arguments_there src dst n cap hn hcap in
      let v = whole-IsValid src dst n cap hn hcap ln lcap in
      let (a, returns, sound) =
        handle_answer (whole src n dst cap) (encoder_new r o mem) (encoder_new-Made r o mem k) v in
      (a, rw there returns, subst (λ m. Compressed m a) hcap sound)
