-- ===== src/Stream/Decoder/Cap.antt =====
-- The shrunken window of `zu_decoder_process` (src/zu_stream.c): a codec that keeps the cursor
-- contract cannot write past the ceiling, whatever it answers.
use zukomp.Base.{
  ℕ, ◌+◌, ◌-◌, ◌≤◌, ◌<◌, ◌≡◌, refl, false, Option, some, arith, Option-cases, inl, inr, word,
}
use zukomp.Buffer.{Buffer, IsValid, Advances, Advances-refl, avail_out}
use zukomp.Types.{Status, DecoderOpts}
use zukomp.Stream.Check.{call}
use zukomp.Stream.Contract.{KeepsCursors}
use zukomp.Stream.Decoder.{
  Decoder, ceiling, window, offered, shrunk, restored, counted, run_codec, decoder_process, gate,
}

pub window_room : (o : DecoderOpts) (total room : ℕ) → (window o total room).allowance ≤ room
unfolding window
window_room o total room = ground arith

window_limit :
    (o : DecoderOpts) (total room limit : ℕ) (over : Status)
    → ceiling o ≡ some (limit, over)
    → total ≤ limit
    → total + (window o total room).allowance ≤ limit
unfolding window
window_limit o total room limit over e h = ground arith

pub window_open :
    (o : DecoderOpts) (total room : ℕ)
    → (window o total room).capped ≡ false
    → (window o total room).allowance ≡ room
unfolding window
window_open o total room h = ground arith

module _ {S : Type 0} where
  pub shrunk-IsValid : (d : Decoder S) (buf : Buffer) → IsValid buf → IsValid (shrunk d buf)
  unfolding shrunk
  shrunk-IsValid d buf v = ground (arith, window_room d.opts d.total_out (avail_out buf))

  -- The room of the shrunken buffer is the allowance.
  pub shrunk_room :
      (d : Decoder S) (buf : Buffer)
      → IsValid buf
      → ((shrunk d buf).dst_size ≡ buf.dst_pos + (offered d buf).allowance)
        × ((shrunk d buf).dst_pos ≡ buf.dst_pos)
        × ((shrunk d buf).src_pos ≡ buf.src_pos)
        × ((shrunk d buf).src_size ≡ buf.src_size)
        × ((shrunk d buf).src ≡ buf.src)
        × ((shrunk d buf).dst ≡ buf.dst)
  unfolding shrunk
  shrunk_room d buf v = ground (arith, window_open d.opts d.total_out (avail_out buf))

  pub restored-Advances :
      (d : Decoder S) (buf out : Buffer)
      → IsValid buf
      → Advances (shrunk d buf) out
      → Advances buf (restored d buf out)
  unfolding shrunk restored
  restored-Advances d buf out v a = record {
    src = ground (arith, a.src);
    src_size = ground (arith, a.src_size);
    dst_size = ground (arith, a.dst_size);
    src_le = ground (arith, a.src_le);
    src_in = ground (arith, a.src_in);
    dst_le = ground (arith, a.dst_le);
    dst_in =
        ground
          (arith, a.dst_in, window_room d.opts d.total_out (avail_out buf), v.dst_in, a.dst_size);
    memory = ground (arith, a.memory);
    kept = ground (arith, a.kept);
  }

  -- The codec that stands behind the handle keeps the cursor contract.
  abbrev pub IsHonest : Decoder S → Type 0
  IsHonest d = KeepsCursors (call d.vtable.decoder_process)

  -- One call: the buffer, the counted output and the room that was left under the ceiling.
  abbrev pub Counts : Decoder S → Buffer → Status × Decoder S × Buffer → Type 0
  Counts d buf (st, e, out) =
      Advances buf out
      × (e.total_out ≡ d.total_out + (out.dst_pos - buf.dst_pos))
      × (e.total_out ≤ d.total_out + (offered d buf).allowance)

  counted_lem :
      (d : Decoder S) (buf out : Buffer) (st : Status) (s : Option S)
      → IsValid buf
      → Advances (shrunk d buf) out
      → d.total_out + (offered d buf).allowance < word
      → ((counted d buf st s out).total_out
          ≡ d.total_out + ((restored d buf out).dst_pos - buf.dst_pos))
        × ((counted d buf st s out).total_out ≤ d.total_out + (offered d buf).allowance)
  unfolding counted restored
  counted_lem d buf out st s v a lt =
      let room = shrunk_room d buf v in
      ground (
        arith,
        room.0,
        room.1,
        a.dst_in,
        a.dst_le,
        a.dst_size,
        v.dst_word,
        window_room d.opts d.total_out (avail_out buf),
      )

  run_codec-Counts :
      (d : Decoder S) (buf : Buffer) (flush : ℕ)
      → IsHonest d
      → IsValid buf
      → d.total_out + (offered d buf).allowance < word
      → Counts d buf (run_codec d buf flush)
  unfolding run_codec
  run_codec-Counts d buf flush k v lt =
      let a = k.at d.state (shrunk d buf) flush (shrunk-IsValid d buf v) in
      let (st, s, out) = call d.vtable.decoder_process d.state (shrunk d buf) flush in
      let (total, bound) = counted_lem d buf out st s v a lt in
      (restored-Advances d buf _ v a, total, bound)

  -- A call is refused with nothing changed, or reaches the codec.
  pub process_cases {κ} :
      (P : Status × Decoder S × Buffer → Type κ) (d : Decoder S) (buf : Buffer) (flush : ℕ)
      → ((st : Status) → P (st, d, buf))
      → P (run_codec d buf flush)
      → P (decoder_process d buf flush)
  unfolding decoder_process
  process_cases P d buf flush refused runs = elim (Option-cases (gate d buf flush)) [
    | inl e ↦ rw (e, decoder_process) runs
    | inr (st, e) ↦ rw (e, decoder_process) (refused st)
  ]

  -- Every call, the refused ones included, on a valid buffer and a codec that keeps the contract.
  pub process-Counts :
      (d : Decoder S) (buf : Buffer) (flush : ℕ)
      → IsHonest d
      → IsValid buf
      → d.total_out + (offered d buf).allowance < word
      → Counts d buf (decoder_process d buf flush)
  process-Counts d buf flush k v lt =
      process_cases (Counts d buf) d buf flush
        (λ st. (Advances-refl buf v, omega arith, omega arith))
        (run_codec-Counts d buf flush k v lt)

  -- For a valid buffer, a codec that keeps the cursor contract, and a handle whose total is at or
  -- below a ceiling of 64 bits: on every outcome, an error too, the call moves the cursors forward
  -- within the caller's buffer and leaves what was written before, counts exactly the bytes that
  -- it delivers, and leaves the total at or below the ceiling.
  pub ceiling_enforced :
      (d : Decoder S) (buf : Buffer) (flush limit : ℕ) (over : Status)
      → IsHonest d
      → IsValid buf
      → ceiling d.opts ≡ some (limit, over)
      → limit < word
      → d.total_out ≤ limit
      → let (st, e, out) = decoder_process d buf flush in
        Advances buf out
        × (e.total_out ≡ d.total_out + (out.dst_pos - buf.dst_pos))
        × (e.total_out ≤ limit)
  ceiling_enforced d buf flush limit over k v e lt h =
      let bound = window_limit d.opts d.total_out (avail_out buf) limit over e h in
      let (a, total, within) = process-Counts d buf flush k v (omega arith) in
      (a, total, omega arith)

  run_codec_keeps :
      (d : Decoder S) (buf : Buffer) (flush : ℕ)
      → ((run_codec d buf flush).1.opts ≡ d.opts) × ((run_codec d buf flush).1.vtable ≡ d.vtable)
  unfolding run_codec counted
  run_codec_keeps d buf flush = (refl, refl)

  pub process_keeps :
      (d : Decoder S) (buf : Buffer) (flush : ℕ)
      → ((decoder_process d buf flush).1.opts ≡ d.opts)
        × ((decoder_process d buf flush).1.vtable ≡ d.vtable)
  process_keeps d buf flush =
      process_cases (λ r. (r.1.opts ≡ d.opts) × (r.1.vtable ≡ d.vtable)) d buf flush
        (λ st. (refl, refl)) (run_codec_keeps d buf flush)
