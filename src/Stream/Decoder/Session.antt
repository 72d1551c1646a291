-- ===== src/Stream/Decoder/Session.antt =====
-- A stream over any number of calls, between two resets (src/zu_stream.c).
use zukomp.Base.{ℕ, ◌+◌, ◌-◌, ◌≤◌, ◌<◌, ◌≡◌, refl, ◌∙◌, ap, subst, sym, Option, some, arith, word}
use zukomp.Buffer.{Buffer, IsValid}
use zukomp.Types.{Status, Vtable, Process}
use zukomp.Stream.Check.{call}
use zukomp.Stream.Contract.{KeepsCursors}
use zukomp.Stream.Decoder.{Decoder, ceiling, decoder_process, run_codec, counted, shrunk}
use zukomp.Stream.Decoder.Cap.{
  IsHonest, ceiling_enforced, process_keeps, process_cases, shrunk-IsValid,
}

module _ {S : Type 0} where
  -- `Session d e n`: from the handle `d`, calls with whatever valid buffers and flush modes lead to the
  -- handle `e`, and have delivered `n` bytes in all. No reset is among them.
  pub data Session (d : Decoder S) : Decoder S → ℕ → Type 0 where
    begin : Session d d 0
    calls :
        {e f : Decoder S} {n m : ℕ}
        → Session d e n
        → (buf : Buffer) (flush : ℕ) → IsValid buf
        → f ≡ (decoder_process e buf flush).1
        → m ≡ n + ((decoder_process e buf flush).2.dst_pos - buf.dst_pos)
        → Session d f m

  pub record Within (d e : Decoder S) (limit n : ℕ) : Type 0 where
    pub opts : e.opts ≡ d.opts
    pub vtable : e.vtable ≡ d.vtable
    pub counted : e.total_out ≡ n
    pub below : n ≤ limit

  -- For a handle that has delivered nothing, with a ceiling of 64 bits and a codec that keeps the
  -- cursor contract: however a caller cuts the stream into calls on valid buffers, and whatever
  -- each call answers, the bytes delivered over one stream, that is without a reset, are at most
  -- the ceiling, and the handle's counter is their number.
  pub total_capped :
      (d : Decoder S) (limit : ℕ) (over : Status) {e : Decoder S} {n : ℕ}
      → IsHonest d
      → ceiling d.opts ≡ some (limit, over)
      → limit < word
      → d.total_out ≡ 0
      → Session d e n
      → Within d e limit n
  total_capped d limit over k c lt z begin = record {
    opts = refl;
    vtable = refl;
    counted = z;
    below = omega arith;
  }
  total_capped d limit over k c lt z (calls {e} {f} {n} {m} s buf flush v ef em) =
      let ih = total_capped d limit over k c lt z s in
      let keeps = process_keeps e buf flush in
      let honest : IsHonest e =
        subst (λ (t : Vtable S). KeepsCursors (call t.decoder_process)) (sym ih.vtable) k in
      let capped =
        ceiling_enforced e buf flush limit over honest v (ap ceiling ih.opts ∙ c) lt
          (omega (arith, ih.counted, ih.below)) in
      record {
        opts = ap (λ (t : Decoder S). t.opts) ef ∙ keeps.0 ∙ ih.opts;
        vtable = ap (λ (t : Decoder S). t.vtable) ef ∙ keeps.1 ∙ ih.vtable;
        counted = omega (arith, ap (λ (t : Decoder S). t.total_out) ef, capped.1, ih.counted);
        below = omega (arith, capped.1, capped.2, ih.counted);
      }

  -- A condition on the codec's state that a call over a valid buffer keeps.
  pub record KeepsState (p : Process S) (Fine : Option S → Type 0) : Type 0 where
    pub at : (s : Option S) (b : Buffer) (flush : ℕ) → Fine s → IsValid b → Fine (p s b flush).1

  run_codec-Fine :
      (Fine : Option S → Type 0) (d : Decoder S) (b : Buffer) (flush : ℕ)
      → KeepsState (call d.vtable.decoder_process) Fine
      → Fine d.state
      → IsValid b
      → Fine (run_codec d b flush).1.state
  unfolding run_codec counted
  run_codec-Fine Fine d b flush k h v = k.at d.state (shrunk d b) flush h (shrunk-IsValid d b v)

  -- The codec's state in every handle that calls can lead to.
  pub state_kept :
      (Fine : Option S → Type 0) (d : Decoder S) {e : Decoder S} {n : ℕ}
      → KeepsState (call d.vtable.decoder_process) Fine
      → Fine d.state
      → Session d e n
      → (e.vtable ≡ d.vtable) × Fine e.state
  state_kept Fine d k h begin = (refl, h)
  state_kept Fine d k h (calls {e} {f} {n} {m} s b flush v ef em) =
      let (same, fine) = state_kept Fine d k h s in
      let k' = subst (λ (t : Vtable S). KeepsState (call t.decoder_process) Fine) (sym same) k in
      let keeps = process_keeps e b flush in
      (
        ap (λ (t : Decoder S). t.vtable) ef ∙ keeps.1 ∙ same,
        subst (λ (t : Decoder S). Fine t.state) (sym ef)
            (process_cases (λ r. Fine r.1.state) e b flush (λ st. fine)
              (run_codec-Fine Fine e b flush k' fine v)),
      )
