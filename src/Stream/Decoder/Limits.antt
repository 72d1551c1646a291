-- ===== src/Stream/Decoder/Limits.antt =====
-- The limits that `zu_decoder_process` (src/zu_stream.c) enforces whatever the codec does.
use native.Mathlib.Nat.{le-div_iff_mul-le}
use zukomp.Base.{
  ℕ, zero, suc, ◌*◌, ◌/◌, ◌≤◌, ◌<◌, ◌≡◌, ◌≢◌, ◌↔◌, refl, Option, true, false, arith, ltb, word,
  size_max,
}
use zukomp.Buffer.{Buffer}
use zukomp.Types.{Status, stream_end, code, is}
use zukomp.Stream.Check.{check_buffer, check_flush, call}
use zukomp.Stream.Decoder.{
  Decoder, Window, expects, ratio_allowance, exceeds_ratio, verdict, run_codec, decoder_process,
  rejects_trailing, offered, window, ceiling, counted, shrunk,
}

quotient_test : (a b : ℕ) → (b ≤ size_max / suc a) ↔ (b * suc a ≤ size_max)
quotient_test a b = le-div_iff_mul-le (omega arith)

-- For a ratio that is set and a counter of the output that fits 64 bits: the ratio test, whose product is
-- taken modulo 2^64, passes exactly where the output is at most the input times max_ratio as whole
-- numbers, so an overflow of the product never turns into a pass or a failure.
pub ratio_test :
    (total_in total_out max_ratio : ℕ)
    → max_ratio ≢ 0
    → total_out < word
    → (ltb (ratio_allowance total_in max_ratio) total_out ≡ false)
      ↔ (total_out ≤ total_in * max_ratio)
unfolding ratio_allowance
ratio_test total_in total_out zero h lt = absurd (h refl)
ratio_test zero total_out (suc r) h lt = grind arith
ratio_test (suc i) total_out (suc r) h lt = ground (arith, quotient_test r (suc i))

-- What holds of a handle whose last call was not refused.
pub record WithinLimits {S : Type 0} (d : Decoder S) : Type 0 where
  pub output : d.opts.max_output ≢ 0 → d.total_out ≤ d.opts.max_output
  pub expected : expects d.opts ≡ true → d.total_out ≤ d.opts.expected_size
  pub ratio : d.opts.max_ratio ≢ 0 → d.total_out ≤ d.total_in * d.opts.max_ratio

module _ {S : Type 0} where
  verdict_limits :
      (d : Decoder S) (w : Window) (st : Status) (produced : ℕ) (buf : Buffer)
      → d.total_out < word
      → 3 < code w.over
      → code (verdict d w st produced buf) ≤ 3
      → WithinLimits d
  unfolding verdict exceeds_ratio
  verdict_limits d w st produced buf lt over h = record {
    output = λ n. ground arith;
    expected = λ e. ground arith;
    ratio = λ n. ground (arith, ratio_test d.total_in d.total_out d.opts.max_ratio n lt);
  }

  window_over : (d : Decoder S) (buf : Buffer) → 3 < code (offered d buf).over
  unfolding window ceiling
  window_over d buf = ground arith

  counted_lt :
      (d : Decoder S) (buf out : Buffer) (st : Status) (s : Option S)
      → (counted d buf st s out).total_out < word
  unfolding counted
  counted_lt d buf out st s = omega arith

  run_codec_limits :
      (d : Decoder S) (buf : Buffer) (flush : ℕ)
      → code (run_codec d buf flush).0 ≤ 3
      → WithinLimits (run_codec d buf flush).1
  unfolding run_codec
  run_codec_limits d buf flush h =
      let (st, s, out) = call d.vtable.decoder_process d.state (shrunk d buf) flush in
      verdict_limits (counted d buf st s out) (offered d buf) _ _ _ (counted_lt d buf out st s)
        (window_over d buf) h

  -- For every codec, also one that ignores the windows that it is offered: after a call that is not
  -- refused, on a stream that had not ended, the counted output is at most max_output where that is
  -- set, at most the expected size where that is set, and at most max_ratio times the counted input
  -- where that is set.
  pub limits_enforced :
      (d : Decoder S) (buf : Buffer) (flush : ℕ)
      → d.finished ≡ false
      → code (decoder_process d buf flush).0 ≤ 3
      → WithinLimits (decoder_process d buf flush).1
  unfolding decoder_process check_buffer check_flush
  limits_enforced d buf flush f h = ground (arith, run_codec_limits d buf flush)

  verdict_end :
      (d : Decoder S) (w : Window) (st : Status) (produced : ℕ) (buf : Buffer)
      → 3 < code w.over
      → verdict d w st produced buf ≡ stream_end
      → (is st stream_end ≡ true)
        × (expects d.opts ≡ true → d.total_out ≡ d.opts.expected_size)
        × (rejects_trailing d.opts ≡ true → buf.src_size ≤ buf.src_pos)
  unfolding verdict
  verdict_end d w st produced buf over h = (ground arith, λ e. ground arith, λ e. ground arith)

  run_codec_end :
      (d : Decoder S) (buf : Buffer) (flush : ℕ)
      → (run_codec d buf flush).0 ≡ stream_end
      → let (st, e, out) = run_codec d buf flush in
        (e.finished ≡ true)
        × (expects e.opts ≡ true → e.total_out ≡ e.opts.expected_size)
        × (rejects_trailing e.opts ≡ true → out.src_size ≤ out.src_pos)
  unfolding run_codec
  run_codec_end d buf flush h =
      let ends = verdict_end _ (offered d buf) _ _ _ (window_over d buf) h in
      (ground (arith, ends.0), ends.1, ends.2)

  -- Where a call on a stream that had not ended answers ZU_STREAM_END: the handle is finished, the
  -- counted output is exactly the expected size where one is set, and where trailing bytes are
  -- rejected all of the input on offer has been taken.
  pub end_reported :
      (d : Decoder S) (buf : Buffer) (flush : ℕ)
      → d.finished ≡ false
      → (decoder_process d buf flush).0 ≡ stream_end
      → let (st, e, out) = decoder_process d buf flush in
        (e.finished ≡ true)
        × (expects e.opts ≡ true → e.total_out ≡ e.opts.expected_size)
        × (rejects_trailing e.opts ≡ true → out.src_size ≤ out.src_pos)
  unfolding decoder_process check_buffer check_flush
  end_reported d buf flush f h = ground (arith, run_codec_end d buf flush)
