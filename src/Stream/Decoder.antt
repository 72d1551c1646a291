-- ===== src/Stream/Decoder.antt =====
-- src/zu_stream.c: decoder handles, and the limits that the driver enforces.
pub mod Limits
pub mod Cap
pub mod Session
pub mod Handle
pub mod States
pub mod Reset
use zukomp.Base.{
  ℕ, ◌+◌, ◌-◌, ◌*◌, ◌/◌, ◌%◌, word, Bool, true, false, not, Option, none, some, ltb, leb, ◌==◌,
  ◌&&◌, ◌||◌, if◌then◌else◌, has_bit, or_else, add_word, sub_word, size_max,
}
use zukomp.Buffer.{Buffer, avail_out}
use zukomp.Types.{
  Status, ok, need_output, stream_end, err_invalid_argument, err_unsupported, err_memory,
  err_invalid_data, err_trailing, err_output_limit, err_ratio_limit, is, Vtable, DecoderOpts,
  can_decode, can_flush, zu_flush, dec_reject_trailing, dec_expected_size,
}
use zukomp.Registry.{Registry}
use zukomp.Stream.Check.{
  check_buffer, check_flush, check_dec_opts, resolve, call, copy_decoder_opts,
}

-- `struct zu_decoder`
pub record Decoder (S : Type 0) : Type 0 where
  pub vtable : Vtable S
  pub state : Option S
  pub opts : DecoderOpts
  pub finished : Bool
  pub total_in : ℕ
  pub total_out : ℕ

abbrev pub expects : DecoderOpts → Bool
expects o = has_bit o.flags dec_expected_size

abbrev pub rejects_trailing : DecoderOpts → Bool
rejects_trailing o = has_bit o.flags dec_reject_trailing

-- The output ceiling and what crossing it means; none where there is no ceiling.
unfoldable pub ceiling : DecoderOpts → Option (ℕ × Status)
ceiling o =
    if expects o && (o.max_output == 0 || leb o.expected_size o.max_output)
    then some (o.expected_size, err_invalid_data)
    else if not (o.max_output == 0)
    then some (o.max_output, err_output_limit)
    else none

-- The window that the codec is offered.
pub record Window : Type 0 where
  pub allowance : ℕ
  pub capped : Bool
  pub over : Status

unfoldable pub cap_to : ℕ → ℕ × Status → ℕ → Window
cap_to total_out (limit, over) room =
    let remaining = if ltb total_out limit then limit - total_out else 0 in
    record {
      allowance = if ltb remaining room then remaining else room;
      capped = ltb remaining room;
      over = over;
    }

unfoldable pub window : DecoderOpts → ℕ → ℕ → Window
unfolding cap_to
window o total_out room = elim (ceiling o) [
  | none ↦ record { allowance = room; capped = false; over = err_output_limit }
  | some c ↦ cap_to total_out c room
]

-- The output that `total_in` bytes of input allow under `max_ratio`, in 64 bits.
unfoldable pub ratio_allowance : ℕ → ℕ → ℕ
ratio_allowance total_in max_ratio =
    if total_in == 0
    then 0
    else if ltb (size_max / max_ratio) total_in
    then size_max
    else total_in * max_ratio % word

module _ {S : Type 0} where
  unfoldable pub exceeds_ratio : Decoder S → Bool
  exceeds_ratio d =
      not (d.opts.max_ratio == 0)
      && ltb 0 d.total_out
      && ltb (ratio_allowance d.total_in d.opts.max_ratio) d.total_out

  -- What the driver answers for the codec's status, over the handle with its totals brought forward
  -- and the buffer with the caller's view restored.
  unfoldable pub verdict : Decoder S → Window → Status → ℕ → Buffer → Status
  unfolding exceeds_ratio
  verdict d w st produced buf =
      if is st stream_end && expects d.opts && not (d.total_out == d.opts.expected_size)
      then err_invalid_data
      else if is st stream_end && ltb buf.src_pos buf.src_size && rejects_trailing d.opts
      then err_trailing
      else if w.capped && is st need_output && produced == w.allowance
      then w.over
      else if w.capped && w.allowance == 0 && not (is st stream_end) && ltb buf.src_pos buf.src_size
      then w.over
      else if not (d.opts.max_output == 0) && ltb d.opts.max_output d.total_out
      then err_output_limit
      else if expects d.opts && ltb d.opts.expected_size d.total_out
      then err_invalid_data
      else if not (is st err_output_limit) && exceeds_ratio d
      then err_ratio_limit
      else st

  abbrev pub offered : Decoder S → Buffer → Window
  offered d buf = window d.opts d.total_out (avail_out buf)

  -- The caller's buffer with the destination that the codec may use.
  unfoldable pub shrunk : Decoder S → Buffer → Buffer
  shrunk d buf =
      let w = offered d buf in
      if w.capped then record buf { dst_size = buf.dst_pos + w.allowance } else buf

  unfoldable pub restored : Decoder S → Buffer → Buffer → Buffer
  restored d buf out =
      if (offered d buf).capped then record out { dst_size = buf.dst_size } else out

  -- The handle after the codec returned: the counters are 64 bits wide and so are the differences.
  unfoldable pub counted : Decoder S → Buffer → Status → Option S → Buffer → Decoder S
  counted d buf st s out = record d {
    state = s;
    finished = d.finished || is st stream_end;
    total_in = add_word d.total_in (sub_word out.src_pos buf.src_pos);
    total_out = add_word d.total_out (sub_word out.dst_pos buf.dst_pos);
  }

  unfoldable pub run_codec : Decoder S → Buffer → ℕ → Status × Decoder S × Buffer
  unfolding shrunk restored counted
  run_codec d buf flush =
      let (st, s, out) = call d.vtable.decoder_process d.state (shrunk d buf) flush in
      let d' = counted d buf st s out in
      let back = restored d buf out in
      (verdict d' (offered d buf) st (sub_word out.dst_pos buf.dst_pos) back, d', back)

  -- The early returns; none where the call reaches the codec.
  unfoldable pub gate : Decoder S → Buffer → ℕ → Option Status
  gate d buf flush =
      if not (is (check_buffer buf) ok)
      then some (check_buffer buf)
      else if not (is (check_flush flush) ok)
      then some (check_flush flush)
      else if d.finished
      then some (
          if ltb buf.src_pos buf.src_size && rejects_trailing d.opts
          then err_trailing
          else stream_end)
      else if flush == zu_flush && not (has_bit d.vtable.flags can_flush)
      then some err_unsupported
      else none

  -- `zu_decoder_process`
  unfoldable pub decoder_process : Decoder S → Buffer → ℕ → Status × Decoder S × Buffer
  unfolding gate
  decoder_process d buf flush = elim (gate d buf flush) [
    | some st ↦ (st, d, buf)
    | none ↦ run_codec d buf flush
  ]

  unfoldable pub start : Vtable S → DecoderOpts → Status × Option S → Status × Option (Decoder S)
  start v o (st, s) = if not (is st ok) then (st, none) else (
    ok,
    some
        (record { vtable = v; state = s; opts = o; finished = false; total_in = 0; total_out = 0 }),
  )

  unfoldable pub construct :
      Vtable S
      → DecoderOpts
      → Option (DecoderOpts → Status × Option S)
      → Status × Option (Decoder S)
  construct v o none = (err_unsupported, none)
  construct v o (some f) = start v o (f o)

  unfoldable pub with_vtable : Vtable S → DecoderOpts → Bool → Status × Option (Decoder S)
  with_vtable v o mem =
      if not mem then (err_memory, none) else construct v (copy_decoder_opts o) v.decoder_new

  -- `zu_decoder_new`. `mem` says whether `calloc` succeeds.
  unfoldable pub decoder_new : Registry S → DecoderOpts → Bool → Status × Option (Decoder S)
  unfolding with_vtable construct start
  decoder_new r o mem =
      if not (is (check_dec_opts o) ok)
      then (err_invalid_argument, none)
      else elim (resolve r o.codec can_decode).1 [
        | none ↦ ((resolve r o.codec can_decode).0, none)
        | some v ↦ with_vtable v o mem
      ]

  restart : Decoder S → DecoderOpts → Status × Option S → Status × Decoder S
  restart d o (st, s) =
      if not (is st ok)
      then (st, record d { state = s })
      else (ok, record d { state = s; opts = o; finished = false; total_in = 0; total_out = 0 })

  reset_by :
      Decoder S
      → DecoderOpts
      → Option (Option S → DecoderOpts → Status × Option S)
      → Status × Decoder S
  reset_by d o none = (err_unsupported, d)
  reset_by d o (some f) = restart d o (f d.state o)

  -- `zu_decoder_reset`: none is NULL, the options that the handle has.
  pub decoder_reset : Decoder S → Option DecoderOpts → Status × Decoder S
  unfolding reset_by restart
  decoder_reset d opts =
      let given = or_else opts d.opts in
      let o = copy_decoder_opts given in
      if not (is (check_dec_opts given) ok)
      then (err_invalid_argument, d)
      else if not (o.codec == d.opts.codec)
      then (err_invalid_argument, d)
      else reset_by d o d.vtable.decoder_reset
