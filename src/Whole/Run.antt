-- ===== src/Whole/Run.antt =====
-- src/zu_whole.c: the drive loop. R's ownership of the handle and the check for an interrupt stay out;
-- `live` is the count of live sinks. `fuel` bounds the rounds: the C loop has no bound of its own.
pub mod Contract
pub mod Returns
pub mod Decoding
use zukomp.Base.{
  ℕ, ◌+◌, ◌-◌, ◌*◌, ◌%◌, Bool, true, false, not, Option, none, some, List, [], ◌++◌, take, drop,
  ltb, leb, ◌==◌, ◌&&◌, ◌||◌, if◌then◌else◌, add_word, Outcome, again, leave, loop,
}
use zukomp.Base.Int.{ℤ}
use zukomp.Buffer.{Buffer, bytes}
use zukomp.Types.{
  Status, ok, need_input, need_output, stream_end, err_invalid_argument, err_internal, is, zu_run,
  zu_flush, zu_finish, EncoderOpts, DecoderOpts, encoder_opts_size, decoder_opts_size,
}
use zukomp.Registry.{Registry}
use zukomp.Stream.Encoder.{Encoder, encoder_new, encoder_process}
use zukomp.Stream.Decoder.{Decoder, decoder_new, decoder_process}
use zukomp.Whole.{Outbuf, reserve}

-- `zu_int_run_opts`
pub record RunOpts : Type 0 where
  pub src : List ℕ
  pub n : ℕ
  pub encode : Bool
  pub codec : ℕ
  pub level : ℤ
  pub max_output : ℕ
  pub max_ratio : ℕ
  pub dec_flags : ℕ
  pub expected_size : ℕ
  pub in_chunk : ℕ
  pub out_chunk : ℕ
  pub flush_every : ℕ

-- The buffer as `memset` leaves it.
abbrev pub nothing : Buffer
nothing = record { src = none; src_size = 0; src_pos = 0; dst = none; dst_size = 0; dst_pos = 0 }

-- What the loop carries from round to round.
pub record Drive (H : Type 0) : Type 0 where
  pub handle : H
  pub out : Outbuf
  pub live : ℕ
  pub buf : Buffer
  pub fed : ℕ
  pub calls : ℕ

-- What the loop leaves: the status, the sink, `consumed` and the count of live sinks. Where the code returns before
-- the loop, `consumed` stays the 0 that the caller's `memset` made it.
pub record Report : Type 0 where
  pub status : Status
  pub out : Outbuf
  pub consumed : ℕ
  pub live : ℕ

abbrev pub slice : RunOpts → ℕ → ℕ
slice r fed = if ltb r.in_chunk (r.n - fed) then r.in_chunk else r.n - fed

-- The next slice, once the one before is spent.
unfoldable pub refill : {H : Type 0} → RunOpts → Drive H → Drive H
refill r d =
    if d.buf.src_pos == d.buf.src_size && ltb d.fed r.n
    then record d {
      buf = record d.buf { src = some (drop d.fed r.src); src_size = slice r d.fed; src_pos = 0 };
      fed = d.fed + slice r d.fed;
    }
    else d

abbrev pub mode_of : RunOpts → Bool → ℕ → ℕ
mode_of r last calls =
    if last
    then zu_finish
    else if ltb 0 r.flush_every && (add_word calls 1 % r.flush_every == 0)
    then zu_flush
    else zu_run

-- The room behind what the sink has used.
abbrev pub over_sink : RunOpts → Outbuf → Buffer → Buffer
over_sink r o b = record b {
  dst = some (drop o.used (bytes o.buf));
  dst_size = r.out_chunk;
  dst_pos = 0;
}

-- The sink after a call that left `b`.
abbrev pub advanced : Outbuf → Buffer → Outbuf
advanced o b = record o {
  buf = some (take o.used (bytes o.buf) ++ bytes b.dst);
  used = o.used + b.dst_pos;
}

abbrev pub report : Status → Outbuf → ℕ → ℕ → Buffer → Report
report st o live fed b = record {
  status = st;
  out = o;
  consumed = fed - (b.src_size - b.src_pos);
  live = live;
}

-- What the loop makes of a call's answer.
unfoldable pub judged : {H : Type 0} → Bool → Drive H → Status → Outcome (Drive H) Report
judged last d st =
    if is st stream_end
    then leave (report st d.out d.live d.fed d.buf)
    else if not (is st ok) && not (is st need_input) && not (is st need_output)
    then leave (report st d.out d.live d.fed d.buf)
    else if d.buf.dst_pos == 0 && last && is st need_input
    then leave (report err_internal d.out d.live d.fed d.buf)
    else again d

unfoldable pub called :
    {H : Type 0} → RunOpts → Drive H → Status × H × Buffer → Outcome (Drive H) Report
unfolding judged
called r d (st, h, b) =
    judged (leb r.n d.fed)
      (record d { handle = h; out = advanced d.out b; buf = b; calls = add_word d.calls 1 }) st

module _ {H : Type 0} (process : H → Buffer → ℕ → Status × H × Buffer)
    (realloc : Option (List ℕ) → ℕ → Option (List ℕ)) (r : RunOpts) where
  unfoldable pub reserved : Drive H → Status × Outbuf × ℕ → Outcome (Drive H) Report
  unfolding called
  reserved d (st, o, live) =
      if not (is st ok)
      then leave (report st o live d.fed d.buf)
      else called r (record d { out = o; live = live })
          (process d.handle (over_sink r o d.buf) (mode_of r (leb r.n d.fed) d.calls))

  unfoldable pub stocked : Drive H → Outcome (Drive H) Report
  unfolding reserved
  stocked d = reserved d (reserve realloc d.out r.out_chunk d.live)

  unfoldable pub drive_round : Drive H → Outcome (Drive H) Report
  unfolding refill stocked
  drive_round d = stocked (refill r d)

  abbrev pub at_start : H → Outbuf → ℕ → Drive H
  at_start h o live = record { handle = h; out = o; live = live; buf = nothing; fed = 0; calls = 0 }

  -- From the handle on.
  unfoldable pub drive : ℕ → Outbuf → ℕ → Status × Option H → Option Report
  unfolding drive_round
  drive fuel o live (st, none) = some (record { status = st; out = o; consumed = 0; live = live })
  drive fuel o live (st, some h) = loop fuel drive_round (at_start h o live)

module _ {S : Type 0} (registry : Registry S)
    (realloc : Option (List ℕ) → ℕ → Option (List ℕ)) where
  -- `zu_int_run_whole`. `mem` says whether the handle's `calloc` succeeds.
  unfoldable pub run_whole : ℕ → Bool → RunOpts → Outbuf → ℕ → Option Report
  unfolding drive
  run_whole fuel mem r o live =
      if r.in_chunk == 0 || r.out_chunk == 0
      then some (record { status = err_invalid_argument; out = o; consumed = 0; live = live })
      else if r.encode
      then drive encoder_process realloc r fuel o live (
          encoder_new registry
            (record {
              struct_size = encoder_opts_size;
              codec = r.codec;
              level = r.level;
              flags = 0;
            })
            mem)
      else drive decoder_process realloc r fuel o live (
          decoder_new registry
            (record {
              struct_size = decoder_opts_size;
              codec = r.codec;
              max_output = r.max_output;
              max_ratio = r.max_ratio;
              flags = r.dec_flags;
              expected_size = r.expected_size;
            })
            mem)
