-- ===== src/Stream/Encoder.antt =====
-- src/zu_stream.c: encoder handles. A handle is the state beside the status; what a call leaves
-- unset is none.
pub mod Handle
use zukomp.Base.{
  ℕ, Bool, false, not, Option, none, some, ltb, ◌==◌, ◌&&◌, ◌||◌, if◌then◌else◌, has_bit, or_else,
}
use zukomp.Buffer.{Buffer}
use zukomp.Types.{
  Status, ok, stream_end, err_invalid_argument, err_unsupported, err_memory, is, Vtable,
  EncoderOpts, encoder_opts_required, can_encode, can_flush, zu_flush,
}
use zukomp.Registry.{Registry}
use zukomp.Stream.Check.{check_buffer, check_flush, check_level, resolve, call, copy_encoder_opts}

-- `struct zu_encoder`
pub record Encoder (S : Type 0) : Type 0 where
  pub vtable : Vtable S
  pub state : Option S
  pub opts : EncoderOpts
  pub finished : Bool

module _ {S : Type 0} where
  unfoldable pub start : Vtable S → EncoderOpts → Status × Option S → Status × Option (Encoder S)
  start v o (st, s) =
      if not (is st ok)
      then (st, none)
      else (ok, some (record { vtable = v; state = s; opts = o; finished = false }))

  -- From the resolved vtable on. `mem` says whether `calloc` succeeds.
  unfoldable pub construct :
      Vtable S
      → EncoderOpts
      → Option (EncoderOpts → Status × Option S)
      → Status × Option (Encoder S)
  construct v o none = (err_unsupported, none)
  construct v o (some f) = start v o (f o)

  unfoldable pub with_vtable : Vtable S → EncoderOpts → Bool → Status × Option (Encoder S)
  with_vtable v o mem =
      if not (is (check_level v o.level) ok)
      then (check_level v o.level, none)
      else if not mem
      then (err_memory, none)
      else construct v (copy_encoder_opts o) v.encoder_new

  -- `zu_encoder_new`
  unfoldable pub encoder_new : Registry S → EncoderOpts → Bool → Status × Option (Encoder S)
  unfolding with_vtable construct start
  encoder_new r o mem =
      if ltb o.struct_size encoder_opts_required
      then (err_invalid_argument, none)
      else elim (resolve r o.codec can_encode).1 [
        | none ↦ ((resolve r o.codec can_encode).0, none)
        | some v ↦ with_vtable v o mem
      ]

  unfoldable pub run_codec : Encoder S → Buffer → ℕ → Status × Encoder S × Buffer
  run_codec e buf flush =
      let (st, s, buf') = call e.vtable.encoder_process e.state buf flush in
      (st, record e { state = s; finished = e.finished || is st stream_end }, buf')

  -- The early returns; none where the call reaches the codec.
  unfoldable pub gate : Encoder S → Buffer → ℕ → Option Status
  gate e buf flush =
      if not (is (check_buffer buf) ok)
      then some (check_buffer buf)
      else if not (is (check_flush flush) ok)
      then some (check_flush flush)
      else if e.finished
      then some (if ltb buf.src_pos buf.src_size then err_invalid_argument else stream_end)
      else if flush == zu_flush && not (has_bit e.vtable.flags can_flush)
      then some err_unsupported
      else none

  -- `zu_encoder_process`
  unfoldable pub encoder_process : Encoder S → Buffer → ℕ → Status × Encoder S × Buffer
  unfolding gate
  encoder_process e buf flush = elim (gate e buf flush) [
    | some st ↦ (st, e, buf)
    | none ↦ run_codec e buf flush
  ]

  restart : Encoder S → EncoderOpts → Status × Option S → Status × Encoder S
  restart e o (st, s) =
      if not (is st ok)
      then (st, record e { state = s })
      else (ok, record e { state = s; opts = o; finished = false })

  -- `zu_encoder_reset`: none is NULL, the options that the handle has.
  pub encoder_reset : Encoder S → Option EncoderOpts → Status × Encoder S
  unfolding restart
  encoder_reset e opts =
      let given = or_else opts e.opts in
      let o = copy_encoder_opts given in
      if ltb given.struct_size encoder_opts_required
      then (err_invalid_argument, e)
      else if not (o.codec == e.opts.codec)
      then (err_invalid_argument, e)
      else if not (is (check_level e.vtable o.level) ok)
      then (check_level e.vtable o.level, e)
      else elim e.vtable.encoder_reset [
        | none ↦ (err_unsupported, e)
        | some f ↦ restart e o (f e.state o)
      ]
