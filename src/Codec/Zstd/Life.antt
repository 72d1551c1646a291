-- ===== src/Codec/Zstd/Life.antt =====
-- src/codec_zstd.c: making and resetting the two directions, and the bound.
use zukomp.Base.{ℕ, Bool, true, false, not, ◌&&◌, Option, none, some, [], ◌==◌, if◌then◌else◌}
use zukomp.Base.Int.{ℤ, pos, eq_ℤ}
use zukomp.Types.{
  Status, ok, err_invalid_argument, err_memory, err_internal, is, level_default, EncoderOpts,
  DecoderOpts,
}
use zukomp.Frames.{frames_init, zstd, body}
use zukomp.Codec.Libzstd.{Result, failed, value, Library}
use zukomp.Codec.Zstd.{Zstd, set_window, set_level, is_error}

-- As `calloc` leaves it: the frame state's zeros are those of a zstd stream in its body.
abbrev pub blank : {C D : Type 0} → Zstd C D
blank = record {
  encoder = false;
  cctx = none;
  dctx = none;
  level = pos 0;
  max_output = 0;
  frames = record { state = body; kind = zstd; flags = 0; held = []; owed = none };
  done = false;
}

module _ {C D : Type 0} (z : Library C D) where
  flagged : Zstd C D → Result × C → Status × Option (Zstd C D)
  flagged s (r, c) =
      if is_error r then (err_internal, none) else (ok, some (record s { cctx = some c }))

  with_checksum : Status × Zstd C D → Status × Option (Zstd C D)
  unfolding flagged
  with_checksum (st, s) =
      if not (is st ok)
      then (st, none)
      else elim s.cctx [ none ↦ (err_internal, none) | some c ↦ flagged s (z.checksum_flag c) ]

  -- `zstd_encoder_new`. `mem` says whether `calloc` succeeds.
  unfoldable pub encoder_new : Bool → EncoderOpts → Status × Option (Zstd C D)
  unfolding with_checksum
  encoder_new mem o = if not mem then (err_memory, none) else elim z.create_cctx [
    | none ↦ (err_memory, none)
    | some c ↦
        with_checksum (set_level z (record blank { encoder = true; cctx = some c }) c o.level)
  ]

  unfoldable pub kept : Status × Zstd C D → Status × Option (Zstd C D)
  kept (st, s) = if not (is st ok) then (st, none) else (ok, some s)

  -- `zstd_decoder_new`
  unfoldable pub decoder_new : Bool → DecoderOpts → Status × Option (Zstd C D)
  unfolding kept
  decoder_new mem o = if not mem then (err_memory, none) else elim z.create_dctx [
    | none ↦ (err_memory, none)
    | some d ↦ kept (
        set_window z
          (record blank {
            dctx = some d;
            max_output = o.max_output;
            frames = frames_init zstd o.flags;
          })
          d)
  ]

  ready : Status × Zstd C D → Status × Zstd C D
  ready (st, s) = if not (is st ok) then (st, s) else (ok, record s { done = false })

  relevelled : Zstd C D → EncoderOpts → Result × C → Status × Zstd C D
  unfolding ready
  relevelled s o (r, c) =
      let s' = record s { cctx = some c } in
      if is_error r
      then (err_internal, s')
      else if not (eq_ℤ o.level level_default) && not (eq_ℤ o.level s.level)
      then ready (set_level z s' c o.level)
      else (ok, record s' { done = false })

  encoder_restart : Zstd C D → EncoderOpts → Option C → Status × Zstd C D
  unfolding relevelled
  encoder_restart s o none = (err_invalid_argument, s)
  encoder_restart s o (some c) = relevelled s o (z.reset_cctx c)

  -- `zstd_encoder_reset`, none where the state is NULL.
  unfoldable pub encoder_reset : Option (Zstd C D) → EncoderOpts → Status × Option (Zstd C D)
  unfolding encoder_restart
  encoder_reset none o = (err_invalid_argument, none)
  encoder_reset (some s) o = let (st, s') = encoder_restart s o s.cctx in (st, some s')

  rewindowed : Zstd C D → DecoderOpts → Result × D → Status × Zstd C D
  rewindowed s o (r, d) =
      if is_error r
      then (err_internal, record s { dctx = some d })
      else set_window z
          (record s { dctx = some d; max_output = o.max_output; frames = frames_init zstd o.flags })
          d

  decoder_restart : Zstd C D → DecoderOpts → Option D → Status × Zstd C D
  unfolding rewindowed
  decoder_restart s o none = (err_invalid_argument, s)
  decoder_restart s o (some d) = rewindowed s o (z.reset_dctx d)

  -- `zstd_decoder_reset`
  unfoldable pub decoder_reset : Option (Zstd C D) → DecoderOpts → Status × Option (Zstd C D)
  unfolding decoder_restart
  decoder_reset none o = (err_invalid_argument, none)
  decoder_reset (some s) o = let (st, s') = decoder_restart s o s.dctx in (st, some s')

  bound_of : Result → Status × Option ℕ
  bound_of (failed r) = (err_invalid_argument, none)
  bound_of (value b) = if b == 0 then (err_invalid_argument, none) else (ok, some b)

  -- `zstd_bound`
  unfoldable pub zstd_bound : ℤ → ℕ → Status × Option ℕ
  unfolding bound_of
  zstd_bound level n = bound_of (z.compress_bound n)
