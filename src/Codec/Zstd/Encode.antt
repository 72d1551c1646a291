-- ===== src/Codec/Zstd/Encode.antt =====
-- src/codec_zstd.c: `zstd_encoder_process`.
pub mod Returns
use zukomp.Base.{
  ℕ, ◌+◌, ◌-◌, Bool, true, false, not, Option, none, some, List, [], ◌∷◌, ◌==◌, ◌&&◌, ◌||◌,
  if◌then◌else◌, length, Outcome, again, leave, loop,
}
use zukomp.Buffer.{Buffer, avail_in, avail_out, peek, pass, scratch}
use zukomp.Types.{
  Status, need_input, need_output, stream_end, err_invalid_argument, err_internal, Process,
  zu_flush, zu_finish,
}
use zukomp.Codec.Libzstd.{Directive, continue, flush, end, Result, failed, value, Turn, Library}
use zukomp.Codec.Zstd.{Zstd, error_status}

abbrev pub directive : ℕ → Directive
directive mode = if mode == zu_finish then end else if mode == zu_flush then flush else continue

abbrev pub is_end : Directive → Bool
is_end end = true
is_end op = false

abbrev pub is_continue : Directive → Bool
is_continue continue = true
is_continue op = false

-- What an iteration makes of the state and the buffer.
abbrev pub Round : Type 0 → Type 0 → Type 0
Round C D = Outcome (Zstd C D × Buffer) (Status × Zstd C D × Buffer)

module _ {C D : Type 0} (z : Library C D) where
  -- After a call that left `r` to flush and moved the cursors from those of `b` to those of `b'`.
  unfoldable pub answered : Directive → Buffer → Bool → Zstd C D → Buffer → ℕ → Round C D
  answered op b still s b' r =
      if is_end op && r == 0
      then leave (stream_end, record s { done = true }, b')
      else if b'.src_pos == b'.src_size && (is_continue op || r == 0)
      then leave (need_input, s, b')
      else if still
      then leave (if avail_out b == 0 then need_output else err_internal, s, b')
      else again (s, b')

  unfoldable pub after_compress : Directive → Zstd C D → Buffer → Turn C → Result → Round C D
  unfolding answered
  after_compress op s b t (failed r) =
      leave
        (error_status s.encoder s.max_output r, record s { cctx = some t.stream }, scratch b t.out)
  after_compress op s b t (value r) =
      answered op b (t.used == 0 && length t.out == 0) (record s { cctx = some t.stream })
        (pass b t.out t.used) r

  unfoldable pub compress : Directive → Zstd C D → Buffer → Turn C → Round C D
  unfolding after_compress
  compress op s b t = after_compress op s b t t.result

  -- An encoder has its context; without one, libzstd would be called through NULL.
  unfoldable pub encode_with : Directive → Zstd C D → Buffer → Option C → Round C D
  unfolding compress
  encode_with op s b none = leave (err_internal, s, b)
  encode_with op s b (some c) =
      compress op s b (z.compress_stream c (peek b (avail_in b)) (avail_out b) op)

  unfoldable pub encode_round : Directive → Zstd C D × Buffer → Round C D
  unfolding encode_with
  encode_round op (s, b) = encode_with op s b s.cctx

  -- The loop: every round that goes on moves a byte.
  unfoldable pub encode_loop : Zstd C D → Buffer → ℕ → Option (Status × Zstd C D × Buffer)
  unfolding encode_round
  encode_loop s b mode = loop (avail_in b + avail_out b + 1) (encode_round (directive mode)) (s, b)

  -- The loop's answer. The C loop has no bound: none, where the fuel ran out, stands for a call that hangs.
  unfoldable pub returned :
      Zstd C D → Buffer → Option (Status × Zstd C D × Buffer) → Status × Option (Zstd C D) × Buffer
  returned s b none = (err_internal, some s, b)
  returned s b (some (st, s', b')) = (st, some s', b')

  -- `zstd_encoder_process`
  unfoldable pub encoder_process : Process (Zstd C D)
  unfolding encode_loop returned
  encoder_process none b mode = (err_invalid_argument, none, b)
  encoder_process (some s) b mode =
      if s.done then (stream_end, some s, b) else returned s b (encode_loop s b mode)
