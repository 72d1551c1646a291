-- ===== src/Codec/Zstd/Decode.antt =====
-- src/codec_zstd.c: `zstd_decoder_process`, over the continuation policy of src/zu_frames.c.
pub mod Rounds
pub mod Returns
pub mod Owed
use zukomp.Base.{
  ℕ, zero, suc, ◌+◌, ◌-◌, ◌*◌, Bool, true, false, not, Option, none, some, List, [], ◌∷◌, ◌==◌,
  ◌&&◌, if◌then◌else◌, length, Outcome, again, leave, loop,
}
use zukomp.Buffer.{Buffer, avail_in, avail_out, peek, pass, scratch}
use zukomp.Types.{
  Status, ok, is, need_input, need_output, stream_end, err_invalid_argument, err_internal, Process,
}
use zukomp.Frames.{
  Frames, FrameState, body, between, done, Probe, frames_pay, frames_between, frames_stalled,
  frames_ended,
}
use zukomp.Codec.Libzstd.{Result, failed, value, Turn, Library}
use zukomp.Codec.Zstd.{Zstd, error_status}
use zukomp.Codec.Zstd.Encode.{Round, returned}

abbrev pub in_body : FrameState → Bool
in_body body = true
in_body st = false

abbrev pub first : List ℕ → Option ℕ
first [] = none
first (x ∷ xs) = some x

module _ {C D : Type 0} (z : Library C D) where
  -- `zstd_feed_held`: no room, and all of the bytes.
  fed : Bool → ℕ → ℕ → Turn D → Result → Status × D
  fed encoder max_output n t (failed r) = (error_status encoder max_output r, t.stream)
  fed encoder max_output n t (value r) = (if t.used == n then ok else err_internal, t.stream)

  unfoldable pub feed_held : Bool → ℕ → D → List ℕ → Status × D
  unfolding fed
  feed_held encoder max_output d p =
      let t = z.decompress_stream d p 0 in fed encoder max_output (length p) t t.result

  probe_of : Bool → ℕ → Turn D → Result → Probe D
  probe_of encoder max_output t (failed r) = record {
    status = error_status encoder max_output r;
    ctx = t.stream;
    byte = none;
    frame_end = false;
  }
  probe_of encoder max_output t (value r) = record {
    status = ok;
    ctx = t.stream;
    byte = first t.out;
    frame_end = r == 0;
  }

  -- `zstd_probe`: one byte of room, and no input.
  unfoldable pub probe : Bool → ℕ → D → Probe D
  unfolding probe_of
  probe encoder max_output d =
      let t = z.decompress_stream d [] 1 in probe_of encoder max_output t t.result

  -- Between frames.
  unfoldable pub resumed : Zstd C D → Status × Frames × Buffer × D → Round C D
  resumed s (st, f, b, d) =
      let s' = record s { frames = f; dctx = some d } in
      if not (is st ok) then leave (st, s', b) else again (s', b)

  unfoldable pub unstalled : Zstd C D → Buffer → Status × Frames × D → Round C D
  unstalled s b (st, f, d) =
      let s' = record s { frames = f; dctx = some d } in
      if not (is st ok) then leave (st, s', b) else again (s', b)

  -- After a call from `b` that moved the cursors to those of `b'`: 0 is the end of a frame.
  unfoldable pub decoded : ℕ → Zstd C D → D → Buffer → Bool → Buffer → ℕ → Round C D
  unfolding unstalled
  decoded flush s d b still b' zero =
      again (record s { frames = frames_ended s.frames; dctx = some d }, b')
  decoded flush s d b still b' (suc r) =
      if still
      then unstalled s b' (
          frames_stalled s.frames (avail_in b) (avail_out b) flush (probe s.encoder s.max_output) d)
      else again (record s { dctx = some d }, b')

  unfoldable pub after_decompress : ℕ → Zstd C D → Buffer → Turn D → Result → Round C D
  unfolding decoded
  after_decompress flush s b t (failed r) =
      leave
        (error_status s.encoder s.max_output r, record s { dctx = some t.stream }, scratch b t.out)
  after_decompress flush s b t (value r) =
      decoded flush s t.stream b (t.used == 0 && length t.out == 0) (pass b t.out t.used) r

  unfoldable pub decompress : ℕ → Zstd C D → Buffer → Turn D → Round C D
  unfolding after_decompress
  decompress flush s b t = after_decompress flush s b t t.result

  unfoldable pub paid : ℕ → Zstd C D → D → Bool × Frames × Buffer → Round C D
  unfolding resumed decompress
  paid flush s d (may, f, b) =
      let s' = record s { frames = f } in
      if not may
      then leave (need_output, s', b)
      else if not (in_body f.state)
      then resumed s' (frames_between f b flush (feed_held s.encoder s.max_output) d)
      else decompress flush s' b (z.decompress_stream d (peek b (avail_in b)) (avail_out b))

  -- A decoder has its context; without one, libzstd would be called through NULL.
  unfoldable pub decode_with : ℕ → Zstd C D → Buffer → Option D → Round C D
  unfolding paid
  decode_with flush s b none = leave (err_internal, s, b)
  decode_with flush s b (some d) = paid flush s d (frames_pay s.frames b)

  unfoldable pub decode_round : ℕ → Zstd C D × Buffer → Round C D
  unfolding decode_with
  decode_round flush (s, b) = decode_with flush s b s.dctx

  unfoldable pub decode_loop : Zstd C D → Buffer → ℕ → Option (Status × Zstd C D × Buffer)
  unfolding decode_round
  decode_loop s b flush = loop (8 * (avail_in b + avail_out b) + 8) (decode_round flush) (s, b)

  -- `zstd_decoder_process`
  unfoldable pub decoder_process : Process (Zstd C D)
  unfolding decode_loop
  decoder_process none b flush = (err_invalid_argument, none, b)
  decoder_process (some s) b flush = returned z s b (decode_loop s b flush)
