-- ===== src/Codec/Deflate/Process.antt =====
-- src/codec_deflate.c: `deflate_process`, one handler for each stage of the wrapper. An iteration of
-- the loop goes round again with the new state and buffer, or leaves with the status to return.
mod Head
mod Trail
mod Member
unfoldable pub use Head.*
unfoldable pub use Trail.*
unfoldable pub use Member.*
use zukomp.Base.{
  ℕ, ◌+◌, ◌*◌, Bool, true, false, not, Option, none, some, List, [], ◌∷◌, ltb, leb, ◌==◌, ◌&&◌,
  ◌||◌, if◌then◌else◌, get_or, set, length, write, has_bit, add_word, Outcome, again, leave, loop,
}
use zukomp.Buffer.{pass, Buffer, avail_in, avail_out, next_byte, peek, consume, emit, pass}
use zukomp.Types.{
  Status, ok, need_input, need_output, stream_end, err_invalid_argument, err_invalid_data,
  err_truncated, err_trailing, err_internal, is, Process, level_default, zu_flush, zu_finish,
  dec_concat_members, dec_reject_trailing,
}
use zukomp.Gzip.{Header, header_feed}
use zukomp.Codec.Miniz.{
  Code, mz_ok, mz_stream_end, mz_buf_error, Engine, Turn, Flush, no_flush, sync_flush, finish,
}
use zukomp.Codec.Deflate.{
  Deflate, Wrap, raw, gzip, Stage, header, body, trailer, member_end, done, from_mz,
  zlib_check_header, trailer_bytes, check_trailer,
}
use zukomp.Codec.Deflate.Life.{checksum_update, deflate_reset}
use zukomp.Codec.Deflate.{Round, starved, is_gzip, is_raw}

-- `zu_int_to_mz_flush`, and what a decoder's first call makes of ZU_FINISH.
abbrev to_mz_flush : ℕ → Flush
to_mz_flush flush =
    if flush == zu_flush then sync_flush else if flush == zu_finish then finish else no_flush

abbrev first_flush : Bool → Flush → Flush
first_flush true finish = sync_flush
first_flush _ f = f

-- `avail_in` and `avail_out` of miniz are `unsigned int`.
abbrev pub offer : ℕ → ℕ
offer n = if ltb 0x7fffffff n then 0x7fffffff else n

module _ {M : Type 0} (e : Engine M) where
  -- The call of miniz.
  unfoldable pub turn : ℕ → Deflate M → Buffer → Turn M
  turn flush s b =
      let xs = peek b (offer (avail_in b)) in
      let room = offer (avail_out b) in
      if s.encoder
      then e.deflate s.mz xs room (to_mz_flush flush)
      else e.inflate s.mz xs room (first_flush (not s.mz_called) (to_mz_flush flush))

  -- The uncompressed bytes of a call, and the state that has them summed up.
  abbrev pub plain : Deflate M → Buffer → Turn M → List ℕ
  plain s b t = if s.encoder then peek b t.used else t.out

  unfoldable pub counted : Deflate M → Buffer → Turn M → Deflate M
  counted s b t = record s {
    mz = t.stream;
    mz_called = true;
    checksum =
        if is_raw s.wrap then s.checksum else checksum_update e s.wrap s.checksum (plain s b t);
    uncompressed =
        if is_raw s.wrap
        then s.uncompressed
        else add_word s.uncompressed (if s.encoder then t.used else length t.out);
  }

  abbrev pub moved : Buffer → Turn M → Buffer
  moved b t = pass b t.out t.used

  -- MZ_STREAM_END, over the state and the buffer after the call.
  unfoldable pub ended : Deflate M → Buffer → Round M
  ended s b =
      if is_raw s.wrap
      then leave (stream_end, record s { stage = done }, b)
      else again (
        record s {
          tail =
              if s.encoder
              then write s.tail 0 (trailer_bytes s.wrap s.checksum s.uncompressed)
              else s.tail;
          tail_pos = 0;
          stage = trailer;
        },
        b,
      )

  -- Why miniz did not move: `room` is `avail_out` before the call.
  abbrev pub stuck : ℕ → Bool → ℕ → Buffer → Status
  stuck flush encoder room b =
      if room == 0
      then need_output
      else if b.src_pos == b.src_size
      then if not (flush == zu_finish)
        then need_input
        else if encoder
        then err_internal
        else err_invalid_data
      else need_output

  unfoldable pub carry_on : ℕ → ℕ → Bool → Deflate M → Buffer → Round M
  carry_on flush room still s b =
      if still then leave (stuck flush s.encoder room b, s, b) else again (s, b)

  unfoldable pub after_turn : ℕ → ℕ → Bool → Deflate M → Buffer → Code → Round M
  unfolding ended carry_on
  after_turn flush room still s b mz_stream_end = ended s b
  after_turn flush room still s b mz_ok = carry_on flush room still s b
  after_turn flush room still s b mz_buf_error = carry_on flush room still s b
  after_turn flush room still s b mz = leave (from_mz mz, s, b)

  -- ST_BODY
  unfoldable pub in_body : ℕ → Deflate M → Buffer → Round M
  unfolding turn counted after_turn
  in_body flush s b =
      let t = turn flush s b in
      if avail_out b == 0 && s.encoder
      then leave (need_output, s, b)
      else after_turn flush (avail_out b) (t.used == 0 && length t.out == 0) (counted s b t)
          (moved b t) t.result

  unfoldable pub at_stage : Stage → ℕ → Deflate M → Buffer → Round M
  unfolding in_header in_body write_tail read_tail at_member_end
  at_stage header flush s b = in_header e flush s b
  at_stage body flush s b = in_body flush s b
  at_stage trailer flush s b = if s.encoder then write_tail e s b else read_tail e flush s b
  at_stage member_end flush s b = at_member_end e flush s b
  at_stage done flush s b = leave (stream_end, s, b)

  unfoldable pub iteration : ℕ → Deflate M × Buffer → Round M
  unfolding at_stage
  iteration flush (s, b) = at_stage s.stage flush s b

  -- The loop, with as many rounds as it can make: a byte moved can be followed by a whole wrapper.
  unfoldable pub run : Deflate M → Buffer → ℕ → Option (Status × Deflate M × Buffer)
  unfolding iteration
  run s b flush = loop (8 * (avail_in b + avail_out b) + 6) (iteration flush) (s, b)

  -- The loop's answer. The C loop has no bound: none, where the fuel ran out, stands for a call that hangs.
  unfoldable pub returned :
      Deflate M
      → Buffer
      → Option (Status × Deflate M × Buffer)
      → Status × Option (Deflate M) × Buffer
  returned s b none = (err_internal, some s, b)
  returned s b (some (st, s', b')) = (st, some s', b')

  -- `deflate_process`
  unfoldable pub deflate_process : Process (Deflate M)
  unfolding run returned
  deflate_process none b flush = (err_invalid_argument, none, b)
  deflate_process (some s) b flush = returned s b (run s b flush)
