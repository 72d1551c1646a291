-- ===== src/Codec/Lz4/Block.antt =====
-- src/codec_lz4.c: the decoder of lz4-block. The input is gathered until ZU_FINISH and
-- decoded at once.
pub mod Gather
use zukomp.Base.{
  ℕ, ◌+◌, ◌-◌, Bool, true, false, not, Option, none, some, List, [], take, ltb, leb, ◌==◌, ◌&&◌,
  ◌||◌, ◌++◌, if◌then◌else◌, write, has_bit, drop,
}
use zukomp.Buffer.{Buffer, avail_in, avail_out, bytes, peek, emit, consume, scratch, map_bytes}
use zukomp.Types.{
  Status, ok, need_input, need_output, stream_end, err_invalid_argument, err_invalid_data,
  err_memory, err_output_limit, err_internal, is, zu_finish, DecoderOpts, dec_expected_size,
  Process, level_default,
}
use zukomp.Size.{add, grow}
use zukomp.Codec.Lz4.{Liblz4, Lz4, Answer, drain, clear, stage, search, target, written, int_max}

-- `LZ4_MAX_INPUT_SIZE`
abbrev pub max_input : ℕ
max_input = 2113929216

-- `lz4b_decoder_new`, after its `calloc`.
unfoldable pub decoder_new : Bool → DecoderOpts → Status × Option Lz4
decoder_new false o = (err_memory, none)
decoder_new true o = (
  ok,
  some (record {
    encoder = false;
    level = level_default;
    stage = none;
    stage_cap = 0;
    stage_len = 0;
    stage_pos = 0;
    input = none;
    in_cap = 0;
    in_len = 0;
    done = false;
    max_output = o.max_output;
    has_expected = has_bit o.flags dec_expected_size;
    expected = o.expected_size;
  }),
)

abbrev pub limited_by : Lz4 → Option DecoderOpts → Lz4
limited_by s none = s
limited_by s (some o) = record s {
  max_output = o.max_output;
  has_expected = has_bit o.flags dec_expected_size;
  expected = o.expected_size;
}

-- `lz4b_decoder_reset`
unfoldable pub decoder_reset : Option Lz4 → Option DecoderOpts → Status × Option Lz4
decoder_reset none o = (err_invalid_argument, none)
decoder_reset (some s) o = (ok, some (clear (limited_by s o)))

module _ (realloc : Option (List ℕ) → ℕ → Option (List ℕ)) where
  unfoldable pub enlarged : Lz4 → ℕ → Option (List ℕ) → Status × Lz4
  enlarged s next none = (err_memory, s)
  enlarged s next (some bigger) = (ok, record s { input = some bigger; in_cap = next })

  unfoldable pub to_capacity : Lz4 → Status × Option ℕ → Status × Lz4
  unfolding enlarged
  to_capacity s (st, none) = (st, s)
  to_capacity s (st, some next) = enlarged s next (realloc s.input next)

  -- The `memcpy` behind what was gathered.
  unfoldable pub appended : Buffer → Status × Lz4 → Status × Lz4 × Buffer
  appended b (st, s) = if not (is st ok) then (st, s, b) else (
    ok,
    record s {
      input = map_bytes (λ xs. write xs s.in_len (peek b (avail_in b))) s.input;
      in_len = s.in_len + avail_in b;
    },
    consume b (avail_in b),
  )

  unfoldable pub summed : Lz4 → Buffer → Status × Option ℕ → Status × Lz4 × Buffer
  unfolding to_capacity appended
  summed s b (st, none) = (st, s, b)
  summed s b (st, some need) =
      if ltb max_input need
      then ((if s.encoder then err_invalid_argument else err_invalid_data), s, b)
      else appended b
          (if ltb s.in_cap need then to_capacity s (grow s.in_cap (need - s.in_cap)) else (ok, s))

  -- `zu_int_lz4b_gather`
  unfoldable pub gather : Lz4 → Buffer → Status × Lz4 × Buffer
  unfolding summed
  gather s b = if avail_in b == 0 then (ok, s, b) else summed s b (add s.in_len (avail_in b))

unfoldable pub drained : Bool × Lz4 × Buffer → Status × Lz4 × Buffer
drained (t, s, b) = ((if t then stream_end else need_output), s, b)

-- The end of `lz4b_decoder_process`: `len` bytes are staged, and the input is freed.
unfoldable pub settled : Lz4 → ℕ → Buffer → Status × Lz4 × Buffer
unfolding drained
settled s len b = drained (
    drain
      (record s {
        stage_len = len;
        stage_pos = 0;
        done = true;
        input = none;
        in_cap = 0;
        in_len = 0;
      })
      b)

-- What `LZ4_decompress_safe` leaves in the caller's window.
abbrev pub overwritten : Buffer → List ℕ → Buffer
overwritten b d = record b { dst = map_bytes (λ xs. take b.dst_pos xs ++ d) b.dst }

unfoldable pub judged : Lz4 → Buffer → Option ℕ × List ℕ → Status × Lz4 × Buffer
judged s b (none, d) = (err_invalid_data, s, overwritten b d)
judged s b (some r, d) = if not (r == s.expected) then (err_invalid_data, s, overwritten b d) else (
  stream_end,
  record s { done = true },
  record (overwritten b d) { src_pos = b.src_pos + avail_in b; dst_pos = b.dst_pos + s.expected },
)

unfoldable pub matched : Buffer → Option ℕ × Lz4 → Status × Lz4 × Buffer
unfolding settled
matched b (none, s) = (err_invalid_data, s, b)
matched b (some r, s) =
    if not (r == s.expected) then (err_invalid_data, s, b) else settled s s.expected b

-- The search's answer; none, which `search_ends` excludes, is an internal error.
unfoldable pub found : Lz4 → Buffer → Option Answer → Status × Lz4 × Buffer
unfolding settled
found s b none = (err_internal, s, b)
found s b (some (st, none, t)) = (st, t, b)
found s b (some (st, some got, t)) = if not (is st ok) then (st, t, b) else settled t got b

module _ (lib : Liblz4) (realloc : Option (List ℕ) → ℕ → Option (List ℕ)) where
  -- Straight into the caller's window.
  unfoldable pub one_shot : Lz4 → Buffer → Status × Lz4 × Buffer
  unfolding judged
  one_shot s b =
      if avail_in b == 0 || ltb max_input (avail_in b)
      then (err_invalid_data, s, b)
      else judged s b
          (lib.decompress_safe (peek b (avail_in b)) (drop b.dst_pos (bytes b.dst)) s.expected)

  unfoldable pub staged_exactly : Buffer → Status × Lz4 → Status × Lz4 × Buffer
  unfolding matched
  staged_exactly b (st, s) =
      if not (is st ok)
      then (st, s, b)
      else let (r, d) =
          lib.decompress_safe (take s.in_len (bytes s.input)) (target s s.expected) s.expected in
        matched b (r, written s s.expected d)

  unfoldable pub exactly : Status × Lz4 × Buffer → Status × Lz4 × Buffer
  unfolding staged_exactly
  exactly (st, s, b) =
      if not (is st ok)
      then (st, s, b)
      else if s.in_len == 0
      then (err_invalid_data, s, b)
      else staged_exactly b (stage realloc s s.expected)

  unfoldable pub searched : Status × Lz4 × Buffer → Status × Lz4 × Buffer
  unfolding found
  searched (st, s, b) =
      if not (is st ok)
      then (st, s, b)
      else if s.in_len == 0
      then (err_invalid_data, s, b)
      else found s b (search lib realloc s)

  unfoldable pub of_expected : Lz4 → Buffer → Status × Lz4 × Buffer
  unfolding one_shot exactly
  of_expected s b =
      if not (s.max_output == 0) && ltb s.max_output s.expected
      then (err_output_limit, s, b)
      else if ltb int_max s.expected
      then (err_invalid_data, s, b)
      else if s.in_len == 0 && leb s.expected (avail_out b)
      then one_shot s b
      else exactly (gather realloc s b)

  unfoldable pub collected : Status × Lz4 × Buffer → Status × Lz4 × Buffer
  collected (st, s, b) = ((if not (is st ok) then st else need_input), s, b)

  unfoldable pub decode : Lz4 → Buffer → ℕ → Status × Lz4 × Buffer
  unfolding drained collected of_expected searched
  decode s b flush =
      if s.done
      then drained (drain s b)
      else if not (flush == zu_finish)
      then collected (gather realloc s b)
      else if s.has_expected
      then of_expected s b
      else searched (gather realloc s b)

  -- `lz4b_decoder_process`
  unfoldable pub decoder_process : Process Lz4
  unfolding decode
  decoder_process none b flush = (err_invalid_argument, none, b)
  decoder_process (some s) b flush = let (st, t, c) = decode s b flush in (st, some t, c)
