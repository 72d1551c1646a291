-- ===== src/Stream/OneShot.antt =====
-- src/zu_stream.c: the one-shot functions, which run the streaming driver over a fixed buffer. An answer
-- is the status, `*written` and the destination's memory; `*written` is none where it was not set.
pub mod Rounds
pub mod Decompress
pub mod Compress
pub mod Stored
use zukomp.Base.{
  ℕ, zero, suc, ◌+◌, Bool, true, false, not, Option, none, some, List, ◌==◌, ◌&&◌, ◌||◌,
  if◌then◌else◌, is_none, Outcome, again, leave, loop,
}
use zukomp.Base.Int.{ℤ}
use zukomp.Buffer.{Buffer}
use zukomp.Types.{
  Status, ok, need_input, need_output, stream_end, err_invalid_argument, err_unsupported,
  err_output_limit, err_internal, is, zu_finish, Vtable, EncoderOpts, DecoderOpts, can_encode,
}
use zukomp.Registry.{Registry}
use zukomp.Stream.Check.{resolve, check_level}
use zukomp.Stream.Encoder.{Encoder, encoder_new, encoder_process}
use zukomp.Stream.Decoder.{Decoder, decoder_new, decoder_process}

pub record Answer : Type 0 where
  pub status : Status
  pub written : Option ℕ
  pub dst : Option (List ℕ)

-- The buffer over the caller's two arrays.
abbrev pub whole : Option (List ℕ) → ℕ → Option (List ℕ) → ℕ → Buffer
whole src n dst cap = record {
  src = src;
  src_size = n;
  src_pos = 0;
  dst = dst;
  dst_size = cap;
  dst_pos = 0;
}

module _ {H : Type 0} where
  -- What the loop makes of a call that was given `b`.
  unfoldable pub after_call :
      Buffer → Status × H × Buffer → Outcome (H × Buffer) (Status × H × Buffer)
  after_call b (st, h, b') =
      if is st stream_end
      then leave (ok, h, b')
      else if not (is st ok) && not (is st need_input) && not (is st need_output)
      then leave (st, h, b')
      else if is st need_output && b'.dst_pos == b'.dst_size
      then leave (err_output_limit, h, b')
      else if b'.dst_pos == b.dst_pos && b'.src_pos == b.src_pos
      then leave (err_internal, h, b')
      else again (h, b')

module _ {H : Type 0} (process : H → Buffer → ℕ → Status × H × Buffer) where
  unfoldable pub iteration : H × Buffer → Outcome (H × Buffer) (Status × H × Buffer)
  iteration (h, b) = after_call b (process h b zu_finish)

  -- The loop, with one round more than it can make.
  unfoldable pub run_to_end : H → Buffer → Option (Status × H × Buffer)
  run_to_end h b = loop (b.src_size + b.dst_size + 1) iteration (h, b)

abbrev pub answer_of : {H : Type 0} → Status × H × Buffer → Answer
answer_of (st, h, b) = record { status = st; written = some b.dst_pos; dst = b.dst }

answered : {H : Type 0} → Option (Status × H × Buffer) → Option Answer
answered none = none
answered (some r) = some (answer_of r)

-- From the handle on: `zu_encoder_new` or `zu_decoder_new` gave `made`.
from_handle :
    {H : Type 0}
    → (H → Buffer → ℕ → Status × H × Buffer)
    → Status × Option H
    → Buffer
    → Option Answer
from_handle process (st, none) b = some (record { status = st; written = some 0; dst = b.dst })
from_handle process (st, some h) b = answered (run_to_end process h b)

-- What `zu_encoder_new` and `zu_decoder_new` answer for their options, which they refuse as NULL.
unfoldable pub given : {O H : Type 0} → (O → Status × Option H) → Option O → Status × Option H
given new none = (err_invalid_argument, none)
given new (some o) = new o

-- `zu_int_one_shot`: `out` says whether `written` is a pointer. None only where the loop's fuel ran out.
one_shot :
    {H : Type 0}
    → (H → Buffer → ℕ → Status × H × Buffer)
    → Status × Option H
    → Option (List ℕ)
    → ℕ
    → Option (List ℕ)
    → ℕ
    → Bool
    → Option Answer
one_shot process made src n dst cap out =
    if not out || is_none src && not (n == 0) || is_none dst && not (cap == 0)
    then some (record { status = err_invalid_argument; written = none; dst = dst })
    else from_handle process made (whole src n dst cap)

module _ {S : Type 0} where
  -- `zu_compress_one`, where `mem` says whether `calloc` succeeds.
  pub compress_one :
      Registry S
      → Option EncoderOpts
      → Option (List ℕ)
      → ℕ
      → Option (List ℕ)
      → ℕ
      → Bool
      → Bool
      → Option Answer
  unfolding one_shot from_handle answered given
  compress_one r o src n dst cap out mem =
      one_shot encoder_process (given (λ p. encoder_new r p mem) o) src n dst cap out

  -- `zu_decompress_one`
  pub decompress_one :
      Registry S
      → Option DecoderOpts
      → Option (List ℕ)
      → ℕ
      → Option (List ℕ)
      → ℕ
      → Bool
      → Bool
      → Option Answer
  unfolding one_shot from_handle answered given
  decompress_one r o src n dst cap out mem =
      one_shot decoder_process (given (λ p. decoder_new r p mem) o) src n dst cap out

  bounded : Option (Vtable S) → ℤ → ℕ → Status → Status × Option ℕ
  bounded none level n st = (st, none)
  bounded (some v) level n st =
      if not (is (check_level v level) ok)
      then (check_level v level, none)
      else elim v.bound [ none ↦ (err_unsupported, none) | some f ↦ f level n ]

  -- `zu_compress_bound`, and what it stores at `out`.
  pub compress_bound : Registry S → ℕ → ℤ → ℕ → Bool → Status × Option ℕ
  unfolding bounded
  compress_bound r codec level n out =
      if not out
      then (err_invalid_argument, none)
      else bounded (resolve r codec can_encode).1 level n (resolve r codec can_encode).0
