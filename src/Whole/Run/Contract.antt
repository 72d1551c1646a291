-- ===== src/Whole/Run/Contract.antt =====
-- src/zu_whole.c: what the drive loop asks of a call and of its caller, and what it reports.
use zukomp.Base.{ℕ, ◌+◌, ◌-◌, ◌≤◌, ◌<◌, ◌≡◌, ◌⊎◌, true, length, word}
use zukomp.Buffer.{Buffer, IsValid, Advances, avail_out}
use zukomp.Types.{Status, need_input, is, code}
use zukomp.Whole.{Outbuf}
use zukomp.Whole.Reserve.{IsValid as ValidSink}
use zukomp.Whole.Run.{RunOpts, Report}

-- A cursor of `c` is past that of `b`.
abbrev pub Moved : Buffer → Buffer → Type 0
Moved b c = b.src_pos < c.src_pos ⊎ b.dst_pos < c.dst_pos

-- What the loop needs of the driver's function. `Ready h t`: a handle that has delivered `t` bytes.
pub record Paced {H : Type 0} (process : H → Buffer → ℕ → Status × H × Buffer) (limit : ℕ)
    (Ready : H → ℕ → Type 0) : Type 0 where
  pub moves :
      (h : H) (t : ℕ) (b : Buffer) (mode : ℕ)
      → Ready h t
      → IsValid b
      → Advances b (process h b mode).2
  pub within :
      (h : H) (t : ℕ) (b : Buffer) (mode : ℕ)
      → Ready h t
      → IsValid b
      → t + ((process h b mode).2.dst_pos - b.dst_pos) ≤ limit
  pub goes_on :
      (h : H) (t : ℕ) (b : Buffer) (mode : ℕ)
      → Ready h t
      → IsValid b
      → code (process h b mode).0 < 3
      → Ready (process h b mode).1 (t + ((process h b mode).2.dst_pos - b.dst_pos))
  pub progress :
      (h : H) (t : ℕ) (b : Buffer) (mode : ℕ)
      → Ready h t
      → IsValid b
      → 0 < avail_out b
      → code (process h b mode).0 < 3
      → Moved b (process h b mode).2
        ⊎ (is (process h b mode).0 need_input ≡ true)
          × ((process h b mode).2.src_pos ≡ (process h b mode).2.src_size)

-- What a caller passes: chunks that are not empty, and sizes of 64 bits.
pub record Proper (r : RunOpts) : Type 0 where
  pub size : length r.src ≡ r.n
  pub n_word : r.n < word
  pub in_some : 0 < r.in_chunk
  pub out_some : 0 < r.out_chunk
  pub out_word : r.out_chunk < word

-- The report: a valid sink, no more than the limit in it, no more input than there is; and ZU_STREAM_END,
-- which is 3, or one of the errors, which are above it.
pub record Reported (limit : ℕ) (r : RunOpts) (o : Outbuf) (x : Report) : Type 0 where
  pub sink : ValidSink x.out
  pub delivered : x.out.used ≤ o.used + limit
  pub consumed : x.consumed ≤ r.n
  pub status : 2 < code x.status
