-- ===== src/Codec/Zstd/Encode/Returns.antt =====
-- src/codec_zstd.c: `zstd_encoder_process` comes back, with the cursors in range and a reason.
use zukomp.Base.{
  ℕ, ◌+◌, ◌≤◌, ◌<◌, ◌≡◌, sym, subst, Bool, true, false, not, ◌==◌, ◌&&◌, ◌||◌, Option, none, some,
  length, if_elim, if_split, again, leave, loop_total, Rounds, arith,
}
use zukomp.Buffer.{
  Buffer, IsValid, Advances, Advances-refl, Advances-trans, Advances-IsValid, avail_in, avail_out,
  peek, pass, scratch, scratch-Advances, pass-Advances, pass_less, length-peek_le,
}
use zukomp.Types.{Status, is, code, need_input, need_output, stream_end, err_internal}
use zukomp.Stream.Contract.{KeepsCursors}
use zukomp.Codec.Libzstd.{
  Failure, checksum_wrong, memory_allocation, window_too_large, dictionary_wrong,
  frame_parameter_unsupported, version_unsupported, parameter_unsupported, parameter_out_of_bound,
  other_failure, Directive, Result, failed, value, Turn, Library, Bounded,
}
use zukomp.Codec.Zstd.{Zstd, error_status}
use zukomp.Codec.Zstd.Encode.{
  Round, directive, is_end, is_continue, answered, after_compress, compress, encode_with,
  encode_round, encode_loop, returned, encoder_process,
}

-- What the answer says of the buffer: all input taken, or all room used.
pub record Explains (st : Status) (b : Buffer) : Type 0 where
  pub wants_input : is st need_input ≡ true → b.src_pos ≡ b.src_size
  pub wants_room : is st need_output ≡ true → avail_out b ≡ 0

pub error_status-code :
    (encoder : Bool) (max_output : ℕ) (r : Failure) → 3 < code (error_status encoder max_output r)
unfolding error_status
error_status-code encoder max_output checksum_wrong = omega arith
error_status-code encoder max_output memory_allocation = omega arith
error_status-code encoder max_output window_too_large =
    if_elim (λ (st : Status). 3 < code st) (not (max_output == 0)) (omega arith) (omega arith)
error_status-code encoder max_output dictionary_wrong = omega arith
error_status-code encoder max_output frame_parameter_unsupported = omega arith
error_status-code encoder max_output version_unsupported = omega arith
error_status-code encoder max_output parameter_unsupported = omega arith
error_status-code encoder max_output parameter_out_of_bound = omega arith
error_status-code encoder max_output other_failure =
    if_elim (λ (st : Status). 3 < code st) encoder (omega arith) (omega arith)

-- No reason to give.
pub explained : (st : Status) (b : Buffer) → 2 < code st → Explains st b
explained st b h = record {
  wants_input = λ e. absurd (ground arith);
  wants_room = λ e. absurd (ground arith);
}

module _ {C D : Type 0} (z : Library C D) (law : Bounded z) where
  abbrev Good : Buffer → Round C D → Type 0
  Good b (again (s', b')) = Advances b b' × (avail_in b' + avail_out b' < avail_in b + avail_out b)
  Good b (leave (st, s', b')) = Advances b b' × Explains st b'

  answered-Good :
      (op : Directive) (b b' : Buffer) (still : Bool) (s : Zstd C D) (r : ℕ)
      → Advances b b'
      → (still ≡ false → avail_in b' + avail_out b' < avail_in b + avail_out b)
      → Good b (answered z op b still s b' r)
  unfolding answered
  answered-Good op b b' still s r adv less =
      if_elim (Good b) (is_end op && r == 0) (adv, explained stream_end b' (omega arith))
        (if_split (Good b) (b'.src_pos == b'.src_size && (is_continue op || r == 0))
          (λ t. (
            adv,
            record { wants_input = λ _. ground arith; wants_room = λ e. absurd (ground arith) },
          ))
          (λ _.
            if_split (Good b) still
              (λ _. (
                adv,
                if_split (λ (st : Status). Explains st b') (avail_out b == 0)
                    (λ full. record {
                      wants_input = λ e. absurd (ground arith);
                      wants_room = λ _. ground (arith, adv.dst_le, adv.dst_size);
                    })
                    (λ _. explained err_internal b' (omega arith)),
              ))
              (λ go. (adv, less go))))

  module _ (s : Zstd C D) (b : Buffer) (v : IsValid b) (op : Directive) where
    after_compress-Good :
        (t : Turn C)
        → length t.out ≤ avail_out b
        → t.used ≤ avail_in b
        → (r : Result) → Good b (after_compress z op s b t r)
    unfolding after_compress
    after_compress-Good t out used (failed r) = (
      scratch-Advances b t.out v,
      explained (error_status s.encoder s.max_output r) (scratch b t.out)
          (omega (arith, error_status-code s.encoder s.max_output r)),
    )
    after_compress-Good t out used (value r) =
        answered-Good op b (pass b t.out t.used) _ _ r (pass-Advances b t.out t.used v out used)
          (pass_less b t.out t.used out used)

    encode_with-Good : (c : Option C) → Good b (encode_with z op s b c)
    unfolding encode_with compress
    encode_with-Good none = (Advances-refl b v, explained err_internal b (omega arith))
    encode_with-Good (some c) =
        let xs = peek b (avail_in b) in
        after_compress-Good (z.compress_stream c xs (avail_out b) op)
          (law.compress_room c xs (avail_out b) op)
          (omega (arith, law.compress_used c xs (avail_out b) op, length-peek_le b (avail_in b))) _

  abbrev Ended : Buffer → Status × Zstd C D × Buffer → Type 0
  Ended b (st, s, b') = Advances b b' × Explains st b'

  module _ (b : Buffer) (v : IsValid b) where
    abbrev Within : Zstd C D × Buffer → Type 0
    Within (s, b') = Advances b b'

    abbrev left : Zstd C D × Buffer → ℕ
    left (s, b') = avail_in b' + avail_out b'

    on :
        (s : Zstd C D) (b' : Buffer) (o : Round C D)
        → Advances b b'
        → Good b' o
        → Rounds Within (Ended b) left (s, b') o
    on s b' (again (s', c)) p g = (Advances-trans p g.0, g.1)
    on s b' (leave (st, s', c)) p g = (Advances-trans p g.0, g.1)

    -- From every state and every valid buffer, where libzstd keeps to what it is offered, the loop of
    -- `zstd_encoder_process` comes back within its fuel, with cursors that advanced. Where it asks for
    -- input, all of it is taken; where it asks for room, all of it is used.
    pub encode_returns :
        (s : Zstd C D) (mode : ℕ)
        → (r : Status × Zstd C D × Buffer) × (encode_loop z s b mode ≡ some r)
          × (Advances b r.2 × Explains r.0 r.2)
    unfolding encode_loop encode_round
    encode_returns s mode =
        loop_total (encode_round z (directive mode)) Within (Ended b) left
          (λ x p.
            on x.0 x.1 _ p
              (encode_with-Good x.0 x.1 (Advances-IsValid v p) (directive mode) x.0.cctx))
          (avail_in b + avail_out b + 1) (s, b) (omega arith) (Advances-refl b v)

  encoder-Advances :
      (s : Option (Zstd C D)) (b : Buffer) (mode : ℕ)
      → IsValid b
      → Advances b (encoder_process z s b mode).2
  unfolding encoder_process returned
  encoder-Advances none b mode v = Advances-refl b v
  encoder-Advances (some s) b mode v =
      let (r, eq, kept) = encode_returns b v s mode in
      if_elim (λ (x : Status × Option (Zstd C D) × Buffer). Advances b x.2) s.done
        (Advances-refl b v)
        (subst (λ (o : Option (Status × Zstd C D × Buffer)). Advances b (returned z s b o).2)
          (sym eq) kept.0)

  pub encoder-KeepsCursors : KeepsCursors (encoder_process z)
  encoder-KeepsCursors = record { at = encoder-Advances }
