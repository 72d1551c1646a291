-- ===== src/Codec/Deflate/Sums/Encoder.antt =====
-- src/codec_deflate.c: an encoder sums up the input that it takes, in every round of `deflate_process`.
use zukomp.Base.{
  ℕ, ◌+◌, ◌-◌, ◌*◌, ◌%◌, ◌≡◌, refl, subst, sym, ap, ◌∙◌, Bool, true, false, not, ◌&&◌, ◌||◌, ◌==◌,
  Option, some, take, drop, ltb, word, if◌then◌else◌, if_elim, if_split, again, leave, loop_keeps,
  Keeps, arith,
}
use zukomp.Buffer.{
  Buffer, bytes, IsValid, Advances, Advances-trans, Advances-refl, Advances-IsValid, avail_in,
  avail_out,
}
use zukomp.Types.{Status, zu_finish}
use zukomp.Codec.Miniz.{
  Code, mz_ok, mz_stream_end, mz_buf_error, mz_data_error, mz_mem_error, mz_param_error,
  mz_stream_error, mz_need_dict, mz_other, Engine, Turn, Bounded,
}
use zukomp.Codec.Deflate.{Deflate, Stage, header, body, trailer, member_end, done}
use zukomp.Codec.Deflate.Sound.{Sound}
use zukomp.Codec.Deflate.Rounds.{Good}
use zukomp.Codec.Deflate.Returns.{iteration-Good, run_returns}
use zukomp.Codec.Deflate.Sums.{Continues, Summed, Summed-trans}
use zukomp.Codec.Deflate.Life.{checksum_update}
use zukomp.Codec.Deflate.{Round, is_raw}
use zukomp.Codec.Deflate.Process.{
  write_out, in_header, turn, counted, moved, ended, carry_on, after_turn, in_body, no_more,
  at_member_end, concat, write_tail, read_tail, at_stage, iteration, run, returned, deflate_process,
}

module _ {M : Type 0} (e : Engine M) (s : Deflate M) (b : Buffer) where
  abbrev Tally : Round M → Type 0
  Tally (again (s', b')) = Summed e s b s' b'
  Tally (leave (st, s', b')) = Summed e s b s' b'

  -- Nothing is read and nothing summed up.
  idle : Summed e s b s b
  unfolding checksum_update
  idle = record {
    encoder_is = refl;
    wrap_is = refl;
    checksum_is = sym (
        ap (λ (n : ℕ). checksum_update e s.wrap s.checksum (take n (drop b.src_pos (bytes b.src))))
          {x = b.src_pos - b.src_pos} {y = 0} (omega arith));
    uncompressed_is = ap (λ (n : ℕ). n % word) (omega arith);
  }

  module _ (encodes : s.encoder ≡ true) (wrapped : is_raw s.wrap ≡ false) where
    write_out-Tally : Tally (write_out e s b)
    unfolding write_out
    write_out-Tally =
        if_elim Tally (ltb s.hdr_pos s.hdr_len) (if_elim Tally (avail_out b == 0) idle idle) idle

    header-Tally : (flush : ℕ) → Tally (in_header e flush s b)
    unfolding in_header
    header-Tally flush =
        if_split Tally s.encoder (λ _. write_out-Tally) (λ d. absurd (ground arith))

    trailer-Tally :
        (flush : ℕ) → Tally (if s.encoder then write_tail e s b else read_tail e flush s b)
    unfolding write_tail
    trailer-Tally flush =
        if_split Tally s.encoder
          (λ _.
            if_elim Tally (ltb s.tail_pos s.tail_len) (if_elim Tally (avail_out b == 0) idle idle)
              idle)
          (λ d. absurd (ground arith))

    concat_off : concat e s ≡ false
    unfolding concat
    concat_off = ground arith

    member-Tally : (flush : ℕ) → Tally (at_member_end e flush s b)
    unfolding at_member_end no_more
    member-Tally flush =
        if_split Tally (not (concat e s) || avail_in b == 0)
          (λ _.
            if_elim Tally
              (avail_in b == 0 && not s.encoder && concat e s && not (flush == zu_finish)) idle
              idle)
          (λ d. let off = concat_off in absurd (ground arith))

    counted-Summed : (t : Turn M) → Summed e s b (counted e s b t) (moved e b t)
    unfolding counted
    counted-Summed t = record {
      encoder_is = refl;
      wrap_is = refl;
      checksum_is =
          rw (wrapped, encodes)
            (ap
              (λ (n : ℕ).
                checksum_update e s.wrap s.checksum (take n (drop b.src_pos (bytes b.src))))
              (omega arith));
      uncompressed_is = rw (wrapped, encodes) (omega arith);
    }

    module _ (s' : Deflate M) (b' : Buffer) (here : Summed e s b s' b') where
      ended-Tally : Tally (ended e s' b')
      unfolding ended
      ended-Tally = if_elim Tally (is_raw s'.wrap) here here

      carry_on-Tally : (flush room : ℕ) (still : Bool) → Tally (carry_on e flush room still s' b')
      unfolding carry_on
      carry_on-Tally flush room still = if_elim Tally still here here

      after_turn-Tally :
          (flush room : ℕ) (still : Bool) (mz : Code)
          → Tally (after_turn e flush room still s' b' mz)
      unfolding after_turn
      after_turn-Tally flush room still mz_ok = carry_on-Tally flush room still
      after_turn-Tally flush room still mz_stream_end = ended-Tally
      after_turn-Tally flush room still mz_buf_error = carry_on-Tally flush room still
      after_turn-Tally flush room still mz_data_error = here
      after_turn-Tally flush room still mz_mem_error = here
      after_turn-Tally flush room still mz_param_error = here
      after_turn-Tally flush room still mz_stream_error = here
      after_turn-Tally flush room still mz_need_dict = here
      after_turn-Tally flush room still mz_other = here

    body-Tally : (flush : ℕ) → Tally (in_body e flush s b)
    unfolding in_body
    body-Tally flush =
        let t = turn e flush s b in
        if_elim Tally (avail_out b == 0 && s.encoder) idle (
          after_turn-Tally (counted e s b t) (moved e b t) (counted-Summed t) flush (avail_out b) _
            t.result)

    at_stage-Tally : (flush : ℕ) (st : Stage) → Tally (at_stage e st flush s b)
    unfolding at_stage
    at_stage-Tally flush header = header-Tally flush
    at_stage-Tally flush body = body-Tally flush
    at_stage-Tally flush trailer = trailer-Tally flush
    at_stage-Tally flush member_end = member-Tally flush
    at_stage-Tally flush done = idle

    iteration-Tally : (flush : ℕ) → Tally (iteration e flush (s, b))
    unfolding iteration
    iteration-Tally flush = at_stage-Tally flush s.stage

module _ {M : Type 0} (e : Engine M) (law : Bounded e) (sums : Continues e) (s : Deflate M)
    (b : Buffer) (v : IsValid b) (encodes : s.encoder ≡ true) (wrapped : is_raw s.wrap ≡ false)
    (flush : ℕ) where
  abbrev SoFar : Deflate M × Buffer → Type 0
  SoFar (t, c) = Advances b c × Summed e s b t c

  abbrev AtEnd : Status × Deflate M × Buffer → Type 0
  AtEnd (st, t, c) = Summed e s b t c

  go_on :
      (t : Deflate M) (c : Buffer) (o : Round M)
      → SoFar (t, c)
      → Good t c o
      → Tally e t c o
      → Keeps SoFar AtEnd o
  go_on t c (again (u, d)) p g q =
      (Advances-trans p.0 g.0, Summed-trans e sums s t u b c d p.0 g.0.src_le p.1 q)
  go_on t c (leave (st, u, d)) p g q = Summed-trans e sums s t u b c d p.0 g.0.src_le p.1 q

  run-Summed : (r : Status × Deflate M × Buffer) → run e s b flush ≡ some r → Summed e s b r.1 r.2
  unfolding run
  run-Summed r eq =
      loop_keeps (iteration e flush) SoFar AtEnd
        (λ x p.
          go_on x.0 x.1 (iteration e flush x) p
            (iteration-Good e law x.0 x.1 (Advances-IsValid v p.0) flush)
            (iteration-Tally e x.0 x.1 (p.1.encoder_is ∙ encodes) (ap is_raw p.1.wrap_is ∙ wrapped)
              flush))
        (8 * (avail_in b + avail_out b) + 6) (s, b) r (Advances-refl b v, idle e s b) eq

  -- An encoder with a wrapper, from a sound state and a valid buffer, where miniz keeps to what it is
  -- offered and its checksums, over bytes that are there, go on where they stopped: `deflate_process`
  -- comes back with a state, whose checksum is the old one taken on over exactly the input that the
  -- call took, and whose count of uncompressed bytes is, modulo 2^64, the old one and the number of
  -- those bytes.
  pub encoder_sums :
      Sound s
      → (t : Deflate M) × ((deflate_process e (some s) b flush).1 ≡ some t)
        × Summed e s b t (deflate_process e (some s) b flush).2
  unfolding deflate_process returned
  encoder_sums k =
      let (r, eq, _) = run_returns e law b v flush s k in
      (
        r.1,
        rw eq refl,
        subst (λ (o : Option (Status × Deflate M × Buffer)). Summed e s b r.1 (returned e s b o).2)
            (sym eq) (run-Summed r eq),
      )
