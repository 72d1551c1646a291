-- ===== src/Whole/Run/Decoding.antt =====
-- src/zu_whole.c over src/zu_stream.c: the drive loop over a decoder handle with a ceiling.
use zukomp.Base.{
  ℕ, ◌+◌, ◌*◌, ◌≤◌, ◌<◌, ◌≡◌, ◌⊎◌, inl, inr, refl, sym, ap, ◌∙◌, subst, true, false, not, ◌&&◌,
  ◌==◌, Option, some, List, if_elim, if_split, ltb, Option-cases, Bool-cases, word, sub_word, arith,
}
use zukomp.Buffer.{Buffer, IsValid, Advances, avail_out}
use zukomp.Types.{
  Status, ok, need_input, need_output, is, code, stream_end, err_output_limit, Process, Vtable,
}
use zukomp.Stream.Check.{call, check_buffer, check_flush}
use zukomp.Stream.Contract.{KeepsCursors}
use zukomp.Stream.Decoder.{
  expects, rejects_trailing, exceeds_ratio, Window, Decoder, decoder_process, run_codec, gate,
  verdict, ceiling, window, cap_to, offered, shrunk, restored, counted,
}
use zukomp.Stream.Decoder.Cap.{
  IsHonest, ceiling_enforced, process_keeps, shrunk-IsValid, shrunk_room, window_open,
}
use zukomp.Whole.{Outbuf}
use zukomp.Whole.Reserve.{IsValid as ValidSink, Reallocates}
use zukomp.Whole.Run.{RunOpts, Report, drive}
use zukomp.Whole.Run.Contract.{Moved, Paced, Proper, Reported}
use zukomp.Whole.Run.Returns.{drive_ends}

-- A codec that does not ask to be called again for nothing: it moved a cursor, or has taken all input
-- and asks for more, or has no room and asks for it.
pub record Progresses {S : Type 0} (p : Process S) : Type 0 where
  pub at :
      (s : Option S) (b : Buffer) (flush : ℕ)
      → IsValid b
      → code (p s b flush).0 < 3
      → Moved b (p s b flush).2
        ⊎ (is (p s b flush).0 need_input ≡ true)
          × ((p s b flush).2.src_pos ≡ (p s b flush).2.src_size)
        ⊎ (is (p s b flush).0 need_output ≡ true) × (avail_out b ≡ 0)

module _ {S : Type 0} where
  -- A call that is refused does not ask to be called again.
  gate_refuses :
      (d : Decoder S) (b : Buffer) (flush : ℕ) (st : Status)
      → gate d b flush ≡ some st
      → 2 < code st
  unfolding gate check_buffer check_flush
  gate_refuses d b flush st e = ground arith

  -- What crossing the ceiling means is an error.
  over_code : (d : Decoder S) (b : Buffer) → 3 < code (offered d b).over
  unfolding window ceiling cap_to
  over_code d b = ground arith

  -- The driver passes a status on that asks for another call, unless it is the ceiling that was met.
  verdict_passes :
      (e : Decoder S) (w : Window) (st : Status) (produced : ℕ) (out : Buffer)
      → 3 < code w.over
      → code (verdict e w st produced out) < 3
      → (verdict e w st produced out ≡ st)
        × ((w.capped && is st need_output && produced == w.allowance) ≡ false)
  unfolding verdict
  verdict_passes e w st produced out over =
      let P : Status → Type 0 = λ x.
        code x < 3
        → (x ≡ st) × ((w.capped && is st need_output && produced == w.allowance) ≡ false) in
      if_elim P (is st stream_end && expects e.opts && not (e.total_out == e.opts.expected_size))
        (λ q. absurd (omega arith))
        (if_elim P (is st stream_end && ltb out.src_pos out.src_size && rejects_trailing e.opts)
          (λ q. absurd (omega arith))
          (if_split P (w.capped && is st need_output && produced == w.allowance)
            (λ _ q. absurd (omega arith))
            (λ open_ended.
              if_elim P
                (w.capped
                  && w.allowance == 0
                  && not (is st stream_end)
                  && ltb out.src_pos out.src_size)
                (λ q. absurd (omega arith))
                (if_elim P (not (e.opts.max_output == 0) && ltb e.opts.max_output e.total_out)
                  (λ q. absurd (omega arith))
                  (if_elim P (expects e.opts && ltb e.opts.expected_size e.total_out)
                    (λ q. absurd (omega arith))
                    (if_elim P (not (is st err_output_limit) && exceeds_ratio e)
                      (λ q. absurd (omega arith)) (λ q. (refl, open_ended))))))))

  codec_moved :
      (d : Decoder S) (b out : Buffer) → Moved (shrunk d b) out → Moved b (restored d b out)
  unfolding shrunk restored
  codec_moved d b out (inl h) = inl (ground arith)
  codec_moved d b out (inr h) = inr (ground arith)

  restored_end :
      (d : Decoder S) (b out : Buffer)
      → out.src_pos ≡ out.src_size
      → (restored d b out).src_pos ≡ (restored d b out).src_size
  unfolding restored
  restored_end d b out e = if_elim (λ (x : Buffer). x.src_pos ≡ x.src_size) (offered d b).capped e e

  -- Where the caller's buffer has room, a window without any is the ceiling.
  no_room :
      (d : Decoder S) (b out : Buffer)
      → IsValid b
      → Advances (shrunk d b) out
      → 0 < avail_out b
      → avail_out (shrunk d b) ≡ 0
      → ((offered d b).capped && sub_word out.dst_pos b.dst_pos == (offered d b).allowance) ≡ true
  no_room d b out v a some_room full =
      let room = shrunk_room d b v in
      let none_allowed : (offered d b).allowance ≡ 0 = omega (arith, room.0, room.1) in
      let still : out.dst_pos ≡ b.dst_pos =
        omega (arith, room.0, room.1, a.dst_le, a.dst_in, a.dst_size) in
      let nothing_made : sub_word out.dst_pos b.dst_pos ≡ 0 = omega arith in
      elim (Bool-cases (offered d b).capped) [
        | inl t ↦ ground arith
        | inr f ↦ let whole = window_open d.opts d.total_out (avail_out b) f in absurd (omega arith)
      ]

  -- What the codec asks for through the window, the caller is asked for.
  run_codec-progress :
      (d : Decoder S) (b : Buffer) (flush : ℕ)
      → IsHonest d
      → Progresses (call d.vtable.decoder_process)
      → IsValid b
      → 0 < avail_out b
      → code (run_codec d b flush).0 < 3
      → Moved b (run_codec d b flush).2
        ⊎ (is (run_codec d b flush).0 need_input ≡ true)
          × ((run_codec d b flush).2.src_pos ≡ (run_codec d b flush).2.src_size)
  unfolding run_codec
  run_codec-progress d b flush k p v some_room c =
      let x = call d.vtable.decoder_process d.state (shrunk d b) flush in
      let v' = shrunk-IsValid d b v in
      let a = k.at d.state (shrunk d b) flush v' in
      let room = shrunk_room d b v in
      let (same, open_ended) =
        verdict_passes (counted d b x.0 x.1 x.2) (offered d b) x.0 (sub_word x.2.dst_pos b.dst_pos)
          (restored d b x.2) (over_code d b) c in
      elim (p.at d.state (shrunk d b) flush v' (subst (λ (st : Status). code st < 3) same c)) [
        | inl moved ↦ inl (codec_moved d b x.2 moved)
        | inr (inl (wants, all)) ↦
            inr (ap (λ (st : Status). is st need_input) same ∙ wants, restored_end d b x.2 all)
        | inr (inr (wants, full)) ↦
            let met = no_room d b x.2 v a some_room full in absurd (ground arith)
      ]

  process-progress :
      (d : Decoder S) (b : Buffer) (flush : ℕ)
      → IsHonest d
      → Progresses (call d.vtable.decoder_process)
      → IsValid b
      → 0 < avail_out b
      → code (decoder_process d b flush).0 < 3
      → Moved b (decoder_process d b flush).2
        ⊎ (is (decoder_process d b flush).0 need_input ≡ true)
          × ((decoder_process d b flush).2.src_pos ≡ (decoder_process d b flush).2.src_size)
  unfolding decoder_process
  process-progress d b flush k p v some_room = elim (Option-cases (gate d b flush)) [
    | inl e ↦ rw (e, decoder_process) (run_codec-progress d b flush k p v some_room)
    | inr (st, e) ↦
        let bad = gate_refuses d b flush st e in rw (e, decoder_process) (λ q. absurd (omega arith))
  ]

  -- A handle below its ceiling, over a codec that keeps the contract and makes progress.
  pub record Below (limit : ℕ) (over : Status) (d : Decoder S) (t : ℕ) : Type 0 where
    pub honest : IsHonest d
    pub progresses : Progresses (call d.vtable.decoder_process)
    pub ceiling_is : ceiling d.opts ≡ some (limit, over)
    pub total : d.total_out ≡ t
    pub below : t ≤ limit

  decoder-Paced :
      (limit : ℕ) (over : Status) → limit < word → Paced decoder_process limit (Below limit over)
  decoder-Paced limit over lt = record {
    moves = λ d t b mode q v.
        (ceiling_enforced d b mode limit over q.honest v q.ceiling_is lt
          (omega (arith, q.total, q.below))).0;
    within = λ d t b mode q v.
        let (adv, total, below) =
          ceiling_enforced d b mode limit over q.honest v q.ceiling_is lt
            (omega (arith, q.total, q.below)) in
        omega (arith, q.total);
    goes_on = λ d t b mode q v c.
        let (adv, total, below) =
          ceiling_enforced d b mode limit over q.honest v q.ceiling_is lt
            (omega (arith, q.total, q.below)) in
        let keeps = process_keeps d b mode in
        record {
          honest =
              subst (λ (x : Vtable S). KeepsCursors (call x.decoder_process)) (sym keeps.1)
                q.honest;
          progresses =
              subst (λ (x : Vtable S). Progresses (call x.decoder_process)) (sym keeps.1)
                q.progresses;
          ceiling_is = ap ceiling keeps.0 ∙ q.ceiling_is;
          total = omega (arith, q.total);
          below = omega (arith, q.total);
        };
    progress =
        λ d t b mode q v some_room c. process-progress d b mode q.honest q.progresses v some_room c;
  }

  -- A decoder that has delivered nothing and has a ceiling of 64 bits, over a codec that keeps the cursor
  -- contract and makes progress, with proper options, a valid sink and a `realloc` that does what C
  -- says: the drive loop of `zu_int_run_whole` comes to an end, in at most three rounds for each byte of
  -- input and one for each byte of the ceiling, and one. The sink is valid and has grown by at most the
  -- ceiling, no more than the input is consumed, and the answer is the end of the stream or an error.
  pub decoder_drive_ends :
      (d : Decoder S) (limit : ℕ) (over : Status) (realloc : Option (List ℕ) → ℕ → Option (List ℕ))
      (r : RunOpts) (o : Outbuf) (live fuel : ℕ)
      → Below limit over d 0
      → limit < word
      → Reallocates realloc
      → Proper r
      → ValidSink o
      → 3 * r.n + limit < fuel
      → (x : Report) × (drive decoder_process realloc r fuel o live (ok, some d) ≡ some x)
        × Reported limit r o x
  decoder_drive_ends d limit over realloc r o live fuel q lt k p v enough =
      drive_ends decoder_process limit (Below limit over) (decoder-Paced limit over lt) realloc k r
        p o d live fuel q v enough
