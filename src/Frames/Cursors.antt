-- ===== src/Frames/Cursors.antt =====
-- src/zu_frames.c: what the continuation policy does to the caller's cursors and to what it holds.
use zukomp.Base.{
  ℕ, zero, suc, ◌+◌, ◌-◌, ◌≤◌, ◌<◌, ◌≡◌, ◌≢◌, sym, ap, subst, Bool-cases, ◌⊎◌, inl, inr, refl, Bool,
  true, false, not, ◌==◌, ltb, if◌then◌else◌, List, [], ◌∷◌, ◌++◌, length, length-append, if_elim,
  if_split, is_none, Option-cases, has_bit, arith,
}
use zukomp.Buffer.{
  Buffer, IsValid, Advances, Advances-refl, Advances-trans, Advances-IsValid, avail_in, next_byte,
  peek, consume, consume-Advances, emit-Advances, byte_in, length-peek_le,
}
use zukomp.Types.{
  Status, ok, is, need_input, stream_end, err_trailing, zu_finish, dec_concat_members,
  dec_reject_trailing,
}
use zukomp.Frames.{
  FrameState, body, between, done, Kind, Frames, is_prefix, extend, Probe, first_look, handed_over,
  extended, between_frames, frames_at, frames_between, frames_stalled, frames_pay, frames_ended,
  probed,
}

-- What `zu_int_frames_pay` leaves.
abbrev pub Paid : Frames → Buffer → Bool × Frames × Buffer → Type 0
Paid f b (may, f', b') =
    Advances b b' × (f'.state ≡ f.state) × (f'.held ≡ f.held) × (avail_in b' ≡ avail_in b)

pub frames_pay_lem : (f : Frames) (b : Buffer) → IsValid b → Paid f b (frames_pay f b)
unfolding frames_pay
frames_pay_lem f b v = elim (Option-cases f.owed) [
  | inl e ↦ rw e (Advances-refl b v, refl, refl, refl)
  | inr (x, e) ↦ rw e (
      if_split (Paid f b) (b.dst_pos == b.dst_size) (λ _. (Advances-refl b v, refl, refl, refl))
        (λ room. (emit-Advances b (x ∷ []) v (ground (arith, v.dst_in)), refl, refl, refl)))
]

-- The loop takes as many bytes as it adds to the prefix.
abbrev Extends : ℕ → List ℕ → Buffer → Bool × List ℕ × Buffer → Type 0
Extends rounds held b (fits, held', b') =
    Advances b b'
    × (length held' ≤ length held + rounds)
    × (avail_in b' + length held' ≡ avail_in b + length held)

extend_moves :
    (rounds : ℕ) (kind : Kind) (held : List ℕ) (b : Buffer)
    → IsValid b
    → Extends rounds held b (extend rounds kind held b)
unfolding extend
extend_moves zero kind held b v = (Advances-refl b v, omega arith, refl)
extend_moves (suc rounds) kind held b v =
    let more = held ++ (next_byte b ∷ []) in
    let long : length more ≡ length held + 1 = length-append held (next_byte b ∷ []) in
    if_split (Extends (suc rounds) held b) (avail_in b == 0)
      (λ _. (Advances-refl b v, omega arith, refl))
      (λ some_in.
        if_elim (Extends (suc rounds) held b) (is_prefix kind more)
          (let p = byte_in b v some_in in
            let (adv, short, count) =
              extend_moves rounds kind more (consume b 1) (Advances-IsValid v p.0) in
            let lt : 0 < avail_in b = ground arith in
            (Advances-trans p.0 adv, omega arith, omega (arith, v.src_in)))
          (Advances-refl b v, omega arith, refl))

abbrev pub Short : Frames → Type 0
Short f = length f.held < 4

module _ {C : Type 0} where
  -- After `zu_int_frames_between`: the cursors advanced, what is held stays short, and where another
  -- frame begins, a byte was taken or the codec's state is as it was and input is there.
  abbrev pub Resumes : Frames → Buffer → C → Status × Frames × Buffer × C → Type 0
  Resumes f b c (st, f', b', c') =
      Advances b b'
      × (Short f → Short f')
      × (Short f
          → is st ok ≡ true
          → (f'.state ≡ body) × (avail_in b' < avail_in b ⊎ (c' ≡ c) × (0 < avail_in b)))

  -- The two shapes: the codec goes on, or it answers.
  stopped :
      (f f' : Frames) (b b' : Buffer) (c c' : C) (st : Status)
      → is st ok ≡ false
      → Advances b b'
      → (Short f → Short f')
      → Resumes f b c (st, f', b', c')
  stopped f f' b b' c c' st e adv short = (adv, short, λ _ q. absurd (ground arith))

  first_look-Resumes :
      (f : Frames) (b : Buffer) (flush : ℕ) (c : C)
      → IsValid b
      → Resumes f b c (first_look f b flush c)
  unfolding first_look
  first_look-Resumes f b flush c v =
      let k = if ltb (avail_in b) 4 then avail_in b else 4 in
      let offered : k ≤ avail_in b = ground arith in
      let four : k ≤ 4 = ground arith in
      let same = Advances-refl b v in
      if_split (Resumes f b c) (avail_in b == 0)
        (λ _.
          if_elim (Resumes f b c) (not (flush == zu_finish))
            (stopped f f b b c c need_input refl same (λ h. h))
            (stopped f (record f { state = done }) b b c c stream_end refl same (λ h. h)))
        (λ some_in.
          if_elim (Resumes f b c) (not (is_prefix f.kind (peek b k)))
            (stopped f (record f { state = done }) b b c c stream_end refl same (λ h. h))
            (if_split (Resumes f b c) (k == 4)
              (λ _. (same, λ h. h, λ _ _. (refl, inr (refl, ground arith))))
              (λ few.
                if_elim (Resumes f b c) (flush == zu_finish)
                  (stopped f (record f { state = done }) b b c c stream_end refl same (λ h. h))
                  (stopped f (record f { held = peek b k }) b (consume b k) c c need_input refl
                    (consume-Advances b k v offered)
                    (λ _. let lt : k < 4 = ground arith in omega (arith, length-peek_le b k))))))

  handed_over-Resumes :
      (f : Frames) (b b' : Buffer) (c : C) (r : Status × C)
      → Advances b b'
      → (Short f → avail_in b' < avail_in b)
      → Resumes f b c (handed_over f b' r)
  unfolding handed_over
  handed_over-Resumes f b b' c (st, c') adv less =
      if_split (Resumes f b c) (not (is st ok))
        (λ bad.
          stopped f (record f { held = [] }) b b' c c' st (ground arith) adv (λ _. omega arith))
        (λ _. (adv, λ _. omega arith, λ h _. (refl, inl (less h))))

  extended-Resumes :
      (f : Frames) (b : Buffer) (flush : ℕ) (feed : C → List ℕ → Status × C) (c : C)
      (x : Bool × List ℕ × Buffer)
      → Extends (4 - length f.held) f.held b x
      → Resumes f b c (extended f flush feed c x)
  unfolding extended
  extended-Resumes f b flush feed c (fits, held, b') (adv, short, count) =
      if_elim (Resumes f b c) (not fits)
        (stopped f (record f { held = []; state = done }) b b' c c stream_end refl adv
          (λ _. omega arith))
        (if_split (Resumes f b c) (length held == 4)
          (λ whole.
            let four : length held ≡ 4 = ground arith in
            handed_over-Resumes f b b' c (feed c held) adv (λ h. omega arith))
          (λ part.
            if_elim (Resumes f b c) (not (flush == zu_finish))
              (stopped f (record f { held = held }) b b' c c need_input refl adv
                (λ h. ground arith))
              (if_elim
                (λ (st : Status). Resumes f b c (st, record f { held = []; state = done }, b', c))
                (has_bit f.flags dec_reject_trailing)
                (stopped f (record f { held = []; state = done }) b b' c c err_trailing refl adv
                  (λ _. omega arith))
                (stopped f (record f { held = []; state = done }) b b' c c stream_end refl adv
                  (λ _. omega arith)))))

  pub between_frames-Resumes :
      (f : Frames) (b : Buffer) (flush : ℕ) (feed : C → List ℕ → Status × C) (c : C)
      → IsValid b
      → Resumes f b c (between_frames f b flush feed c)
  unfolding between_frames
  between_frames-Resumes f b flush feed c v =
      if_elim (Resumes f b c) (not (has_bit f.flags dec_concat_members))
        (stopped f (record f { state = done }) b b c c stream_end refl (Advances-refl b v) (λ h. h))
        (if_elim (Resumes f b c) (length f.held == 0) (first_look-Resumes f b flush c v) (
          extended-Resumes f b flush feed c _ (extend_moves (4 - length f.held) f.kind f.held b v)))

  -- `zu_int_frames_between` is called outside the body of a frame.
  frames_at-Resumes :
      (st : FrameState) (f : Frames) (b : Buffer) (flush : ℕ) (feed : C → List ℕ → Status × C)
      (c : C)
      → IsValid b
      → st ≢ body
      → Resumes f b c (frames_at st f b flush feed c)
  unfolding frames_at
  frames_at-Resumes done f b flush feed c v h =
      stopped f f b b c c stream_end refl (Advances-refl b v) (λ h. h)
  frames_at-Resumes body f b flush feed c v h = absurd (h refl)
  frames_at-Resumes between f b flush feed c v h = between_frames-Resumes f b flush feed c v

  pub frames_between-Resumes :
      (f : Frames) (b : Buffer) (flush : ℕ) (feed : C → List ℕ → Status × C) (c : C)
      → IsValid b
      → f.state ≢ body
      → Resumes f b c (frames_between f b flush feed c)
  unfolding frames_between
  frames_between-Resumes f b flush feed c v h = frames_at-Resumes f.state f b flush feed c v h

  -- After the last frame it does not answer ZU_OK.
  pub frames_between_open :
      (f : Frames) (b : Buffer) (flush : ℕ) (feed : C → List ℕ → Status × C) (c : C)
      → is (frames_between f b flush feed c).0 ok ≡ true
      → f.state ≢ done
  unfolding frames_between frames_at
  frames_between_open f b flush feed c h e =
      let over : is (frames_at f.state f b flush feed c).0 ok ≡ false =
        ap (λ (st : FrameState). is (frames_at st f b flush feed c).0 ok) e in
      absurd (ground arith)

  -- `zu_int_frames_stalled` answers ZU_OK only without input, and then the frame ended.
  abbrev pub Stalls : Frames → ℕ → Status × Frames × C → Type 0
  Stalls f room_in (st, f', c') =
      (Short f → Short f') × (is st ok ≡ true → (f'.state ≡ between) × (room_in ≡ 0))

  probed-Stalls : (f : Frames) (p : Probe C) → Stalls f 0 (probed f p)
  unfolding probed frames_ended
  probed-Stalls f p = elim (Bool-cases p.frame_end) [
    | inl e ↦ rw e (
        if_split (Stalls f 0) (not (is p.status ok)) (λ bad. (λ h. h, λ q. absurd (ground arith)))
          (λ _.
            if_elim (Stalls f 0) (not (is_none p.byte))
              (λ _. omega arith, λ q. absurd (ground arith)) (λ _. omega arith, λ _. (refl, refl))))
    | inr e ↦ rw e (
        if_split (Stalls f 0) (not (is p.status ok)) (λ bad. (λ h. h, λ q. absurd (ground arith)))
          (λ _.
            if_elim (Stalls f 0) (not (is_none p.byte)) (λ h. h, λ q. absurd (ground arith))
              (λ h. h, λ q. absurd (ground arith))))
  ]

  pub frames_stalled-Stalls :
      (f : Frames) (room_in room_out flush : ℕ) (probe : C → Probe C) (c : C)
      → Stalls f room_in (frames_stalled f room_in room_out flush probe c)
  unfolding frames_stalled
  frames_stalled-Stalls f room_in room_out flush probe c =
      if_elim (Stalls f room_in) (room_out == 0)
        (if_split (Stalls f room_in) (ltb 0 room_in) (λ _. (λ h. h, λ q. absurd (ground arith)))
          (λ dry.
            if_elim (Stalls f room_in) (not (flush == zu_finish))
              (λ h. h, λ q. absurd (ground arith))
              (let none_in : room_in ≡ 0 = ground arith in
                subst (λ (n : ℕ). Stalls f n (probed f (probe c))) (sym none_in)
                  (probed-Stalls f (probe c)))))
        (if_elim (Stalls f room_in) (room_in == 0)
          (if_elim (λ (st : Status). Stalls f room_in (st, f, c)) (flush == zu_finish)
            (λ h. h, λ q. absurd (ground arith)) (λ h. h, λ q. absurd (ground arith)))
          (λ h. h, λ q. absurd (ground arith)))
