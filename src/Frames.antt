-- ===== src/Frames.antt =====
-- src/zu_frames.c: frame continuation for zstd and lz4-frame. `C` is the state of the codec's library,
-- which `feed` and `probe` reach through the source's `ctx`.
pub mod Prefix
pub mod Extend
pub mod Boundary
pub mod Held
pub mod Chunks
pub mod Owed
pub mod Cursors
use zukomp.Base.{
  ℕ, zero, suc, ◌+◌, ◌-◌, ◌/◌, ◌%◌, Bool, true, false, not, Option, none, some, List, [], ◌∷◌, ◌++◌,
  ltb, ◌==◌, ◌&&◌, ◌||◌, if◌then◌else◌, has_bit, length, take, bytes_eq, is_none,
}
use zukomp.Buffer.{Buffer, avail_in, avail_out, next_byte, peek, consume, emit}
use zukomp.Types.{
  Status, ok, need_input, need_output, stream_end, err_truncated, err_trailing, err_internal, is,
  zu_finish, dec_concat_members, dec_reject_trailing,
}

-- `zu_int_frame_state`
pub data FrameState : Type 0 where
  body between done : FrameState

-- `zu_int_frames_kind`
pub data Kind : Type 0 where
  zstd lz4 : Kind

-- `zu_int_frames`: `held` is held[0 .. n_held), and `owed` is none where has_owed is 0.
pub record Frames : Type 0 where
  pub state : FrameState
  pub kind : Kind
  pub flags : ℕ
  pub held : List ℕ
  pub owed : Option ℕ

-- `zu_int_frames_init`
unfoldable pub frames_init : Kind → ℕ → Frames
frames_init kind flags = record { state = body; kind = kind; flags = flags; held = []; owed = none }

-- `zu_int_frames_ended`
unfoldable pub frames_ended : Frames → Frames
frames_ended f = record f { state = between; held = [] }

abbrev pub own_magic : Kind → List ℕ
own_magic zstd = 0x28 ∷ 0xb5 ∷ 0x2f ∷ 0xfd ∷ []
own_magic lz4 = 0x04 ∷ 0x22 ∷ 0x4d ∷ 0x18 ∷ []

abbrev pub skip_tail : List ℕ
skip_tail = 0x2a ∷ 0x4d ∷ 0x18 ∷ []

-- `zu_int_frames_is_prefix`, of at most four bytes.
unfoldable pub is_prefix : Kind → List ℕ → Bool
is_prefix kind [] = true
is_prefix kind (p ∷ ps) =
    bytes_eq (p ∷ ps) (take (length (p ∷ ps)) (own_magic kind))
    || p / 16 % 16 == 5 && bytes_eq ps (take (length ps) skip_tail)

-- The loop that extends a held prefix: at most `rounds` bytes, and whether all of them fitted.
unfoldable pub extend : ℕ → Kind → List ℕ → Buffer → Bool × List ℕ × Buffer
extend zero kind held b = (true, held, b)
extend (suc rounds) kind held b =
    let more = held ++ (next_byte b ∷ []) in
    let rest = extend rounds kind more (consume b 1) in
    if avail_in b == 0
    then (true, held, b)
    else if is_prefix kind more
    then rest
    else (false, held, b)

-- What `probe` reports: its status, the byte that it wrote, and whether the frame ended.
pub record Probe (C : Type 0) : Type 0 where
  pub status : Status
  pub ctx : C
  pub byte : Option ℕ
  pub frame_end : Bool

module _ {C : Type 0} where
  -- Nothing is held: decided without consuming where four bytes, or the last ones, are visible.
  unfoldable pub first_look : Frames → Buffer → ℕ → C → Status × Frames × Buffer × C
  first_look f b flush c =
      let k = if ltb (avail_in b) 4 then avail_in b else 4 in
      if avail_in b == 0
      then if not (flush == zu_finish)
        then (need_input, f, b, c)
        else (stream_end, record f { state = done }, b, c)
      else if not (is_prefix f.kind (peek b k))
      then (stream_end, record f { state = done }, b, c)
      else if k == 4
      then (ok, record f { state = body }, b, c)
      else if flush == zu_finish
      then (stream_end, record f { state = done }, b, c)
      else (need_input, record f { held = peek b k }, consume b k, c)

  unfoldable pub handed_over : Frames → Buffer → Status × C → Status × Frames × Buffer × C
  handed_over f b (st, c) =
      if not (is st ok)
      then (st, record f { held = [] }, b, c)
      else (ok, record f { held = []; state = body }, b, c)

  -- After the loop: a mismatch, a whole magic, or still a prefix.
  unfoldable pub extended :
      Frames
      → ℕ
      → (C → List ℕ → Status × C)
      → C
      → Bool × List ℕ × Buffer
      → Status × Frames × Buffer × C
  extended f flush feed c (fits, held, b) =
      if not fits
      then (stream_end, record f { held = []; state = done }, b, c)
      else if length held == 4
      then handed_over f b (feed c held)
      else if not (flush == zu_finish)
      then (need_input, record f { held = held }, b, c)
      else (
        if has_bit f.flags dec_reject_trailing then err_trailing else stream_end,
        record f { held = []; state = done },
        b,
        c,
      )

  unfoldable pub between_frames :
      Frames → Buffer → ℕ → (C → List ℕ → Status × C) → C → Status × Frames × Buffer × C
  between_frames f b flush feed c =
      if not (has_bit f.flags dec_concat_members)
      then (stream_end, record f { state = done }, b, c)
      else if length f.held == 0
      then first_look f b flush c
      else extended f flush feed c (extend (4 - length f.held) f.kind f.held b)

  unfoldable pub frames_at :
      FrameState
      → Frames
      → Buffer
      → ℕ
      → (C → List ℕ → Status × C)
      → C
      → Status × Frames × Buffer × C
  frames_at done f b flush feed c = (stream_end, f, b, c)
  frames_at body f b flush feed c = (ok, f, b, c)
  frames_at between f b flush feed c = between_frames f b flush feed c

  -- `zu_int_frames_between`
  unfoldable pub frames_between :
      Frames → Buffer → ℕ → (C → List ℕ → Status × C) → C → Status × Frames × Buffer × C
  unfolding frames_at between_frames first_look extended handed_over extend
  frames_between f b flush feed c = frames_at f.state f b flush feed c

  unfoldable pub probed : Frames → Probe C → Status × Frames × C
  probed f p =
      let f' = if p.frame_end then frames_ended f else f in
      if not (is p.status ok)
      then (p.status, f, p.ctx)
      else if not (is_none p.byte)
      then (need_output, record f' { owed = p.byte }, p.ctx)
      else (if p.frame_end then ok else err_truncated, f', p.ctx)

  -- `zu_int_frames_stalled`
  unfoldable pub frames_stalled : Frames → ℕ → ℕ → ℕ → (C → Probe C) → C → Status × Frames × C
  unfolding probed frames_ended
  frames_stalled f room_in room_out flush probe c =
      if room_out == 0
      then if ltb 0 room_in
        then (need_output, f, c)
        else if not (flush == zu_finish)
        then (need_input, f, c)
        else probed f (probe c)
      else if room_in == 0
      then (if flush == zu_finish then err_truncated else need_input, f, c)
      else (err_internal, f, c)

-- `zu_int_frames_pay`: whether the codec may carry on.
unfoldable pub frames_pay : Frames → Buffer → Bool × Frames × Buffer
frames_pay f b = elim f.owed [
  | none ↦ (true, f, b)
  | some x ↦
      if b.dst_pos == b.dst_size
      then (false, f, b)
      else (true, record f { owed = none }, emit b (x ∷ []))
]
