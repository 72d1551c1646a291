-- ===== src/Codec/Lz4.antt =====
-- src/codec_lz4.c, as far as lz4-block's decoder: the state, the staging buffer and the search for the
-- size of a block. What the code calls of the vendored liblz4 is a record of functions.
pub mod Search
pub mod Block
use zukomp.Base.{
  ℕ, ◌+◌, ◌-◌, ◌*◌, ◌/◌, ◌%◌, word, Bool, true, false, not, Option, none, some, List, [], ◌++◌,
  take, drop, length, ltb, leb, ◌==◌, ◌&&◌, ◌||◌, if◌then◌else◌, Outcome, again, leave, loop,
}
use zukomp.Base.Int.{ℤ}
use zukomp.Buffer.{Buffer, avail_out, bytes, emit}
use zukomp.Types.{Status, ok, err_memory, err_invalid_data, err_output_limit, is}
use zukomp.Size.{add, mul}

-- `LZ4_decompress_safe` and `LZ4_decompress_safe_partial`: the input, the block written to and its
-- capacity (and the target); none where the answer is negative, and the block afterwards.
pub record Liblz4 : Type 0 where
  pub decompress_safe : List ℕ → List ℕ → ℕ → Option ℕ × List ℕ
  pub decompress_safe_partial : List ℕ → List ℕ → ℕ → ℕ → Option ℕ × List ℕ

-- `lz4_state`, less the contexts and flags of lz4-frame.
pub record Lz4 : Type 0 where
  pub encoder : Bool
  pub level : ℤ
  pub stage : Option (List ℕ)
  pub stage_cap : ℕ
  pub stage_len : ℕ
  pub stage_pos : ℕ
  pub input : Option (List ℕ)
  pub in_cap : ℕ
  pub in_len : ℕ
  pub done : Bool
  pub max_output : ℕ
  pub has_expected : Bool
  pub expected : ℕ

-- `INT_MAX`
abbrev pub int_max : ℕ
int_max = 2147483647

-- `zu_int_lz4_drain`: the copy, and whether the stage is empty.
abbrev pub pending : Lz4 → Buffer → ℕ
pending s b =
    if ltb (s.stage_len - s.stage_pos) (avail_out b) then s.stage_len - s.stage_pos else avail_out b

abbrev pub moved : Lz4 → Buffer → Lz4 × Buffer
moved s b =
    let n = pending s b in
    if ltb 0 n
    then (
      record s { stage_pos = s.stage_pos + n },
      emit b (take n (drop s.stage_pos (bytes s.stage))),
    )
    else (s, b)

unfoldable pub drain : Lz4 → Buffer → Bool × Lz4 × Buffer
drain s b =
    let (t, c) = moved s b in
    if t.stage_pos == t.stage_len
    then (true, record t { stage_pos = 0; stage_len = 0 }, c)
    else (false, t, c)

-- `zu_int_lz4b_clear`
abbrev pub clear : Lz4 → Lz4
clear s = record s { in_len = 0; stage_len = 0; stage_pos = 0; done = false }

-- What `n` bytes can decode to at most, within an `int`.
unfoldable pub fitting : ℕ → ℕ
fitting c = if ltb int_max c then int_max else c

unfoldable pub padded : Status × Option ℕ → ℕ
unfolding fitting
padded (st, none) = int_max
padded (st, some c) = elim (add c 64).1 [ none ↦ int_max | some d ↦ fitting d ]

unfoldable pub format_ceiling : ℕ → ℕ
unfolding padded
format_ceiling n = padded (mul n 255)

abbrev pub is_limited : Lz4 → Bool
is_limited s = not (s.max_output == 0) && ltb s.max_output (format_ceiling s.in_len)

abbrev pub search_ceiling : Lz4 → ℕ
search_ceiling s = if is_limited s then s.max_output else format_ceiling s.in_len

abbrev pub first_cap : ℕ → ℕ → ℕ
first_cap n ceiling =
    let cap = if ltb (n * 4 % word) 4096 then 4096 else n * 4 % word in
    if ltb ceiling cap then ceiling else cap

abbrev pub next_cap : ℕ → ℕ → ℕ
next_cap ceiling cap = if ltb (ceiling / 4) cap then ceiling else cap * 4 % word

-- The static block that is written to where the capacity is 0.
abbrev pub target : Lz4 → ℕ → List ℕ
target s cap = if cap == 0 then [] else bytes s.stage

abbrev pub written : Lz4 → ℕ → List ℕ → Lz4
written s cap d = if cap == 0 then s else record s { stage = some d }

abbrev pub Answer : Type 0
Answer = Status × Option ℕ × Lz4

module _ (realloc : Option (List ℕ) → ℕ → Option (List ℕ)) where
  restaged : Lz4 → ℕ → Option (List ℕ) → Status × Lz4
  restaged s n none = (err_memory, s)
  restaged s n (some p) = (ok, record s { stage = some p; stage_cap = n })

  -- `zu_int_lz4b_stage`
  unfoldable pub stage : Lz4 → ℕ → Status × Lz4
  unfolding restaged
  stage s n =
      if ltb s.stage_cap n
      then restaged s n (realloc s.stage (if n == 0 then 1 else n))
      else (ok, s)

module _ (lib : Liblz4) (realloc : Option (List ℕ) → ℕ → Option (List ℕ)) where
  unfoldable pub refused : Bool → ℕ → ℕ → Option ℕ × Lz4 → Outcome (Lz4 × ℕ) Answer
  refused limited ceiling cap (none, s) = leave (err_invalid_data, none, s)
  refused limited ceiling cap (some p, s) =
      if ltb p cap
      then leave (err_invalid_data, none, s)
      else if leb ceiling cap
      then leave ((if limited then err_output_limit else err_invalid_data), none, s)
      else again (s, next_cap ceiling cap)

  unfoldable pub tried : Bool → ℕ → ℕ → Option ℕ × Lz4 → Outcome (Lz4 × ℕ) Answer
  unfolding refused
  tried limited ceiling cap (some r, s) = leave (ok, some r, s)
  tried limited ceiling cap (none, s) =
      let (p, d) =
        lib.decompress_safe_partial (take s.in_len (bytes s.input)) (target s cap) cap cap in
      refused limited ceiling cap (p, written s cap d)

  unfoldable pub attempt : Bool → ℕ → ℕ → Status × Lz4 → Outcome (Lz4 × ℕ) Answer
  unfolding tried
  attempt limited ceiling cap (st, s) =
      if not (is st ok)
      then leave (st, none, s)
      else let (r, d) = lib.decompress_safe (take s.in_len (bytes s.input)) (target s cap) cap in
        tried limited ceiling cap (r, written s cap d)

  -- One pass of the loop.
  unfoldable pub search_round : Bool → ℕ → Lz4 × ℕ → Outcome (Lz4 × ℕ) Answer
  unfolding attempt stage
  search_round limited ceiling (s, cap) = attempt limited ceiling cap (stage realloc s cap)

  -- `zu_int_lz4b_search`: 4096 grown fourfold ten times is past `INT_MAX`.
  unfoldable pub search : Lz4 → Option Answer
  unfolding search_round
  search s =
      loop 11 (search_round (is_limited s) (search_ceiling s))
        (s, first_cap s.in_len (search_ceiling s))
