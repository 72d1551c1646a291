-- ===== src/Codec/Zstd/Decode/Rounds.antt =====
-- src/codec_zstd.c: what each round of `zstd_decoder_process` does to the cursors and the measure.
use zukomp.Base.{
  ℕ, zero, suc, ◌+◌, ◌*◌, ◌≤◌, ◌<◌, ◌≡◌, ◌≢◌, ◌⊎◌, inl, inr, refl, ap, ◌∙◌, Bool, true, false, not,
  Option, none, some, if_split, again, leave, arith,
}
use zukomp.Buffer.{Buffer, Advances, avail_in, avail_out}
use zukomp.Types.{Status, ok, is}
use zukomp.Frames.{Frames, FrameState, body, between, done, frames_ended}
use zukomp.Frames.Cursors.{Short, Resumes, Stalls, frames_stalled-Stalls}
use zukomp.Codec.Libzstd.{Library, Delimits}
use zukomp.Codec.Zstd.{Zstd}
use zukomp.Codec.Zstd.Encode.{Round}
use zukomp.Codec.Zstd.Decode.{probe, resumed, unstalled, decoded}

-- How much a state has before it without a byte moved: the frame, whether the library is at a frame's
-- start, and the input left.
unfoldable pub rank : FrameState → Bool → ℕ → ℕ
rank done fresh left = 0
rank between fresh zero = 1
rank between true (suc left) = 3
rank between false (suc left) = 5
rank body true left = 2
rank body false left = 4

pub rank_le : (st : FrameState) (fresh : Bool) (left : ℕ) → rank st fresh left ≤ 5
unfolding rank
rank_le done fresh left = omega arith
rank_le between fresh zero = omega arith
rank_le between true (suc left) = omega arith
rank_le between false (suc left) = omega arith
rank_le body true left = omega arith
rank_le body false left = omega arith

-- On to the body with the same context, where input is left.
rank-body :
    (st : FrameState) (fresh : Bool) (left k : ℕ)
    → st ≢ body
    → st ≢ done
    → 0 < left
    → rank body fresh k < rank st fresh left
unfolding rank
rank-body done fresh left k h g lt = absurd (g refl)
rank-body body fresh left k h g lt = absurd (h refl)
rank-body between fresh zero k h g lt = absurd (omega arith)
rank-body between true (suc left) k h g lt = omega arith
rank-body between false (suc left) k h g lt = omega arith

-- A frame ends that had begun, or without input left.
rank-between :
    (fresh : Bool) (left k : ℕ) → fresh ≡ false → rank between true k < rank body fresh left
unfolding rank
rank-between true left k h = absurd (ground arith)
rank-between false left zero h = omega arith
rank-between false left (suc k) h = omega arith

rank-dry : (fresh fresh' : Bool) (left : ℕ) → rank between fresh' 0 < rank body fresh left
unfolding rank
rank-dry true fresh' left = omega arith
rank-dry false fresh' left = omega arith

module _ {C D : Type 0} {z : Library C D} (ends : Delimits z) where
  unfoldable pub is_fresh : Option D → Bool
  is_fresh none = true
  is_fresh (some d) = ends.fresh d

  unfoldable pub measure : Zstd C D → Buffer → ℕ
  measure s b = 8 * (avail_in b + avail_out b) + rank s.frames.state (is_fresh s.dctx) (avail_in b)

  -- A round from `s` and `b`: the cursors advance, what is held stays short, and the measure falls
  -- where the loop goes round again.
  abbrev pub Good : Zstd C D → Buffer → Round C D → Type 0
  Good s b (again (s', b')) =
      Advances b b' × (Short s.frames → Short s'.frames × (measure s' b' < measure s b))
  Good s b (leave (st, s', b')) = Advances b b' × (Short s.frames → Short s'.frames)

  pub byte_moved :
      (s s' : Zstd C D) (b b' : Buffer)
      → avail_in b' + avail_out b' < avail_in b + avail_out b
      → measure s' b' < measure s b
  unfolding measure
  byte_moved s s' b b' h = omega (arith, rank_le s'.frames.state (is_fresh s'.dctx) (avail_in b'))

  stays_in :
      (s s' : Zstd C D) (b b' : Buffer)
      → avail_in b' + avail_out b' ≤ avail_in b + avail_out b
      → rank s'.frames.state (is_fresh s'.dctx) (avail_in b')
        < rank s.frames.state (is_fresh s.dctx) (avail_in b)
      → measure s' b' < measure s b
  unfolding measure
  stays_in s s' b b' h lower = omega arith

  -- What is left of input and room never grows.
  pub left_le :
      (b b' : Buffer) → Advances b b' → avail_in b' + avail_out b' ≤ avail_in b + avail_out b
  left_le b b' adv = omega (arith, adv.src_le, adv.dst_le, adv.src_size, adv.dst_size)

  -- A state with other frames and another context.
  abbrev next : Zstd C D → Frames → D → Zstd C D
  next s f d = record s { frames = f; dctx = some d }

  pub resumed-Good :
      (s : Zstd C D) (d : D) (b : Buffer) (r : Status × Frames × Buffer × D)
      → s.dctx ≡ some d
      → s.frames.state ≢ body
      → Resumes s.frames b d r
      → (is r.0 ok ≡ true → s.frames.state ≢ done)
      → Good s b (resumed z s r)
  unfolding resumed is_fresh
  resumed-Good s d b (st, f, b', d') at out (adv, short, goes) more =
      if_split (Good s b) (not (is st ok)) (λ _. (adv, short))
        (λ good. (
          adv,
          λ h. (
            short h,
            let (here, how) = goes h (ground arith) in
                elim how [
                  | inl less ↦
                      byte_moved s (next s f d') b b' (omega (arith, adv.dst_le, adv.dst_size))
                  | inr (same, some_in) ↦ stays_in s (next s f d') b b' (left_le b b' adv) (
                      omega (
                        arith,
                        ap (λ (x : FrameState). rank x (ends.fresh d') (avail_in b')) here,
                        ap (λ (x : D). rank body (ends.fresh x) (avail_in b')) same,
                        ap (λ (o : Option D). rank s.frames.state (is_fresh o) (avail_in b)) at,
                        rank-body s.frames.state (ends.fresh d) (avail_in b) (avail_in b') out
                            (more (ground arith)) some_in,
                      ))
                ],
          ),
        ))

  -- In the body, after a call of the library that took `used` bytes and left `d'`.
  module _ (s : Zstd C D) (d : D) (b : Buffer) (at : s.dctx ≡ some d)
      (inside : s.frames.state ≡ body) where
    rank_here :
        rank s.frames.state (is_fresh s.dctx) (avail_in b) ≡ rank body (ends.fresh d) (avail_in b)
    unfolding is_fresh
    rank_here =
        ap (λ (x : FrameState). rank x (is_fresh s.dctx) (avail_in b)) inside
        ∙ ap (λ (o : Option D). rank body (is_fresh o) (avail_in b)) at

    unstalled-Good :
        (b' : Buffer) (r : Status × Frames × D)
        → Advances b b'
        → Stalls s.frames (avail_in b) r
        → Good s b (unstalled z s b' r)
    unfolding unstalled is_fresh
    unstalled-Good b' (st, f, d') adv (short, dry) =
        if_split (Good s b) (not (is st ok)) (λ _. (adv, short))
          (λ good. (
            adv,
            λ h. (
              short h,
              let (over, none_in) = dry (ground arith) in
                  let left : avail_in b' ≡ 0 =
                    omega (arith, left_le b b' adv, adv.src_le, adv.src_size) in
                  stays_in s (next s f d') b b' (left_le b b' adv) (
                    omega (
                      arith,
                      rank_here,
                      ap (λ (x : FrameState). rank x (ends.fresh d') (avail_in b')) over,
                      ap (λ (n : ℕ). rank between (ends.fresh d') n) left,
                      rank-dry (ends.fresh d) (ends.fresh d') (avail_in b),
                    )),
            ),
          ))

    -- The frame ended: the library is at a start now, and was not before unless it took a byte.
    ended-Good :
        (b' : Buffer) (d' : D)
        → Advances b b'
        → ends.fresh d' ≡ true
        → (avail_in b' + avail_out b' < avail_in b + avail_out b ⊎ ends.fresh d ≡ false)
        → Good s b (again (next s (frames_ended s.frames) d', b'))
    unfolding frames_ended is_fresh
    ended-Good b' d' adv fresh (inl less) = (adv, λ h. (omega arith, byte_moved s _ b b' less))
    ended-Good b' d' adv fresh (inr begun) = (
      adv,
      λ h. (
        omega arith,
        stays_in s _ b b' (left_le b b' adv) (
            omega (
              arith,
              rank_here,
              ap (λ (x : Bool). rank between x (avail_in b')) fresh,
              rank-between (ends.fresh d) (avail_in b) (avail_in b') begun,
            )),
      ),
    )

    pub decoded-Good :
        (flush : ℕ) (d' : D) (still : Bool) (b' : Buffer) (r : ℕ)
        → Advances b b'
        → (still ≡ false → avail_in b' + avail_out b' < avail_in b + avail_out b)
        → (r ≡ 0
            → (ends.fresh d' ≡ true)
              × (avail_in b' + avail_out b' < avail_in b + avail_out b ⊎ ends.fresh d ≡ false))
        → Good s b (decoded z flush s d' b still b' r)
    unfolding decoded
    decoded-Good flush d' still b' zero adv less frame =
        ended-Good b' d' adv (frame refl).0 (frame refl).1
    decoded-Good flush d' still b' (suc r) adv less frame =
        if_split (Good s b) still
          (λ _. unstalled-Good b' _ adv (
            frames_stalled-Stalls s.frames (avail_in b) (avail_out b) flush
              (probe z s.encoder s.max_output) d'))
          (λ go. (adv, λ h. (h, byte_moved s _ b b' (less go))))
