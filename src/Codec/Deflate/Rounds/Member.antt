-- ===== src/Codec/Deflate/Rounds/Member.antt =====
-- src/codec_deflate.c: the rounds of `deflate_process` in ST_MEMBER_END.
use zukomp.Base.{
  ℕ, ◌≤◌, ◌<◌, ◌≡◌, refl, Bool, true, false, not, ◌&&◌, ◌||◌, ◌==◌, leb, if_elim, if_split, arith,
}
use zukomp.Codec.Deflate.Rounds.{Good, measure, stays_in, into-Sound, unmoved, rank_at}
use zukomp.Buffer.{byte_in, next_byte, Buffer, IsValid, Advances-refl, avail_in, consume}
use zukomp.Types.{Status, ok, is, zu_finish, level_default}
use zukomp.Gzip.{Header, header_feed}
use zukomp.Codec.Miniz.{Engine, Bounded}
use zukomp.Codec.Deflate.{Deflate, member_end, done}
use zukomp.Codec.Deflate.Life.{deflate_reset}
use zukomp.Codec.Deflate.Sound.{Sound, fits_done, rank, deflate_reset-Sound, deflate_reset-rank}
use zukomp.Codec.Deflate.Process.{
  no_more, next_member, probe, refed, held_over, probe_held, concat, at_member_end, stop,
}

module _ {M : Type 0} (e : Engine M) (law : Bounded e) (s : Deflate M) (b : Buffer) (v : IsValid b)
    (at : s.stage ≡ member_end) where
  stop-Good : Good s b (stop e s b)
  stop-Good = (Advances-refl b v, λ k. into-Sound s done (fits_done s.encoder s.wrap) k)

  starts_lower : (s' : Deflate M) → rank s'.stage s'.tail_pos ≤ 3 → measure s' b < measure s b
  unfolding rank
  starts_lower s' fresh =
      stays_in s s' b b (omega arith) (omega (arith, rank_at s member_end 4 at refl))

  -- What a reset gives, over the cursors as they stand.
  module _ (r : Status × Deflate M) (keeps : Sound s → Sound r.1)
      (fresh : is r.0 ok ≡ true → rank r.1.stage r.1.tail_pos ≤ 3) where
    next_member-Good : Good s b (next_member e b r)
    unfolding next_member
    next_member-Good =
        if_split (Good s b) (not (is r.0 ok)) (λ _. (Advances-refl b v, keeps))
          (λ good. (Advances-refl b v, λ k. (keeps k, starts_lower r.1 (fresh (ground arith)))))

    refed-Good :
        (h : Status × Header × Bool)
        → is r.0 ok ≡ true
        → Good s b (refed e b (record r.1 { probe_magic = false }) h)
    unfolding refed
    refed-Good (st, h, whole) good =
        if_elim (Good s b) (not (is st ok)) (Advances-refl b v, keeps)
          (Advances-refl b v, λ k. (keeps k, starts_lower _ (fresh good)))

    held_over-Good : Good s b (held_over e b r)
    unfolding held_over
    held_over-Good =
        if_split (Good s b) (not (is r.0 ok)) (λ _. (Advances-refl b v, keeps))
          (λ good. refed-Good (header_feed e.crc32 r.1.gz 0x1f) (ground arith))

  module _ (more : avail_in b == 0 ≡ false) (decodes : s.encoder ≡ false) where
    probe-Good : (flush : ℕ) → Good s b (probe e flush s b)
    unfolding probe
    probe-Good flush = if_elim (Good s b) (not (next_byte b == 0x1f)) stop-Good (
        if_elim (Good s b) (leb 2 (avail_in b))
          (if_elim (Good s b) (not (next_byte (consume b 1) == 0x8b)) stop-Good (
            next_member-Good (deflate_reset e s level_default)
              (deflate_reset-Sound e s level_default) (deflate_reset-rank e s law decodes)))
          (if_split (Good s b) (flush == zu_finish) (λ _. stop-Good)
            (λ _. ((byte_in b v more).0, λ k. k))))

    probe_held-Good : Good s b (probe_held e s b)
    unfolding probe_held
    probe_held-Good = if_elim (Good s b) (not (next_byte b == 0x8b)) stop-Good (
        held_over-Good (deflate_reset e s level_default) (deflate_reset-Sound e s level_default)
          (deflate_reset-rank e s law decodes))

  no_more-Good : Good s b (no_more e s b)
  unfolding no_more
  no_more-Good = (Advances-refl b v, λ k. into-Sound s done (fits_done s.encoder s.wrap) k)

  concat_decodes : concat e s ≡ true → s.encoder ≡ false
  unfolding concat
  concat_decodes h = ground arith

  pub at_member_end-Good : (flush : ℕ) → Good s b (at_member_end e flush s b)
  unfolding at_member_end
  at_member_end-Good flush =
      if_split (Good s b) (not (concat e s) || avail_in b == 0)
        (λ _.
          if_elim (Good s b)
            (avail_in b == 0 && not s.encoder && concat e s && not (flush == zu_finish))
            (unmoved s b v) no_more-Good)
        (λ on.
          let more : avail_in b == 0 ≡ false = ground arith in
          let decodes = concat_decodes (ground arith) in
          if_elim (Good s b) (not s.probe_magic) (probe-Good more decodes flush)
            (probe_held-Good more decodes))
