-- ===== src/Codec/Deflate/Rounds/Trail.antt =====
-- src/codec_deflate.c: the rounds of `deflate_process` in ST_TRAILER.
use zukomp.Base.{
  ℕ, zero, suc, ◌≤◌, ◌<◌, ◌≡◌, refl, subst, true, false, not, ◌==◌, if◌then◌else◌, ltb, get_or,
  length-set, if_elim, if_split, arith,
}
use zukomp.Codec.Deflate.Rounds.{
  Good, measure, into, byte_moved, stays_in, into-Sound, tail_read, unmoved, rank_at,
}
use zukomp.Buffer.{
  byte_in, byte_out, next_byte, Buffer, IsValid, Advances-refl, avail_in, avail_out,
}
use zukomp.Types.{Status, ok, is}
use zukomp.Codec.Miniz.{Engine}
use zukomp.Codec.Deflate.{check_trailer, Deflate, Stage, trailer, member_end, done}
use zukomp.Codec.Deflate.Sound.{fits, Sound, fits_done, fits_member_end, rank}
use zukomp.Codec.Deflate.Process.{write_tail, read_tail, verified}

rank_pos : (p : ℕ) → 1 ≤ p → rank trailer p ≡ 5
unfolding rank
rank_pos zero h = absurd (omega arith)
rank_pos (suc p) h = refl

module _ {M : Type 0} (e : Engine M) (s : Deflate M) (b : Buffer) (v : IsValid b)
    (at : s.stage ≡ trailer) where
  write_tail-Good : Good s b (write_tail e s b)
  unfolding write_tail
  write_tail-Good =
      if_split (Good s b) (ltb s.tail_pos s.tail_len)
        (λ lt.
          if_split (Good s b) (avail_out b == 0) (λ full. unmoved s b v)
            (λ room.
              let out = byte_out b (get_or s.tail s.tail_pos 0) v room in
              (out.0, λ k. (tail_read s s.tail k lt refl, byte_moved s _ b _ out.1))))
        (λ over. (Advances-refl b v, λ k. into-Sound s done (fits_done s.encoder s.wrap) k))

  member_ended :
      s.encoder ≡ false
      → ltb s.tail_pos s.tail_len ≡ false
      → Sound s
      → Sound (into member_end s) × (measure (into member_end s) b < measure s b)
  unfolding rank
  member_ended d over k =
      let f =
        fits_member_end s.encoder s.wrap d
          (subst (λ (st : Stage). fits s.encoder s.wrap st ≡ true) at k.fitting) in
      let le : s.tail_len ≤ s.tail_pos = ground arith in
      (
        into-Sound s member_end f.0 k,
        stays_in s (into member_end s) b b (omega arith) (
            omega (
              arith,
              rank_at s trailer 5 at (rank_pos s.tail_pos (omega (arith, k.tail_is, f.1))),
            )),
      )

  verified-Good :
      s.encoder ≡ false
      → ltb s.tail_pos s.tail_len ≡ false
      → (st : Status) → Good s b (verified e s b st)
  unfolding verified
  verified-Good d over st =
      if_elim (Good s b) (not (is st ok)) (unmoved s b v) (Advances-refl b v, member_ended d over)

  read_tail-Good : s.encoder ≡ false → (flush : ℕ) → Good s b (read_tail e flush s b)
  unfolding read_tail
  read_tail-Good d flush =
      if_split (Good s b) (ltb s.tail_pos s.tail_len)
        (λ lt.
          if_split (Good s b) (avail_in b == 0) (λ dry. unmoved s b v)
            (λ more. (
              (byte_in b v more).0,
              λ k. (
                tail_read s _ k lt (length-set s.tail s.tail_pos (next_byte b)),
                byte_moved s _ b _ (byte_in b v more).1,
              ),
            )))
        (λ over. verified-Good d over (check_trailer s.wrap s.tail s.checksum s.uncompressed))

  pub in_trailer-Good :
      (flush : ℕ) → Good s b (if s.encoder then write_tail e s b else read_tail e flush s b)
  in_trailer-Good flush =
      if_split (Good s b) s.encoder (λ _. write_tail-Good) (λ d. read_tail-Good d flush)
