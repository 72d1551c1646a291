-- ===== src/Codec/Deflate/Rounds/Head.antt =====
-- src/codec_deflate.c: the rounds of `deflate_process` in ST_HEADER.
use zukomp.Base.{
  ℕ, ◌+◌, ◌<◌, ◌≡◌, refl, Bool, not, ◌==◌, ltb, get_or, length-set, if_elim, if_split, arith,
}
use zukomp.Codec.Deflate.Rounds.{
  Good, measure, into, byte_moved, stays_in, into-Sound, header_read, unmoved, rank_at,
}
use zukomp.Buffer.{
  byte_in, byte_out, next_byte, Buffer, IsValid, Advances, Advances-refl, avail_in, avail_out,
  consume,
}
use zukomp.Types.{Status, ok, is}
use zukomp.Gzip.{Header, header_feed}
use zukomp.Codec.Miniz.{Engine}
use zukomp.Codec.Deflate.{zlib_check_header, Deflate, header, body}
use zukomp.Codec.Deflate.Sound.{fits_body, rank}
use zukomp.Codec.Deflate.Process.{write_out, parse, parsed, collect, checked, in_header}

module _ {M : Type 0} (e : Engine M) (s : Deflate M) (b : Buffer) (v : IsValid b)
    (at : s.stage ≡ header) where
  header_done : measure (into body s) b < measure s b
  unfolding rank
  header_done =
      stays_in s (into body s) b b (omega arith) (omega (arith, rank_at s header 3 at refl))

  write_out-Good : Good s b (write_out e s b)
  unfolding write_out
  write_out-Good =
      if_split (Good s b) (ltb s.hdr_pos s.hdr_len)
        (λ lt.
          if_split (Good s b) (avail_out b == 0) (λ full. unmoved s b v)
            (λ room.
              let out = byte_out b (get_or s.hdr s.hdr_pos 0) v room in
              (out.0, λ k. (header_read s s.hdr k lt refl, byte_moved s _ b _ out.1))))
        (λ over.
          (Advances-refl b v, λ k. (into-Sound s body (fits_body s.encoder s.wrap) k, header_done)))

  parsed-Good :
      (b' : Buffer) (r : Status × Header × Bool)
      → Advances b b'
      → avail_in b' + avail_out b' < avail_in b + avail_out b
      → Good s b (parsed e s b' r)
  unfolding parsed
  parsed-Good b' (st, h, whole) adv less =
      if_elim (Good s b) (not (is st ok)) (adv, λ k. k)
        (if_elim (Good s b) (not whole) (adv, λ k. (k, byte_moved s _ b b' less))
          (adv, λ k. (into-Sound s body (fits_body s.encoder s.wrap) k, byte_moved s _ b b' less)))

  parse-Good : (flush : ℕ) → Good s b (parse e flush s b)
  unfolding parse
  parse-Good flush =
      if_split (Good s b) (avail_in b == 0) (λ dry. unmoved s b v)
        (λ more.
          parsed-Good (consume b 1) (header_feed e.crc32 s.gz (next_byte b)) (byte_in b v more).0
            (byte_in b v more).1)

  checked-Good : (st : Status) → Good s b (checked e s b st)
  unfolding checked
  checked-Good st =
      if_elim (Good s b) (not (is st ok)) (unmoved s b v)
        (Advances-refl b v, λ k. (into-Sound s body (fits_body s.encoder s.wrap) k, header_done))

  collect-Good : (flush : ℕ) → Good s b (collect e flush s b)
  unfolding collect
  collect-Good flush =
      if_split (Good s b) (ltb s.hdr_pos s.hdr_len)
        (λ lt.
          if_split (Good s b) (avail_in b == 0) (λ dry. unmoved s b v)
            (λ more. (
              (byte_in b v more).0,
              λ k. (
                header_read s _ k lt (length-set s.hdr s.hdr_pos _),
                byte_moved s _ b _ (byte_in b v more).1,
              ),
            )))
        (λ over. checked-Good (zlib_check_header s.hdr))

  pub in_header-Good : (flush : ℕ) → Good s b (in_header e flush s b)
  unfolding in_header
  in_header-Good flush =
      if_elim (Good s b) s.encoder write_out-Good
        (if_elim (Good s b) _ (parse-Good flush) (collect-Good flush))
