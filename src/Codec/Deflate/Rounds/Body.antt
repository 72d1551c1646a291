-- ===== src/Codec/Deflate/Rounds/Body.antt =====
-- src/codec_deflate.c: the rounds of `deflate_process` in ST_BODY.
use zukomp.Base.{
  ℕ, ◌+◌, ◌≤◌, ◌<◌, ◌≡◌, refl, ◌∙◌, Bool, false, ◌&&◌, ◌==◌, if◌then◌else◌, List, length,
  length-take, length-write, drop, write, if_elim, if_split, arith,
}
use zukomp.Codec.Deflate.Rounds.{Good, byte_moved, stays_in, into-Sound, unmoved, rank_at}
use zukomp.Buffer.{
  bytes, Buffer, IsValid, Advances, Advances-trans, Advances-IsValid, consume-Advances,
  emit-Advances, avail_in, avail_out, peek, emit,
}
use zukomp.Codec.Miniz.{
  Code, mz_ok, mz_stream_end, mz_buf_error, mz_data_error, mz_mem_error, mz_param_error,
  mz_stream_error, mz_need_dict, mz_other, Engine, Turn, Bounded,
}
use zukomp.Codec.Deflate.{Deflate, body, trailer, done, trailer_bytes}
use zukomp.Codec.Deflate.Sound.{Sound, fits_done, fits_trailer, rank}
use zukomp.Codec.Deflate.{is_raw}
use zukomp.Codec.Deflate.Process.{turn, counted, moved, ended, carry_on, after_turn, in_body, offer}

offer_le : (n : ℕ) → offer n ≤ n
offer_le n = ground arith

peek_le : (b : Buffer) (n : ℕ) → length (peek b n) ≤ n
peek_le b n = omega (arith, length-take n (drop b.src_pos (bytes b.src)))

module _ {M : Type 0} (e : Engine M) (law : Bounded e) (s : Deflate M) (b : Buffer)
    (v : IsValid b) where
  -- A call stays within what is on offer.
  pub turn_used : (flush : ℕ) → (turn e flush s b).used ≤ avail_in b
  unfolding turn
  turn_used flush =
      let xs = peek b (offer (avail_in b)) in
      let le : length xs ≤ avail_in b =
        omega (arith, peek_le b (offer (avail_in b)), offer_le (avail_in b)) in
      if_elim (λ (t : Turn M). t.used ≤ avail_in b) s.encoder
        (omega (arith, law.deflate_used s.mz xs _ _)) (omega (arith, law.inflate_used s.mz xs _ _))

  pub turn_out : (flush : ℕ) → length (turn e flush s b).out ≤ avail_out b
  unfolding turn
  turn_out flush =
      let xs = peek b (offer (avail_in b)) in
      let room = offer (avail_out b) in
      let le : room ≤ avail_out b = offer_le (avail_out b) in
      if_elim (λ (t : Turn M). length t.out ≤ avail_out b) s.encoder
        (omega (arith, law.deflate_room s.mz xs room _))
        (omega (arith, law.inflate_room s.mz xs room _))

  pub moved-Advances :
      (t : Turn M) → t.used ≤ avail_in b → length t.out ≤ avail_out b → Advances b (moved e b t)
  moved-Advances t used out =
      let p = emit-Advances b t.out v out in
      Advances-trans p (consume-Advances (emit b t.out) t.used (Advances-IsValid v p) used)

  ended-Sound :
      (s' : Deflate M)
      → Sound s'
      → is_raw s'.wrap ≡ false
      → (tail : List ℕ) → length tail ≡ length s'.tail
      → Sound (record s' { tail = tail; tail_pos = 0; stage = trailer })
  ended-Sound s' k w tail len = record {
    fitting = fits_trailer s'.encoder s'.wrap w;
    hdr_is = k.hdr_is;
    hdr_in = k.hdr_in;
    hdr_room = k.hdr_room;
    tail_is = k.tail_is;
    tail_in = omega arith;
    tail_room = len ∙ k.tail_room;
  }

  length-new_tail :
      (s' : Deflate M) (tail : List ℕ)
      → length (if s'.encoder then write s'.tail 0 tail else s'.tail) ≡ length s'.tail
  length-new_tail s' tail =
      if_elim (λ (xs : List ℕ). length xs ≡ length s'.tail) s'.encoder (length-write s'.tail 0 tail)
        refl

  module _ (at : s.stage ≡ body) (s' : Deflate M) (b' : Buffer)
      (same : rank s'.stage s'.tail_pos ≡ 2) (keeps : Sound s → Sound s')
      (adv : Advances b b') where
    ended-Good : Good s b (ended e s' b')
    unfolding ended rank
    ended-Good =
        if_split (Good s b) (is_raw s'.wrap)
          (λ w. (adv, λ k. into-Sound s' done (fits_done s'.encoder s'.wrap) (keeps k)))
          (λ w. (
            adv,
            λ k. (
              ended-Sound s' (keeps k) w _
                  (length-new_tail s' (trailer_bytes s'.wrap s'.checksum s'.uncompressed)),
              stays_in s _ b b' (omega (arith, adv.src_le, adv.dst_le, adv.src_size, adv.dst_size))
                  (omega (arith, rank_at s body 2 at refl)),
            ),
          ))

    carry_on-Good :
        (flush room : ℕ) (still : Bool)
        → (still ≡ false → avail_in b' + avail_out b' < avail_in b + avail_out b)
        → Good s b (carry_on e flush room still s' b')
    unfolding carry_on
    carry_on-Good flush room still less =
        if_split (Good s b) still (λ _. (adv, keeps))
          (λ go. (adv, λ k. (keeps k, byte_moved s s' b b' (less go))))

    after_turn-Good :
        (flush room : ℕ) (still : Bool)
        → (still ≡ false → avail_in b' + avail_out b' < avail_in b + avail_out b)
        → (mz : Code) → Good s b (after_turn e flush room still s' b' mz)
    unfolding after_turn
    after_turn-Good flush room still less mz_ok = carry_on-Good flush room still less
    after_turn-Good flush room still less mz_stream_end = ended-Good
    after_turn-Good flush room still less mz_buf_error = carry_on-Good flush room still less
    after_turn-Good flush room still less mz_data_error = (adv, keeps)
    after_turn-Good flush room still less mz_mem_error = (adv, keeps)
    after_turn-Good flush room still less mz_param_error = (adv, keeps)
    after_turn-Good flush room still less mz_stream_error = (adv, keeps)
    after_turn-Good flush room still less mz_need_dict = (adv, keeps)
    after_turn-Good flush room still less mz_other = (adv, keeps)

  something_moved :
      (t : Turn M)
      → t.used ≤ avail_in b
      → length t.out ≤ avail_out b
      → (t.used == 0 && length t.out == 0) ≡ false
      → avail_in (moved e b t) + avail_out (moved e b t) < avail_in b + avail_out b
  something_moved t used out go = ground arith

  pub in_body-Good : s.stage ≡ body → (flush : ℕ) → Good s b (in_body e flush s b)
  unfolding in_body counted rank
  in_body-Good at flush =
      let t = turn e flush s b in
      let used = turn_used flush in
      let out = turn_out flush in
      if_elim (Good s b) (avail_out b == 0 && s.encoder) (unmoved s b v) (
        after_turn-Good at (counted e s b t) (moved e b t) (rank_at s body 2 at refl) (λ k. k)
          (moved-Advances t used out) flush (avail_out b) _ (something_moved t used out) t.result)
