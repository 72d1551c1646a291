-- ===== src/Codec/Deflate/Sound.antt =====
-- src/codec_deflate.c: what a state of the DEFLATE family keeps, and that making and resetting give it.
use zukomp.Base.{
  ℕ, zero, suc, ◌≤◌, ◌<◌, ◌≡◌, refl, ◌∙◌, Bool, true, false, not, List, length, length-write,
  if_elim, arith,
}
use zukomp.Base.Int.{ℤ}
use zukomp.Types.{Status, ok, is, level_default}
use zukomp.Codec.Miniz.{
  Code, mz_ok, mz_stream_end, mz_buf_error, mz_data_error, mz_mem_error, mz_param_error,
  mz_stream_error, mz_need_dict, mz_other, Engine, Bounded, starts,
}
use zukomp.Codec.Deflate.{
  Deflate, Wrap, raw, zlib, gzip, Stage, header, body, trailer, member_end, done, from_mz,
}
use zukomp.Codec.Deflate.Life.{
  header_size, trailer_size, first_stage, own_header, is_ok, deflate_reset, restarted, begun,
  wanted, rewound,
}
use zukomp.Codec.Deflate.{is_raw}

-- The stages that a stream of this direction and wrapper can be in.
unfoldable pub fits : Bool → Wrap → Stage → Bool
fits encoder raw body = true
fits encoder raw done = true
fits encoder raw _ = false
fits true _ member_end = false
fits _ _ _ = true

-- The cursors stay in the two arrays, whose lengths are the wrapper's.
pub record Parts (encoder : Bool) (wrap : Wrap) (stage : Stage)
    (hdr_len hdr_pos tail_len tail_pos hdr_mem tail_mem : ℕ) : Type 0 where
  pub fitting : fits encoder wrap stage ≡ true
  pub hdr_is : hdr_len ≡ header_size wrap
  pub hdr_in : hdr_pos ≤ hdr_len
  pub hdr_room : hdr_mem ≡ 10
  pub tail_is : tail_len ≡ trailer_size wrap
  pub tail_in : tail_pos ≤ tail_len
  pub tail_room : tail_mem ≡ 8

abbrev pub Sound : {M : Type 0} → Deflate M → Type 0
Sound s =
    Parts s.encoder s.wrap s.stage s.hdr_len s.hdr_pos s.tail_len s.tail_pos (length s.hdr)
      (length s.tail)

pub fits_first : (encoder : Bool) (w : Wrap) → fits encoder w (first_stage w) ≡ true
unfolding fits
fits_first encoder raw = refl
fits_first true zlib = refl
fits_first false zlib = refl
fits_first true gzip = refl
fits_first false gzip = refl

pub fits_body : (encoder : Bool) (w : Wrap) → fits encoder w body ≡ true
unfolding fits
fits_body encoder raw = refl
fits_body true zlib = refl
fits_body false zlib = refl
fits_body true gzip = refl
fits_body false gzip = refl

pub fits_done : (encoder : Bool) (w : Wrap) → fits encoder w done ≡ true
unfolding fits
fits_done encoder raw = refl
fits_done true zlib = refl
fits_done false zlib = refl
fits_done true gzip = refl
fits_done false gzip = refl

pub fits_trailer : (encoder : Bool) (w : Wrap) → is_raw w ≡ false → fits encoder w trailer ≡ true
unfolding fits is_raw
fits_trailer encoder raw h = absurd (ground arith)
fits_trailer true zlib h = refl
fits_trailer false zlib h = refl
fits_trailer true gzip h = refl
fits_trailer false gzip h = refl

-- After a decoder's trailer there is one, and it is not empty.
pub fits_member_end :
    (encoder : Bool) (w : Wrap)
    → encoder ≡ false
    → fits encoder w trailer ≡ true
    → (fits encoder w member_end ≡ true) × (0 < trailer_size w)
unfolding fits
fits_member_end true w e h = absurd (ground arith)
fits_member_end false raw e h = absurd (ground arith)
fits_member_end false zlib e h = (refl, omega arith)
fits_member_end false gzip e h = (refl, omega arith)

pub length-own_header :
    (encoder : Bool) (w : Wrap) (level : ℤ) (hdr : List ℕ)
    → length (own_header encoder w level hdr) ≡ length hdr
length-own_header true raw level hdr = refl
length-own_header true zlib level hdr = length-write hdr 0 _
length-own_header true gzip level hdr = length-write hdr 0 _
length-own_header false w level hdr = refl

-- How much a stage has before it without moving a byte.
unfoldable pub rank : Stage → ℕ → ℕ
rank header p = 3
rank body p = 2
rank trailer zero = 1
rank trailer (suc p) = 5
rank member_end p = 4
rank done p = 0

pub rank_le : (st : Stage) (p : ℕ) → rank st p ≤ 5
unfolding rank
rank_le header p = omega arith
rank_le body p = omega arith
rank_le trailer zero = omega arith
rank_le trailer (suc p) = omega arith
rank_le member_end p = omega arith
rank_le done p = omega arith

rank-first_stage : (w : Wrap) (p : ℕ) → rank (first_stage w) p ≤ 3
unfolding rank
rank-first_stage raw p = omega arith
rank-first_stage zlib p = omega arith
rank-first_stage gzip p = omega arith

module _ {M : Type 0} (e : Engine M) where
  pub rewound-Sound : (s : Deflate M) → Sound s → Sound (rewound e s)
  unfolding rewound
  rewound-Sound s v = record {
    fitting = fits_first s.encoder s.wrap;
    hdr_is = v.hdr_is;
    hdr_in = omega arith;
    hdr_room = length-own_header s.encoder s.wrap s.level s.hdr ∙ v.hdr_room;
    tail_is = v.tail_is;
    tail_in = omega arith;
    tail_room = v.tail_room;
  }

  restarted-Sound :
      (s : Deflate M) (level : ℤ) (r : Code × M) → Sound s → Sound (restarted e s level r).1
  unfolding restarted
  restarted-Sound s level (mz, m) v =
      if_elim (λ (r : Status × Deflate M). Sound r.1) (not (is_ok mz)) v
        (rewound-Sound (record s { mz = m; level = level }) v)

  pub deflate_reset-Sound :
      (s : Deflate M) (level : ℤ) → Sound s → Sound (deflate_reset e s level).1
  unfolding deflate_reset
  deflate_reset-Sound s level v = restarted-Sound s _ _ v

  restarted-rank :
      (s : Deflate M) (level : ℤ) (mz : Code) (m : M)
      → starts mz ≡ true
      → is (restarted e s level (mz, m)).0 ok ≡ true
      → rank (restarted e s level (mz, m)).1.stage (restarted e s level (mz, m)).1.tail_pos ≤ 3
  unfolding restarted rewound from_mz
  restarted-rank s level mz_ok m h o = rank-first_stage s.wrap 0
  restarted-rank s level mz_stream_end m h o = absurd (ground arith)
  restarted-rank s level mz_buf_error m h o = absurd (ground arith)
  restarted-rank s level mz_data_error m h o = absurd (ground arith)
  restarted-rank s level mz_mem_error m h o = absurd (ground arith)
  restarted-rank s level mz_param_error m h o = absurd (ground arith)
  restarted-rank s level mz_stream_error m h o = absurd (ground arith)
  restarted-rank s level mz_need_dict m h o = absurd (ground arith)
  restarted-rank s level mz_other m h o = absurd (ground arith)

  begun_code :
      (s : Deflate M) (want : ℤ) → Bounded e → s.encoder ≡ false → starts (begun e s want).0 ≡ true
  unfolding begun
  begun_code s want law d = rw d (law.inflate_restarts s.mz)

  -- A decoder that was reset starts over.
  pub deflate_reset-rank :
      (s : Deflate M)
      → Bounded e
      → s.encoder ≡ false
      → is (deflate_reset e s level_default).0 ok ≡ true
      → rank (deflate_reset e s level_default).1.stage (deflate_reset e s level_default).1.tail_pos
        ≤ 3
  unfolding deflate_reset
  deflate_reset-rank s law d =
      let want = wanted e s level_default in
      restarted-rank s want (begun e s want).0 (begun e s want).1 (begun_code s want law d)
