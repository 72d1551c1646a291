-- ===== src/Codec/Deflate/Rounds.antt =====
-- src/codec_deflate.c: what each round of `deflate_process` does to the cursors, the state and the
-- measure that bounds the loop.
pub mod Head
pub mod Body
pub mod Member
pub mod Trail
use zukomp.Base.{
  ℕ, zero, suc, ◌+◌, ◌-◌, ◌*◌, ◌≤◌, ◌<◌, ◌≡◌, refl, sym, ap, ◌∙◌, subst, Bool, true, false, not,
  ◌&&◌, ◌==◌, if◌then◌else◌, leb, ltb, ltb→lt, List, [], ◌∷◌, get_or, length, length-take,
  length-write, length-set, take, if_elim, if_split, min, Outcome, again, leave, arith, set,
}
use zukomp.Buffer.{
  Buffer, IsValid, Advances, Advances-refl, Advances-trans, Advances-IsValid, consume-Advances,
  emit-Advances, avail_in, avail_out, peek, consume, emit,
}
use zukomp.Types.{Status, ok, is, zu_finish, level_default}
use zukomp.Gzip.{Header}
use zukomp.Codec.Miniz.{
  Code, mz_ok, mz_stream_end, mz_buf_error, mz_data_error, mz_mem_error, mz_param_error,
  mz_stream_error, mz_need_dict, mz_other, Engine, Turn, Bounded,
}
use zukomp.Codec.Deflate.{Deflate, Stage, header, body, trailer, member_end, done, trailer_bytes}
use zukomp.Codec.Deflate.Life.{trailer_size, deflate_reset}
use zukomp.Codec.Deflate.Sound.{
  fits, Sound, fits_body, fits_done, fits_trailer, fits_member_end, rank, rank_le,
  deflate_reset-Sound, deflate_reset-rank,
}
use zukomp.Codec.Deflate.{Round, is_raw}
use zukomp.Codec.Deflate.Process.{
  write_out, parse, parsed, collect, checked, in_header, turn, counted, moved, ended, carry_on,
  after_turn, in_body, no_more, next_member, probe, refed, held_over, probe_held, concat,
  at_member_end, write_tail, read_tail, verified, at_stage, iteration, offer, stop,
}

module _ {M : Type 0} where
  unfoldable pub measure : Deflate M → Buffer → ℕ
  measure s b = 8 * (avail_in b + avail_out b) + rank s.stage s.tail_pos

  -- A round from `s` and `b` only advances the cursors; a sound state stays sound, and the measure
  -- is lower where the loop goes round again.
  abbrev pub Good : Deflate M → Buffer → Round M → Type 0
  Good s b (again (s', b')) = Advances b b' × (Sound s → Sound s' × (measure s' b' < measure s b))
  Good s b (leave (st, s', b')) = Advances b b' × (Sound s → Sound s')

  -- The cursors move, so that any stage may follow.
  pub byte_moved :
      (s s' : Deflate M) (b b' : Buffer)
      → avail_in b' + avail_out b' < avail_in b + avail_out b
      → measure s' b' < measure s b
  unfolding measure
  byte_moved s s' b b' h = omega (arith, rank_le s'.stage s'.tail_pos)

  pub stays_in :
      (s s' : Deflate M) (b b' : Buffer)
      → avail_in b' + avail_out b' ≤ avail_in b + avail_out b
      → rank s'.stage s'.tail_pos < rank s.stage s.tail_pos
      → measure s' b' < measure s b
  unfolding measure
  stays_in s s' b b' h lower = omega arith

  -- A state whose stage alone is another.
  abbrev pub into : Stage → Deflate M → Deflate M
  into st s = record s { stage = st }

  pub into-Sound :
      (s : Deflate M) (st : Stage) → fits s.encoder s.wrap st ≡ true → Sound s → Sound (into st s)
  into-Sound s st h v = record {
    fitting = h;
    hdr_is = v.hdr_is;
    hdr_in = v.hdr_in;
    hdr_room = v.hdr_room;
    tail_is = v.tail_is;
    tail_in = v.tail_in;
    tail_room = v.tail_room;
  }

  pub header_read :
      (s : Deflate M) (hdr : List ℕ)
      → Sound s
      → ltb s.hdr_pos s.hdr_len ≡ true
      → length hdr ≡ length s.hdr
      → Sound (record s { hdr = hdr; hdr_pos = s.hdr_pos + 1 })
  header_read s hdr v lt e = record {
    fitting = v.fitting;
    hdr_is = v.hdr_is;
    hdr_in = omega (arith, ltb→lt s.hdr_pos s.hdr_len lt);
    hdr_room = e ∙ v.hdr_room;
    tail_is = v.tail_is;
    tail_in = v.tail_in;
    tail_room = v.tail_room;
  }

  pub tail_read :
      (s : Deflate M) (tail : List ℕ)
      → Sound s
      → ltb s.tail_pos s.tail_len ≡ true
      → length tail ≡ length s.tail
      → Sound (record s { tail = tail; tail_pos = s.tail_pos + 1 })
  tail_read s tail v lt e = record {
    fitting = v.fitting;
    hdr_is = v.hdr_is;
    hdr_in = v.hdr_in;
    hdr_room = v.hdr_room;
    tail_is = v.tail_is;
    tail_in = omega (arith, ltb→lt s.tail_pos s.tail_len lt);
    tail_room = e ∙ v.tail_room;
  }

  pub unmoved : (s : Deflate M) (b : Buffer) → IsValid b → Advances b b × (Sound s → Sound s)
  unmoved s b v = (Advances-refl b v, λ k. k)

  pub rank_at :
      (s : Deflate M) (st : Stage) (n : ℕ)
      → s.stage ≡ st
      → rank st s.tail_pos ≡ n
      → rank s.stage s.tail_pos ≡ n
  rank_at s st n at r = ap (λ (x : Stage). rank x s.tail_pos) at ∙ r
