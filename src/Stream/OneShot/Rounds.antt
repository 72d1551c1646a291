-- ===== src/Stream/OneShot/Rounds.antt =====
-- The loop of `zu_int_one_shot` (src/zu_stream.c) returns, over any handle whose calls keep the cursors.
use zukomp.Base.{
  Option, List, length, is_none, ◌||◌, word, ℕ, refl, ap, sym, subst, false, not, true, Bool-cases,
  ◌&&◌, ◌==◌, ◌+◌, ◌<◌, ◌≡◌, ◌⊎◌, inl, inr, some, arith, loop_total, Rounds,
}
use zukomp.Buffer.{
  bytes, Buffer, IsValid, Advances, Advances-refl, Advances-trans, avail_in, avail_out,
}
use zukomp.Types.{Status, need_input, need_output, ok, stream_end, code, is, zu_finish}
use zukomp.Stream.OneShot.{whole, after_call, iteration, run_to_end}

-- The arguments of a one-shot call pass its first test, and make a valid buffer.
pub arguments_there :
    (src dst : Option (List ℕ)) (n cap : ℕ)
    → length (bytes src) ≡ n
    → length (bytes dst) ≡ cap
    → (is_none src && not (n == 0) || is_none dst && not (cap == 0)) ≡ false
arguments_there src dst n cap hn hcap = ground (arith, hn, hcap)

pub whole-IsValid :
    (src dst : Option (List ℕ)) (n cap : ℕ)
    → length (bytes src) ≡ n
    → length (bytes dst) ≡ cap
    → n < word
    → cap < word
    → IsValid (whole src n dst cap)
whole-IsValid src dst n cap hn hcap ln lcap = record {
  src_in = omega arith;
  dst_in = omega arith;
  src_mem = omega arith;
  dst_mem = omega arith;
  src_word = ln;
  dst_word = lcap;
}

module _ {H : Type 0} (process : H → Buffer → ℕ → Status × H × Buffer) (I : H → Buffer → Type 0)
    (Q : H → Buffer → Type 0)
    (moves : (h : H) (b : Buffer) → I h b → Advances b (process h b zu_finish).2)
    (goes_on : (h : H) (b : Buffer)
      → I h b
      → code (process h b zu_finish).0 < 3
      → let r = process h b zu_finish in I (r.1) (r.2))
    (ends : (h : H) (b : Buffer)
      → I h b
      → is (process h b zu_finish).0 stream_end ≡ true
      → let r = process h b zu_finish in Q (r.1) (r.2))
    (first : Buffer) where
  abbrev Kept : H × Buffer → Type 0
  Kept (h, b) = I h b × Advances first b

  -- A returned status is ZU_OK, after the end of the stream, or an error.
  abbrev pub Returned : Status × H × Buffer → Type 0
  Returned (st, h, b) = Advances first b × (st ≡ ok ⊎ 3 < code st) × (st ≡ ok → Q h b)

  left : H × Buffer → ℕ
  left (h, b) = avail_in b + avail_out b

  closer :
      (b b' c : Buffer)
      → c ≡ b
      → Advances b b'
      → (b'.dst_pos == b.dst_pos && b'.src_pos == b.src_pos) ≡ false
      → avail_in b' + avail_out b' < avail_in c + avail_out c
  closer b b' c e m moved =
      subst (λ d. avail_in b' + avail_out b' < avail_in d + avail_out d) (sym e)
        (ground (arith, m.src_size, m.dst_size, m.src_le, m.dst_le, m.src_in, m.dst_in))

  after_call-Rounds :
      (b : Buffer) (st : Status) (h : H) (b' : Buffer)
      → Advances b b'
      → Advances first b'
      → (code st < 3 → I h b')
      → (is st stream_end ≡ true → Q h b')
      → (x : H × Buffer) → x.1 ≡ b
      → Rounds Kept Returned left x (after_call b (st, h, b'))
  unfolding after_call left
  after_call-Rounds b st h b' m a i q x e = elim (Bool-cases (is st stream_end)) [
    | inl end ↦ rw end (a, inl refl, λ z. q end)
    | inr more ↦
        elim (Bool-cases (not (is st ok) && not (is st need_input) && not (is st need_output))) [
          | inl fails ↦
              rw (more, fails) (a, inr (ground arith), λ z. absurd (ground (arith, ap code z)))
          | inr goes ↦ elim (Bool-cases (is st need_output && b'.dst_pos == b'.dst_size)) [
            | inl full ↦
                rw (more, goes, full) (a, inr (omega arith), λ z. absurd (omega (arith, ap code z)))
            | inr room ↦ elim (Bool-cases (b'.dst_pos == b.dst_pos && b'.src_pos == b.src_pos)) [
              | inl stuck ↦
                  rw (more, goes, room, stuck)
                    (a, inr (omega arith), λ z. absurd (omega (arith, ap code z)))
              | inr moved ↦
                  rw (more, goes, room, moved) ((i (ground arith), a), closer b b' x.1 e m moved)
            ]
          ]
        ]
  ]

  round : (x : H × Buffer) → Kept x → Rounds Kept Returned left x (iteration process x)
  unfolding iteration
  round (h, b) (i, a) =
      let m = moves h b i in
      let (st, h', b') = process h b zu_finish in
      after_call-Rounds b st h' b' m (Advances-trans a m) (goes_on h b i) (ends h b i) (h, b) refl

  -- From any handle in `I`, the loop leaves within its fuel, by an answer as in `Returned`.
  pub run_to_end-Returned :
      (h : H)
      → I h first
      → IsValid first
      → (r : Status × H × Buffer) × (run_to_end process h first ≡ some r) × Returned r
  unfolding run_to_end left
  run_to_end-Returned h i v =
      loop_total (iteration process) Kept Returned left round (first.src_size + first.dst_size + 1)
        (h, first) (omega (arith, v.src_in)) (i, Advances-refl first v)
