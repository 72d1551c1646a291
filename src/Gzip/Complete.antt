-- ===== src/Gzip/Complete.antt =====
-- The parser of src/zu_gzip.c accepts every header of the grammar, and stops exactly at its end.
use zukomp.Base.{
  ℕ, suc, ◌+◌, ◌/◌, ◌%◌, ◌<◌, ◌≡◌, refl, ◌∙◌, Bool, true, false, not, Option, none, some, List, [],
  ◌∷◌, ◌++◌, length, has_bit, arith, is_none, ltb, set,
}
use zukomp.Gzip.{
  Header, done, header_init, after_fixed, after_extra, after_name, after_comment, fextra, fname,
  fcomment, fhcrc,
}
use zukomp.Gzip.Grammar.{
  Parsed, complete, feed_all, Fields, flags, print_extra, print_text, print_fixed, print_check,
  crc_over, print, IsText, IsExtra, IsHeader, bit, bool_bit,
}
use zukomp.Gzip.Steps.{
  crc_over-append, crc_over-text, resume, feed_name, feed_comment, feed_extra_lem, feed_xlen,
  feed_check, at_fixed, feed_start, feed_middle, feed_last,
}

-- The flag bits say which fields are there.
record Says (g : ℕ) (f : Fields) : Type 0 where
  checked : has_bit g fhcrc ≡ f.checked
  extra : has_bit g fextra ≡ not (is_none f.extra)
  name : has_bit g fname ≡ not (is_none f.name)
  comment : has_bit g fcomment ≡ not (is_none f.comment)

flags_bits :
    (t c : Bool) (e n m : Option (List ℕ))
    → let g = bool_bit 1 t + bool_bit 2 c + bit 4 e + bit 8 n + bit 16 m in
      (g < 32)
      × (has_bit g fhcrc ≡ c)
      × (has_bit g fextra ≡ not (is_none e))
      × (has_bit g fname ≡ not (is_none n))
      × (has_bit g fcomment ≡ not (is_none m))
flags_bits t c e n m = ground arith

module _ (crc32 : ℕ → List ℕ → ℕ) where
  -- The run is done at the bytes `rest`, with the flags `g`.
  Completes : ℕ → List ℕ → Parsed → Type 0
  Completes g rest p = (h : Header) × (p ≡ complete h rest) × (h.flg ≡ g)

  check_Completes :
      (h : Header) (c : Bool) (rest : List ℕ)
      → has_bit h.flg fhcrc ≡ c
      → Completes h.flg rest (
          resume crc32
            (record h { state = after_comment h.flg; hcrc_pos = 0 })
            (print_check c h.crc rest))
  unfolding resume Completes
  check_Completes h true rest e = rw e (feed_check crc32 h rest)
  check_Completes h false rest e = rw e (record h { state = done; hcrc_pos = 0 }, refl, refl)

  comment_Completes :
      (h : Header) (o : Option (List ℕ)) (c : Bool) (rest : List ℕ)
      → IsText o
      → has_bit h.flg fcomment ≡ not (is_none o)
      → has_bit h.flg fhcrc ≡ c
      → Completes h.flg rest (
          resume crc32
            (record h { state = after_name h.flg; field_len = 0; hcrc_pos = 0 })
            (print_text o (print_check c (crc_over crc32 h.crc (print_text o [])) rest)))
  unfolding crc_over resume
  comment_Completes h none c rest t e e' =
      rw e (check_Completes (record h { field_len = 0 }) c rest e')
  comment_Completes h (some xs) c rest t e e' =
      let after = print_check c (crc_over crc32 h.crc (xs ++ (0 ∷ []))) rest in
      rw (e, feed_comment crc32 (record h { hcrc_pos = 0 }) xs after 0 t.0 (omega (arith, t.1)))
        (check_Completes (record h { field_len = 0; crc = crc_over crc32 h.crc (xs ++ (0 ∷ [])) }) c
          rest e')

  -- NAME, COMMENT and the checksum, whose bytes before the checksum are `tail`.
  name_Completes :
      (h : Header) (n o : Option (List ℕ)) (c : Bool) (rest : List ℕ)
      → IsText n
      → IsText o
      → has_bit h.flg fname ≡ not (is_none n)
      → has_bit h.flg fcomment ≡ not (is_none o)
      → has_bit h.flg fhcrc ≡ c
      → Completes h.flg rest (
          resume crc32
            (record h { state = after_extra h.flg; field_len = 0; hcrc_pos = 0 })
            (print_text n (
              print_text o
                (print_check c (crc_over crc32 h.crc (print_text n (print_text o []))) rest))))
  unfolding crc_over resume
  name_Completes h none o c rest t t' e e' e'' = rw e (comment_Completes h o c rest t' e' e'')
  name_Completes h (some xs) o c rest t t' e e' e'' =
      let crc = crc_over crc32 h.crc (xs ++ (0 ∷ [])) in
      let split = crc_over-text crc32 h.crc xs (print_text o []) in
      let after = print_text o (print_check c (crc_over crc32 crc (print_text o [])) rest) in
      rw (split, e, feed_name crc32 (record h { hcrc_pos = 0 }) xs after 0 t.0 (omega (arith, t.1)))
        (comment_Completes (record h { crc = crc }) o c rest t' e' e'')

  abbrev tail : Fields → List ℕ → List ℕ
  tail f rest = print_text f.name (print_text f.comment rest)

  -- The extra field and all that follows it.
  extra_Completes :
      (h : Header) (f : Fields) (e : Option (List ℕ)) (rest : List ℕ)
      → IsExtra e
      → IsHeader f
      → Says h.flg f
      → has_bit h.flg fextra ≡ not (is_none e)
      → Completes h.flg rest (
          resume crc32
            (record h {
              state = after_fixed h.flg;
              xlen = 0;
              xlen_pos = 0;
              xpos = 0;
              field_len = 0;
              hcrc_pos = 0;
            })
            (print_extra e (
              tail f
                (print_check f.checked (crc_over crc32 h.crc (print_extra e (tail f []))) rest))))
  unfolding crc_over resume
  extra_Completes h f none rest i v s b = rw b (
      name_Completes (record h { xlen = 0; xlen_pos = 0; xpos = 0 }) f.name f.comment f.checked rest
        v.name v.comment s.name s.comment s.checked)
  extra_Completes h f (some []) rest i v s b =
      let crc = crc_over crc32 h.crc (0 ∷ 0 ∷ []) in
      let after = tail f (print_check f.checked (crc_over crc32 crc (tail f [])) rest) in
      let at_xlen = record h { xpos = 0; field_len = 0; hcrc_pos = 0 } in
      rw (b, feed_xlen crc32 at_xlen 0 after (omega arith))
        (name_Completes (record h { xlen = 0; xlen_pos = 2; xpos = 0; crc = crc }) f.name f.comment
          f.checked rest v.name v.comment s.name s.comment s.checked)
  extra_Completes h f (some (x ∷ xs)) rest i v s b =
      let n = suc (length xs) in
      let crc1 = crc_over crc32 h.crc ((n % 256) ∷ (n / 256) ∷ []) in
      let crc = crc_over crc32 crc1 (x ∷ xs) in
      let after = tail f (print_check f.checked (crc_over crc32 crc (tail f [])) rest) in
      let at_xlen = record h { xpos = 0; field_len = 0; hcrc_pos = 0 } in
      let at_extra = record h { xlen_pos = 2; field_len = 0; hcrc_pos = 0; crc = crc1 } in
      let split = crc_over-append crc32 (crc32 crc1 (x ∷ [])) xs (tail f []) in
      let some_left : ltb 0 n ≡ true = ground arith in
      let all : n ≡ 0 + length (x ∷ xs) = omega arith in
      rw
        (
          split,
          b,
          feed_xlen crc32 at_xlen n (x ∷ (xs ++ after)) i,
          some_left,
          feed_extra_lem crc32 at_extra x xs after 0 n all,
        )
        (name_Completes (record h { xlen = n; xlen_pos = 2; xpos = n; crc = crc }) f.name f.comment
          f.checked rest v.name v.comment s.name s.comment s.checked)

  -- The fixed part, with the flags `g`.
  fixed_run :
      (g m0 m1 m2 m3 xfl os : ℕ) (rest : List ℕ)
      → g < 32
      → (bytes : List ℕ) × (feed_all crc32
            (header_init crc32)
            (0x1f ∷ 0x8b ∷ 8 ∷ g ∷ m0 ∷ m1 ∷ m2 ∷ m3 ∷ xfl ∷ os ∷ rest)
          ≡ resume crc32
              (record (at_fixed crc32 bytes 10 g (
                crc_over crc32
                  (crc32 0 [])
                  (0x1f ∷ 0x8b ∷ 8 ∷ g ∷ m0 ∷ m1 ∷ m2 ∷ m3 ∷ xfl ∷ os ∷ []))) {
                    state = after_fixed g;
                  })
              rest)
  unfolding crc_over
  fixed_run g m0 m1 m2 m3 xfl os rest lt =
      let (b4, start) = feed_start crc32 g (m0 ∷ m1 ∷ m2 ∷ m3 ∷ xfl ∷ os ∷ rest) lt in
      let c4 = crc_over crc32 (crc32 0 []) (0x1f ∷ 0x8b ∷ 8 ∷ g ∷ []) in
      let b5 = set b4 4 m0 in
      let c5 = crc32 c4 (m0 ∷ []) in
      let b6 = set b5 5 m1 in
      let c6 = crc32 c5 (m1 ∷ []) in
      let b7 = set b6 6 m2 in
      let c7 = crc32 c6 (m2 ∷ []) in
      let b8 = set b7 7 m3 in
      let c8 = crc32 c7 (m3 ∷ []) in
      let b9 = set b8 8 xfl in
      let c9 = crc32 c8 (xfl ∷ []) in
      (
        set b9 9 os,
        start
            ∙ feed_middle crc32 b4 4 g c4 m0 _ (omega arith) (omega arith)
            ∙ feed_middle crc32 b5 5 g c5 m1 _ (omega arith) (omega arith)
            ∙ feed_middle crc32 b6 6 g c6 m2 _ (omega arith) (omega arith)
            ∙ feed_middle crc32 b7 7 g c7 m3 _ (omega arith) (omega arith)
            ∙ feed_middle crc32 b8 8 g c8 xfl _ (omega arith) (omega arith)
            ∙ feed_last crc32 b9 g c9 os rest,
      )

  -- For every header of the grammar, with texts of at most 65535 bytes and an extra field of at most
  -- 65535, and whatever bytes follow it: the parser, fed a byte at a time, reports it done exactly at
  -- its last byte, leaves the following bytes alone, and has its flags.
  pub print_accepted :
      (f : Fields) (rest : List ℕ)
      → IsHeader f
      → (h : Header) × (feed_all crc32 (header_init crc32) (print crc32 f rest) ≡ complete h rest)
        × (h.flg ≡ flags f)
  unfolding print crc_over Completes resume header_init
  print_accepted f rest v =
      let bits = flags_bits f.text f.checked f.extra f.name f.comment in
      let says : Says (flags f) f = record {
        checked = bits.1;
        extra = bits.2;
        name = bits.3;
        comment = bits.4;
      } in
      let c10 = crc_over crc32 (crc32 0 []) (print_fixed f []) in
      let check = crc_over crc32 c10 (print_extra f.extra (tail f [])) in
      let after = print_extra f.extra (tail f (print_check f.checked check rest)) in
      let (bytes, run) = fixed_run (flags f) f.m0 f.m1 f.m2 f.m3 f.xfl f.os after bits.0 in
      let (h, e, k) =
        extra_Completes (at_fixed crc32 bytes 10 (flags f) c10) f f.extra rest v.extra v says
          bits.2 in
      (h, run ∙ e, k)
