-- ===== src/Whole/Run/Returns.antt =====
-- src/zu_whole.c: the drive loop comes to an end, over calls that make progress below a ceiling.
use zukomp.Base.{
  ℕ, ◌+◌, ◌-◌, ◌*◌, ◌≤◌, ◌<◌, ◌≡◌, ◌⊎◌, inl, inr, refl, sym, ap, subst, false, not, Option, some,
  List, take, length, length-append, length-take, length-drop, ltb, leb, ◌==◌, ◌&&◌, add_word,
  if_split, Bool-cases, word, Outcome, loop_total, Rounds, arith,
}
use zukomp.Buffer.{Buffer, IsValid, Advances, bytes}
use zukomp.Types.{Status, ok, need_input, need_output, stream_end, err_internal, is, code}
use zukomp.Whole.{Outbuf, reserve}
use zukomp.Whole.Reserve.{
  IsValid as ValidSink, Reallocates, Reserved, reserve_makes_room, reserve_error,
}
use zukomp.Whole.Run.{
  RunOpts, Drive, Report, slice, refill, mode_of, over_sink, advanced, report, judged, called,
  reserved, stocked, drive_round, at_start, drive,
}
use zukomp.Whole.Run.Contract.{Paced, Proper, Reported}

module _ {H : Type 0} (process : H → Buffer → ℕ → Status × H × Buffer) (limit : ℕ)
    (Ready : H → ℕ → Type 0) (paced : Paced process limit Ready)
    (realloc : Option (List ℕ) → ℕ → Option (List ℕ)) (reallocates : Reallocates realloc)
    (r : RunOpts) (proper : Proper r) (o : Outbuf) where
  -- Between rounds.
  record Going (d : Drive H) : Type 0 where
    sink : ValidSink d.out
    grows : o.used ≤ d.out.used
    ready : Ready d.handle (d.out.used - o.used)
    capped : d.out.used ≤ o.used + limit
    fed_in : d.fed ≤ r.n
    src_in : d.buf.src_pos ≤ d.buf.src_size
    src_mem : d.buf.src_size ≤ length (bytes d.buf.src)
    src_word : d.buf.src_size < word
    offered : d.buf.src_size - d.buf.src_pos ≤ d.fed

  measure : Drive H → ℕ
  measure d =
      3 * (r.n - d.fed) + 2 * (d.buf.src_size - d.buf.src_pos) + (o.used + limit - d.out.used)

  -- Nothing was fed because there is input left, or none to feed.
  Refilled : Drive H → Drive H → Type 0
  Refilled d d' =
      measure d' < measure d ⊎ (d' ≡ d) × (d'.buf.src_pos ≡ d'.buf.src_size → r.n ≤ d'.fed)

  refill-Going : (d : Drive H) → Going d → Going (refill r d) × Refilled d (refill r d)
  unfolding refill Refilled measure
  refill-Going d g =
      let k = slice r d.fed in
      if_split (λ (d' : Drive H). Going d' × Refilled d d')
        (d.buf.src_pos == d.buf.src_size && ltb d.fed r.n)
        (λ t.
          let spent : d.buf.src_pos ≡ d.buf.src_size = ground arith in
          let more : d.fed < r.n = ground arith in
          let some_in : 0 < k = ground (arith, proper.in_some) in
          let fits : d.fed + k ≤ r.n = ground arith in
          (
            record {
              sink = g.sink;
              grows = g.grows;
              ready = g.ready;
              capped = g.capped;
              fed_in = fits;
              src_in = omega arith;
              src_mem = omega (arith, length-drop d.fed r.src, proper.size);
              src_word = omega (arith, proper.n_word);
              offered = omega arith;
            },
            inl (omega arith),
          ))
        (λ f. (g, inr (refl, λ e. ground arith)))

  over_sink-IsValid :
      (d : Drive H) (p : Outbuf)
      → Going d
      → ValidSink p
      → p.used + r.out_chunk ≤ p.size
      → IsValid (over_sink r p d.buf)
  over_sink-IsValid d p g v room = record {
    src_in = g.src_in;
    dst_in = omega arith;
    src_mem = g.src_mem;
    dst_mem = omega (arith, length-drop p.used (bytes p.buf), v.memory);
    src_word = g.src_word;
    dst_word = proper.out_word;
  }

  advanced-ValidSink :
      (d : Drive H) (p : Outbuf) (b' : Buffer)
      → ValidSink p
      → p.used + r.out_chunk ≤ p.size
      → Advances (over_sink r p d.buf) b'
      → ValidSink (advanced p b')
  advanced-ValidSink d p b' v room adv = record {
    memory = omega (
      arith,
      length-append (take p.used (bytes p.buf)) (bytes b'.dst),
      length-take p.used (bytes p.buf),
      length-drop p.used (bytes p.buf),
      adv.memory,
      v.memory,
      v.used_in,
    );
    used_in = omega (arith, adv.dst_in, adv.dst_size);
    size_word = v.size_word;
  }

  -- From `start`, a round is on its way at `d` with room in `p`; the call gives `x`.
  module _ (start d : Drive H) (g : Going d) (fed : Refilled start d) (p : Outbuf) (live : ℕ)
      (v : ValidSink p) (used : p.used ≡ d.out.used) (room : p.used + r.out_chunk ≤ p.size) where
    mode : ℕ
    mode = mode_of r (leb r.n d.fed) d.calls

    before : Buffer
    before = over_sink r p d.buf

    abbrev after : Status × H × Buffer
    after = process d.handle before mode

    abbrev onward : Drive H
    onward = record d {
      handle = after.1;
      out = advanced p after.2;
      live = live;
      buf = after.2;
      calls = add_word d.calls 1;
    }

    valid : IsValid before
    unfolding before
    valid = over_sink-IsValid d p g v room

    adv : Advances before after.2
    adv = paced.moves d.handle (d.out.used - o.used) before mode g.ready valid

    delivered : p.used + after.2.dst_pos ≤ o.used + limit
    unfolding before
    delivered = omega (
      arith,
      paced.within d.handle (d.out.used - o.used) before mode g.ready valid,
      used,
      g.grows,
    )

    onward-Going : code after.0 < 3 → Going onward
    unfolding before
    onward-Going c = record {
      sink = advanced-ValidSink d p after.2 v room adv;
      grows = omega (arith, used, g.grows);
      ready =
          subst (Ready after.1) (omega (arith, used, g.grows))
            (paced.goes_on d.handle (d.out.used - o.used) before mode g.ready valid c);
      capped = delivered;
      fed_in = g.fed_in;
      src_in = adv.src_in;
      src_mem =
          omega (
            arith,
            ap (λ (x : Option (List ℕ)). length (bytes x)) adv.src,
            adv.src_size,
            g.src_mem,
          );
      src_word = omega (arith, adv.src_size, g.src_word);
      offered = omega (arith, adv.src_size, adv.src_le, g.offered);
    }

    lower :
        code after.0 < 3
        → (after.2.dst_pos == 0 && leb r.n d.fed && is after.0 need_input) ≡ false
        → measure onward < measure start
    unfolding measure Refilled before
    lower c going =
        let same = adv.src_size in
        let le = adv.src_le in
        let top = delivered in
        elim fed [
          | inl less ↦ omega arith
          | inr (e, none_left) ↦
              let at : measure d ≡ measure start = ap measure e in
              elim (paced.progress d.handle (d.out.used - o.used) before mode g.ready valid
                (omega (arith, proper.out_some)) c) [
                  | inl (inl src_moved) ↦ omega (arith, adv.src_in)
                  | inl (inr dst_moved) ↦ omega arith
                  | inr (wants, all) ↦ elim (Bool-cases (d.buf.src_pos == d.buf.src_size)) [
                    | inl spent ↦
                        let last : r.n ≤ d.fed = none_left (ground arith) in
                        let wrote : 0 < after.2.dst_pos = ground arith in omega (arith, adv.src_in)
                    | inr some_left ↦
                        let more : d.buf.src_pos < d.buf.src_size = ground (arith, g.src_in) in
                        omega arith
                  ]
                ]
        ]

    abbrev Onwards : Outcome (Drive H) Report → Type 0
    Onwards x = Rounds Going (Reported limit r o) measure start x

    reported :
        (st : Status)
        → 2 < code st
        → Reported limit r o (report st (advanced p after.2) live d.fed after.2)
    unfolding before
    reported st bad = record {
      sink = advanced-ValidSink d p after.2 v room adv;
      delivered = delivered;
      consumed = omega (arith, g.fed_in);
      status = bad;
    }

    called-Onwards : Onwards (called r (record d { out = p; live = live }) after)
    unfolding called judged
    called-Onwards =
        let st = after.0 in
        if_split Onwards (is st stream_end) (λ t. reported st (ground arith))
          (λ f.
            if_split Onwards (not (is st ok) && not (is st need_input) && not (is st need_output))
              (λ t. reported st (ground arith))
              (λ on.
                let c : code st < 3 = ground arith in
                if_split Onwards (after.2.dst_pos == 0 && leb r.n d.fed && is st need_input)
                  (λ _. reported err_internal (omega arith))
                  (λ going. (onward-Going c, lower c going))))

  -- What a reservation gave.
  reserved-Onwards :
      (start d : Drive H)
      → Going d
      → Refilled start d
      → (x : Status × Outbuf × ℕ)
      → (x.0 ≡ ok) × Reserved d.out r.out_chunk x.1
        ⊎ (is x.0 ok ≡ false) × (x.1 ≡ d.out) × (x.2 ≡ d.live)
      → (is x.0 ok ≡ false → 3 < code x.0)
      → Rounds Going (Reported limit r o) measure start (reserved process realloc r d x)
  unfolding reserved mode before
  reserved-Onwards start d g fed (st, p, live) (inl (good, there)) error =
      if_split (Rounds Going (Reported limit r o) measure start) (not (is st ok))
        (λ bad. let fine = ap (λ (x : Status). is x ok) good in absurd (ground arith))
        (λ _.
          called-Onwards start d g fed p live there.valid there.used
            (omega (arith, there.room, there.used)))
  reserved-Onwards start d g fed (st, p, live) (inr (bad, same, _)) error =
      if_split (Rounds Going (Reported limit r o) measure start) (not (is st ok))
        (λ _. record {
          sink = subst ValidSink (sym same) g.sink;
          delivered = subst (λ (q : Outbuf). q.used ≤ o.used + limit) (sym same) g.capped;
          consumed = omega (arith, g.fed_in);
          status = omega (arith, error bad);
        })
        (λ good. absurd (ground arith))

  round-Onwards :
      (d : Drive H)
      → Going d
      → Rounds Going (Reported limit r o) measure d (drive_round process realloc r d)
  unfolding drive_round stocked
  round-Onwards d g =
      let (g', fed) = refill-Going d g in
      let e = refill r d in
      reserved-Onwards d e g' fed (reserve realloc e.out r.out_chunk e.live)
        (reserve_makes_room realloc e.out r.out_chunk e.live reallocates g'.sink proper.out_word)
        (reserve_error realloc e.out r.out_chunk e.live)

  -- Calls that make progress and deliver at most `limit` bytes: from a handle that has delivered none,
  -- over proper options, a valid sink and a `realloc` that does what C says, the loop comes to an end in
  -- three rounds for each byte of input and one for each byte of the limit, and one more. It leaves a
  -- valid sink with at most `limit` bytes more, has consumed no more than the input, and answers the
  -- end of the stream or an error.
  pub drive_ends :
      (h : H) (live fuel : ℕ)
      → Ready h 0
      → ValidSink o
      → 3 * r.n + limit < fuel
      → (x : Report) × (drive process realloc r fuel o live (ok, some h) ≡ some x)
        × Reported limit r o x
  unfolding drive measure
  drive_ends h live fuel ready v enough =
      loop_total (drive_round process realloc r) Going (Reported limit r o) measure round-Onwards
        fuel (at_start process realloc r h o live) (omega arith)
        (record {
          sink = v;
          grows = omega arith;
          ready = subst (Ready h) (omega arith) ready;
          capped = omega arith;
          fed_in = omega arith;
          src_in = omega arith;
          src_mem = omega arith;
          src_word = omega arith;
          offered = omega arith;
        })
