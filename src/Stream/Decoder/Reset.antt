-- ===== src/Stream/Decoder/Reset.antt =====
-- `zu_decoder_reset` (src/zu_stream.c) on all of its outcomes.
use zukomp.Base.{
  ◌≡◌, ◌⊎◌, inl, inr, refl, sym, ap, ◌∙◌, false, true, Option, none, some, arith, or_else, not,
  if_split, Option-cases, subst, ◌==◌,
}
use zukomp.Types.{
  Status, ok, need_input, need_output, stream_end, err_invalid_argument, err_unsupported,
  err_invalid_data, err_truncated, err_checksum, err_trailing, err_memory, err_output_limit,
  err_ratio_limit, err_internal, is, DecoderOpts,
}
use zukomp.Stream.Check.{copy_decoder_opts, check_dec_opts}
use zukomp.Stream.Decoder.{Decoder, decoder_reset, restart, reset_by}

is-ok : (st : Status) → is st ok ≡ true → st ≡ ok
is-ok ok e = refl
is-ok need_input e = absurd (ground arith)
is-ok need_output e = absurd (ground arith)
is-ok stream_end e = absurd (ground arith)
is-ok err_invalid_argument e = absurd (ground arith)
is-ok err_unsupported e = absurd (ground arith)
is-ok err_invalid_data e = absurd (ground arith)
is-ok err_truncated e = absurd (ground arith)
is-ok err_checksum e = absurd (ground arith)
is-ok err_trailing e = absurd (ground arith)
is-ok err_memory e = absurd (ground arith)
is-ok err_output_limit e = absurd (ground arith)
is-ok err_ratio_limit e = absurd (ground arith)
is-ok err_internal e = absurd (ground arith)

module _ {S : Type 0} where
  -- The codec's own reset, called with the state of `d` and the given options, answered `r`.
  abbrev pub Answered : DecoderOpts → Decoder S → Status × Option S → Type 0
  Answered given d r =
      (f : Option S → DecoderOpts → Status × Option S) × (d.vtable.decoder_reset ≡ some f)
      × (f d.state (copy_decoder_opts given) ≡ r)

  -- What the driver asks before it calls the codec.
  pub record Fit (given : DecoderOpts) (d : Decoder S) : Type 0 where
    pub checked : is (check_dec_opts given) ok ≡ true
    pub codec : ((copy_decoder_opts given).codec == d.opts.codec) ≡ true

  -- A reset that succeeds: the codec reset its state; a stream under the given options, with a fresh budget.
  pub record Renewed (given : DecoderOpts) (d e : Decoder S) : Type 0 where
    pub fit : Fit given d
    pub state : Answered given d (ok, e.state)
    pub vtable : e.vtable ≡ d.vtable
    pub opts : e.opts ≡ copy_decoder_opts given
    pub finished : e.finished ≡ false
    pub total_in : e.total_in ≡ 0
    pub total_out : e.total_out ≡ 0

  -- A reset that the codec refuses: its state is what the codec left, and all else is as it was.
  pub record Failed (given : DecoderOpts) (d : Decoder S) (st : Status) (e : Decoder S)
      : Type 0 where
    pub fit : Fit given d
    pub state : Answered given d (st, e.state)
    pub rest : e ≡ record d { state = e.state }

  abbrev pub Outcomes : DecoderOpts → Decoder S → Status × Decoder S → Type 0
  Outcomes given d (st, e) =
      (st ≡ ok) × Renewed given d e
      ⊎ (is st ok ≡ false) × Failed given d st e
      ⊎ (st ≡ err_unsupported) × Fit given d × (d.vtable.decoder_reset ≡ none) × (e ≡ d)
      ⊎ (st ≡ err_invalid_argument)
        × (is (check_dec_opts given) ok ≡ false
            ⊎ ((copy_decoder_opts given).codec == d.opts.codec) ≡ false)
        × (e ≡ d)

  restart_lem :
      (d : Decoder S) (given : DecoderOpts) (st : Status) (s : Option S)
      → Fit given d
      → Answered given d (st, s)
      → Outcomes given d (restart d (copy_decoder_opts given) (st, s))
  unfolding restart
  restart_lem d given st s k (f, there, answer) =
      if_split (Outcomes given d) (not (is st ok))
        (λ bad.
          inr (inl (ground arith, record { fit = k; state = (f, there, answer); rest = refl })))
        (λ good.
          let good' : is st ok ≡ true = ground arith in
          inl (
            refl,
            record {
              fit = k;
              state = (f, there, answer ∙ ap (λ (c : Status). (c, s)) (is-ok st good'));
              vtable = refl;
              opts = refl;
              finished = refl;
              total_in = refl;
              total_out = refl;
            },
          ))

  reset_by_lem :
      (d : Decoder S) (given : DecoderOpts)
      → Fit given d
      → Outcomes given d (reset_by d (copy_decoder_opts given) d.vtable.decoder_reset)
  unfolding reset_by
  reset_by_lem d given k = elim (Option-cases d.vtable.decoder_reset) [
    | inl e ↦
        subst (λ g. Outcomes given d (reset_by d (copy_decoder_opts given) g)) (sym e)
          (inr (inr (inl (refl, k, e, refl))))
    | inr (f, e) ↦
        let (st, s) = f d.state (copy_decoder_opts given) in
        subst (λ g. Outcomes given d (reset_by d (copy_decoder_opts given) g)) (sym e)
          (restart_lem d given st s k (f, e, refl))
  ]

  -- Whatever the options, none for those that the handle has, the reset has one of four outcomes. The
  -- codec's reset answers ZU_OK: so does the driver, the handle has the state that the codec left, the
  -- given options, the vtable that it had and a fresh budget. The codec's reset answers something
  -- else: so does the driver, and but for the state that the codec left the handle is as it was.
  -- The codec has no reset: ZU_ERR_UNSUPPORTED. The options are not well-formed or name another
  -- codec: ZU_ERR_INVALID_ARGUMENT. In the last two the handle is as it was.
  pub reset_renews :
      (d : Decoder S) (opts : Option DecoderOpts)
      → Outcomes (or_else opts d.opts) d (decoder_reset d opts)
  unfolding decoder_reset
  reset_renews d opts =
      let given = or_else opts d.opts in
      if_split (Outcomes given d) (not (is (check_dec_opts given) ok))
        (λ bad. inr (inr (inr (refl, inl (ground arith), refl))))
        (λ good.
          if_split (Outcomes given d) (not ((copy_decoder_opts given).codec == d.opts.codec))
            (λ other. inr (inr (inr (refl, inr (ground arith), refl))))
            (λ same.
              reset_by_lem d given (record { checked = ground arith; codec = ground arith })))
