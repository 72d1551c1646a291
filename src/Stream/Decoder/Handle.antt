-- ===== src/Stream/Decoder/Handle.antt =====
-- The life of a decoder handle (src/zu_stream.c): `zu_decoder_new`, `zu_decoder_reset`, and the calls up
-- to the end of its stream.
use zukomp.Base.{
  ℕ, ◌<◌, ◌≡◌, ◌⊎◌, inl, inr, refl, ap, sym, subst, Bool, true, false, not, if_elim, Option, none,
  some, arith, Bool-cases, Option-cases,
}
use zukomp.Buffer.{Buffer, IsValid, Advances, Advances-refl}
use zukomp.Types.{Status, ok, code, is, Vtable, DecoderOpts, can_decode}
use zukomp.Registry.{Registry, registry_lookup}
use zukomp.Stream.Check.{call, copy_decoder_opts, check_dec_opts, resolve-cases}
use zukomp.Stream.Contract.{KeepsCursors}
use zukomp.Stream.Decoder.{
  Decoder, decoder_new, decoder_process, run_codec, verdict, counted, start, with_vtable, construct,
  shrunk,
}
use zukomp.Stream.Decoder.Cap.{IsHonest, process_cases, shrunk-IsValid, restored-Advances}

module _ {S : Type 0} where
  run_codec_running :
      (d : Decoder S) (b : Buffer) (flush : ℕ)
      → d.finished ≡ false
      → code (run_codec d b flush).0 < 3
      → (run_codec d b flush).1.finished ≡ false
  unfolding run_codec verdict counted
  run_codec_running d b flush f h = ground arith

  -- A stream that a call leaves open stays open.
  pub process_running :
      (d : Decoder S) (b : Buffer) (flush : ℕ)
      → d.finished ≡ false
      → code (decoder_process d b flush).0 < 3
      → (decoder_process d b flush).1.finished ≡ false
  process_running d b flush f =
      process_cases (λ r. code r.0 < 3 → r.1.finished ≡ false) d b flush (λ st h. f)
        (run_codec_running d b flush f)

  run_codec-Advances :
      (d : Decoder S) (b : Buffer) (flush : ℕ)
      → IsHonest d
      → IsValid b
      → Advances b (run_codec d b flush).2
  unfolding run_codec
  run_codec-Advances d b flush k v =
      restored-Advances d b _ v (k.at d.state (shrunk d b) flush (shrunk-IsValid d b v))

  pub process-Advances :
      (d : Decoder S) (b : Buffer) (flush : ℕ)
      → IsHonest d
      → IsValid b
      → Advances b (decoder_process d b flush).2
  process-Advances d b flush k v =
      process_cases (λ r. Advances b r.2) d b flush (λ st. Advances-refl b v)
        (run_codec-Advances d b flush k v)

  -- A codec that a registry may hold: its process keeps the cursors, and its constructor answers ZU_OK or
  -- an error.
  pub record IsDecoder (v : Vtable S) : Type 0 where
    pub process : KeepsCursors (call v.decoder_process)
    pub constructs :
        (f : DecoderOpts → Status × Option S) (o : DecoderOpts)
        → v.decoder_new ≡ some f
        → (f o).0 ≡ ok ⊎ 3 < code (f o).0

  -- A handle that `zu_decoder_new` made of the options `o`.
  pub record Fresh (o : DecoderOpts) (d : Decoder S) : Type 0 where
    pub decoder : IsDecoder d.vtable
    pub opts : d.opts ≡ o
    pub running : d.finished ≡ false
    pub no_input : d.total_in ≡ 0
    pub no_output : d.total_out ≡ 0

  abbrev pub Made : DecoderOpts → Status × Option (Decoder S) → Type 0
  Made o (st, none) = 3 < code st
  Made o (st, some d) = (st ≡ ok) × Fresh o d

  start-Made :
      (v : Vtable S) (o : DecoderOpts) (r : Status × Option S)
      → IsDecoder v
      → r.0 ≡ ok ⊎ 3 < code r.0
      → Made o (start v o r)
  unfolding start
  start-Made v o (st, s) k (inl e) =
      rw (e, start)
        (
          refl,
          record { decoder = k; opts = refl; running = refl; no_input = refl; no_output = refl },
        )
  start-Made v o (st, s) k (inr e) = let bad : is st ok ≡ false = ground arith in rw (bad, start) e

  with_vtable-Made :
      (v : Vtable S) (o : DecoderOpts) (mem : Bool)
      → IsDecoder v
      → Made (copy_decoder_opts o) (with_vtable v o mem)
  unfolding with_vtable construct
  with_vtable-Made v o false k = omega arith
  with_vtable-Made v o true k =
      let o' = copy_decoder_opts o in
      elim (Option-cases v.decoder_new) [
        | inl e ↦ subst (Made o') (ap (construct v o') (sym e)) (omega arith)
        | inr (f, e) ↦
            subst (Made o') (ap (construct v o') (sym e))
              (start-Made v o' (f o') k (k.constructs f o' e))
      ]

  -- Where every registered codec is a decoder, a handle is fresh, over the copied options, or there is
  -- none and the status is an error.
  pub decoder_new-Made :
      (r : Registry S) (o : DecoderOpts) (mem : Bool)
      → ((v : Vtable S) → registry_lookup r o.codec ≡ some v → IsDecoder v)
      → Made (copy_decoder_opts o) (decoder_new r o mem)
  unfolding decoder_new
  decoder_new-Made r o mem k = elim (Bool-cases (is (check_dec_opts o) ok)) [
    | inr bad ↦ rw (bad, decoder_new) (omega arith)
    | inl good ↦ elim (resolve-cases r o.codec can_decode) [
      | inl (e, error) ↦ rw (good, e, decoder_new) error
      | inr (v, e, found) ↦ rw (good, e, decoder_new) (with_vtable-Made v o mem (k v found))
    ]
  ]

  -- Where a handle was made: its vtable is the registered one, and its state that of the constructor.
  abbrev pub Begun : Registry S → DecoderOpts → Status × Option (Decoder S) → Type 0
  Begun r o (st, none) = Unit
  Begun r o (st, some d) =
      (registry_lookup r o.codec ≡ some d.vtable)
      × ((f : DecoderOpts → Status × Option S) × (d.vtable.decoder_new ≡ some f)
          × (d.state ≡ (f (copy_decoder_opts o)).1))

  with_vtable-Begun :
      (r : Registry S) (v : Vtable S) (o : DecoderOpts) (mem : Bool)
      → registry_lookup r o.codec ≡ some v
      → Begun r o (with_vtable v o mem)
  unfolding with_vtable construct start
  with_vtable-Begun r v o false found = tt
  with_vtable-Begun r v o true found =
      let o' = copy_decoder_opts o in
      elim (Option-cases v.decoder_new) [
        | inl e ↦ subst (λ g. Begun r o (construct v o' g)) (sym e) tt
        | inr (f, e) ↦
            subst (λ g. Begun r o (construct v o' g)) (sym e)
              (if_elim (Begun r o) (not (is (f o').0 ok)) tt (found, (f, e, refl)))
      ]

  pub decoder_new-Begun :
      (r : Registry S) (o : DecoderOpts) (mem : Bool) → Begun r o (decoder_new r o mem)
  unfolding decoder_new
  decoder_new-Begun r o mem =
      if_elim (Begun r o) (not (is (check_dec_opts o) ok)) tt
        (elim (resolve-cases r o.codec can_decode) [
          | inl (e, error) ↦ rw e tt
          | inr (v, e, found) ↦ rw e (with_vtable-Begun r v o mem found)
        ])
