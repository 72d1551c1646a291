-- ===== src/Stream/Encoder/Handle.antt =====
-- The life of an encoder handle (src/zu_stream.c): `zu_encoder_new`, and the calls up to the end.
use zukomp.Base.{
  ℕ, ◌<◌, ◌≡◌, ◌⊎◌, inl, inr, refl, ap, sym, subst, Bool, true, false, ltb, Option, none, some,
  arith, Bool-cases, Option-cases, or_else,
}
use zukomp.Base.Int.{ℤ}
use zukomp.Buffer.{Buffer, IsValid, Advances, Advances-refl}
use zukomp.Types.{
  Status, ok, stream_end, code, is, Vtable, EncoderOpts, encoder_opts_required, can_encode,
}
use zukomp.Registry.{Registry, registry_lookup}
use zukomp.Stream.Check.{
  call, copy_encoder_opts, check_level, resolve-cases, check_buffer, check_flush,
}
use zukomp.Stream.Contract.{KeepsCursors}
use zukomp.Stream.Encoder.{
  Encoder, encoder_new, encoder_process, run_codec, gate, start, with_vtable, construct,
}

module _ {S : Type 0} where
  -- A call is refused with nothing changed, or reaches the codec.
  process_cases {κ} :
      (P : Status × Encoder S × Buffer → Type κ) (e : Encoder S) (buf : Buffer) (flush : ℕ)
      → ((st : Status) → gate e buf flush ≡ some st → P (st, e, buf))
      → P (run_codec e buf flush)
      → P (encoder_process e buf flush)
  unfolding encoder_process
  process_cases P e buf flush refused runs = elim (Option-cases (gate e buf flush)) [
    | inl g ↦ rw (g, encoder_process) runs
    | inr (st, g) ↦ rw (g, encoder_process) (refused st g)
  ]

  -- The codec that stands behind the handle keeps the cursor contract.
  abbrev pub IsHonest : Encoder S → Type 0
  IsHonest e = KeepsCursors (call e.vtable.encoder_process)

  run_codec-Advances :
      (e : Encoder S) (b : Buffer) (flush : ℕ)
      → IsHonest e
      → IsValid b
      → Advances b (run_codec e b flush).2
  unfolding run_codec
  run_codec-Advances e b flush k v = k.at e.state b flush v

  pub process-Advances :
      (e : Encoder S) (b : Buffer) (flush : ℕ)
      → IsHonest e
      → IsValid b
      → Advances b (encoder_process e b flush).2
  process-Advances e b flush k v =
      process_cases (λ r. Advances b r.2) e b flush (λ st g. Advances-refl b v)
        (run_codec-Advances e b flush k v)

  run_codec_keeps :
      (e : Encoder S) (b : Buffer) (flush : ℕ)
      → ((run_codec e b flush).1.vtable ≡ e.vtable)
        × ((is (run_codec e b flush).0 stream_end ≡ true) → (run_codec e b flush).1.finished ≡ true)
  unfolding run_codec
  run_codec_keeps e b flush = (refl, λ h. ground arith)

  gate_end :
      (e : Encoder S) (b : Buffer) (flush : ℕ) (st : Status)
      → gate e b flush ≡ some st
      → is st stream_end ≡ true
      → e.finished ≡ true
  unfolding gate check_buffer check_flush
  gate_end e b flush st g h =
      let same : code (or_else (gate e b flush) ok) ≡ code st = ap (λ x. code (or_else x ok)) g in
      ground (arith, same)

  -- A call keeps the codec's functions, and ZU_STREAM_END means that the stream is finished.
  pub process_keeps :
      (e : Encoder S) (b : Buffer) (flush : ℕ)
      → ((encoder_process e b flush).1.vtable ≡ e.vtable)
        × ((is (encoder_process e b flush).0 stream_end ≡ true)
            → (encoder_process e b flush).1.finished ≡ true)
  process_keeps e b flush =
      process_cases
        (λ r. (r.1.vtable ≡ e.vtable) × ((is r.0 stream_end ≡ true) → r.1.finished ≡ true)) e b
        flush (λ st g. (refl, gate_end e b flush st g)) (run_codec_keeps e b flush)

  -- A codec that a registry may hold: its process keeps the cursors, and its constructor answers ZU_OK or
  -- an error.
  pub record IsEncoder (v : Vtable S) : Type 0 where
    pub process : KeepsCursors (call v.encoder_process)
    pub constructs :
        (f : EncoderOpts → Status × Option S) (o : EncoderOpts)
        → v.encoder_new ≡ some f
        → (f o).0 ≡ ok ⊎ 3 < code (f o).0

  abbrev pub Made : Status × Option (Encoder S) → Type 0
  Made (st, none) = 3 < code st
  Made (st, some e) = (st ≡ ok) × IsEncoder e.vtable × (e.finished ≡ false)

  start-Made :
      (v : Vtable S) (o : EncoderOpts) (r : Status × Option S)
      → IsEncoder v
      → r.0 ≡ ok ⊎ 3 < code r.0
      → Made (start v o r)
  unfolding start
  start-Made v o (st, s) k (inl e) = rw (e, start) (refl, k, refl)
  start-Made v o (st, s) k (inr e) = let bad : is st ok ≡ false = ground arith in rw (bad, start) e

  construct-Made :
      (v : Vtable S) (o : EncoderOpts) → IsEncoder v → Made (construct v o v.encoder_new)
  unfolding construct
  construct-Made v o k = elim (Option-cases v.encoder_new) [
    | inl e ↦ subst Made (ap (construct v o) (sym e)) (omega arith)
    | inr (f, e) ↦
        subst Made (ap (construct v o) (sym e)) (start-Made v o (f o) k (k.constructs f o e))
  ]

  level_error :
      (v : Vtable S) (l : ℤ) → is (check_level v l) ok ≡ false → 3 < code (check_level v l)
  unfolding check_level
  level_error v l h = ground arith

  with_vtable-Made :
      (v : Vtable S) (o : EncoderOpts) (mem : Bool) → IsEncoder v → Made (with_vtable v o mem)
  unfolding with_vtable
  with_vtable-Made v o mem k = elim (Bool-cases (is (check_level v o.level) ok)) [
    | inr bad ↦ rw (bad, with_vtable) (level_error v o.level bad)
    | inl good ↦ elim (Bool-cases mem) [
      | inr empty ↦ rw (good, empty, with_vtable) (omega arith)
      | inl room ↦ rw (good, room, with_vtable) (construct-Made v (copy_encoder_opts o) k)
    ]
  ]

  -- Where every registered codec is an encoder, a handle stands at its start, or there is none and the
  -- status is an error.
  pub encoder_new-Made :
      (r : Registry S) (o : EncoderOpts) (mem : Bool)
      → ((v : Vtable S) → registry_lookup r o.codec ≡ some v → IsEncoder v)
      → Made (encoder_new r o mem)
  unfolding encoder_new
  encoder_new-Made r o mem k = elim (Bool-cases (ltb o.struct_size encoder_opts_required)) [
    | inl short ↦ rw (short, encoder_new) (omega arith)
    | inr long ↦ elim (resolve-cases r o.codec can_encode) [
      | inl (e, error) ↦ rw (long, e, encoder_new) error
      | inr (v, e, found) ↦ rw (long, e, encoder_new) (with_vtable-Made v o mem (k v found))
    ]
  ]
