-- ===== src/Stream/Decoder/States.antt =====
-- What holds of the codec's state through the life of a decoder handle (src/zu_stream.c).
use zukomp.Base.{ℕ, ◌≡◌, ap, sym, ◌∙◌, subst, Bool, Option, some}
use zukomp.Types.{Status, ok, Vtable, Process, DecoderOpts}
use zukomp.Registry.{Registry, registry_lookup}
use zukomp.Stream.Check.{call, copy_decoder_opts}
use zukomp.Stream.Decoder.{Decoder, decoder_new}
use zukomp.Stream.Decoder.Handle.{Begun, decoder_new-Begun}
use zukomp.Stream.Decoder.Session.{Session, KeepsState, state_kept}

module _ {S : Type 0} (p : Process S) (Fine : Option S → Type 0) where
  -- A vtable whose process is `p`, and whose constructor makes fine states.
  pub record Decodes (v : Vtable S) : Type 0 where
    pub process : call v.decoder_process ≡ p
    pub makes :
        (f : DecoderOpts → Status × Option S) (o : DecoderOpts)
        → v.decoder_new ≡ some f
        → Fine (f o).1

  -- From a handle that `zu_decoder_new` made, calls lead to handles of the same process, in fine states.
  pub handle-Fine :
      KeepsState p Fine
      → (r : Registry S) (o : DecoderOpts) (mem : Bool) (d : Decoder S) {f : Decoder S} {n : ℕ}
      → ((v : Vtable S) → registry_lookup r o.codec ≡ some v → Decodes v)
      → decoder_new r o mem ≡ (ok, some d)
      → Session d f n
      → (call f.vtable.decoder_process ≡ p) × Fine f.state
  handle-Fine keeps r o mem d known made session =
      let (found, (g, there, state)) = subst (Begun r o) made (decoder_new-Begun r o mem) in
      let k = known d.vtable found in
      let (same, fine) =
        state_kept Fine d (subst (λ (q : Process S). KeepsState q Fine) (sym k.process) keeps)
          (subst Fine (sym state) (k.makes g (copy_decoder_opts o) there)) session in
      (ap (λ (w : Vtable S). call w.decoder_process) same ∙ k.process, fine)
