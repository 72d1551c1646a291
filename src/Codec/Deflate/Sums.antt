-- ===== src/Codec/Deflate/Sums.antt =====
-- src/codec_deflate.c: what an encoder sums up for its trailer.
pub mod Encoder
use mathlib.Core.List.{append-nil}
use zukomp.Base.{
  ℕ, zero, suc, ◌+◌, ◌-◌, ◌*◌, ◌%◌, ◌≤◌, ◌<◌, ◌≡◌, refl, sym, ap, ◌∙◌, Bool, true, false, not, ◌&&◌,
  ◌||◌, ◌==◌, Option, none, some, List, [], ◌∷◌, ◌++◌, take, drop, ltb, leb, word, add_word,
  if◌then◌else◌, if_elim, if_split, Outcome, again, leave, loop_keeps, Keeps, arith, take-add,
  drop-drop,
}
use zukomp.Buffer.{Buffer, bytes, IsValid, Advances, avail_in, avail_out, peek, consume, emit}
use zukomp.Types.{Status, zu_finish}
use zukomp.Codec.Miniz.{
  Code, mz_ok, mz_stream_end, mz_buf_error, mz_data_error, mz_mem_error, mz_param_error,
  mz_stream_error, mz_need_dict, mz_other, Engine, Turn, Bounded,
}
use zukomp.Codec.Deflate.{
  Deflate, Wrap, raw, zlib, gzip, Stage, header, body, trailer, member_end, done,
}
use zukomp.Codec.Deflate.Life.{checksum_update}
use zukomp.Codec.Deflate.{Round, is_raw}
use zukomp.Codec.Deflate.Process.{
  write_out, in_header, turn, plain, counted, moved, ended, carry_on, after_turn, in_body, no_more,
  at_member_end, concat, write_tail, read_tail, at_stage, iteration, run,
}

-- The checksums of miniz go on where they stopped, over bytes that are there: over NULL, which stands as the
-- empty list, they answer their initial values instead.
pub record Continues {M : Type 0} (e : Engine M) : Type 0 where
  pub crc32 :
      (c x : ℕ) (xs : List ℕ) (y : ℕ) (ys : List ℕ)
      → e.crc32 (e.crc32 c (x ∷ xs)) (y ∷ ys) ≡ e.crc32 c ((x ∷ xs) ++ (y ∷ ys))
  pub adler32 :
      (c x : ℕ) (xs : List ℕ) (y : ℕ) (ys : List ℕ)
      → e.adler32 (e.adler32 c (x ∷ xs)) (y ∷ ys) ≡ e.adler32 c ((x ∷ xs) ++ (y ∷ ys))

-- The bytes of `b` before a later cursor.
abbrev pub taken : Buffer → ℕ → List ℕ
taken b pos = take (pos - b.src_pos) (drop b.src_pos (bytes b.src))

-- From `s` and `b` an encoder has summed up exactly the input that it took.
pub record Sums {M : Type 0} (e : Engine M) (s : Deflate M) (b : Buffer) (encoder : Bool)
    (wrap : Wrap) (checksum uncompressed pos : ℕ) : Type 0 where
  pub encoder_is : encoder ≡ s.encoder
  pub wrap_is : wrap ≡ s.wrap
  pub checksum_is : checksum ≡ checksum_update e s.wrap s.checksum (taken b pos)
  pub uncompressed_is : uncompressed % word ≡ (s.uncompressed + (pos - b.src_pos)) % word

abbrev pub Summed : {M : Type 0} → Engine M → Deflate M → Buffer → Deflate M → Buffer → Type 0
Summed e s b s' b' = Sums e s b s'.encoder s'.wrap s'.checksum s'.uncompressed b'.src_pos

module _ {M : Type 0} (e : Engine M) (sums : Continues e) where
  update-append :
      (w : Wrap) (c : ℕ) (xs ys : List ℕ)
      → checksum_update e w (checksum_update e w c xs) ys ≡ checksum_update e w c (xs ++ ys)
  unfolding checksum_update
  update-append w c [] ys = refl
  update-append w c (x ∷ xs) [] = ap (checksum_update e w c) (sym (append-nil (x ∷ xs)))
  update-append gzip c (x ∷ xs) (y ∷ ys) = sums.crc32 c x xs y ys
  update-append zlib c (x ∷ xs) (y ∷ ys) = sums.adler32 c x xs y ys
  update-append raw c (x ∷ xs) (y ∷ ys) = sums.adler32 c x xs y ys

  taken_on :
      (b c : Buffer) (pos : ℕ)
      → c.src ≡ b.src
      → b.src_pos ≤ c.src_pos
      → c.src_pos ≤ pos
      → taken b c.src_pos ++ taken c pos ≡ taken b pos
  taken_on b c pos src le on =
      let xs = drop b.src_pos (bytes b.src) in
      let step : taken c pos ≡ take (pos - c.src_pos) (drop (c.src_pos - b.src_pos) xs) =
        ap (λ (o : Option (List ℕ)). take (pos - c.src_pos) (drop c.src_pos (bytes o))) src
        ∙ ap (take (pos - c.src_pos)) (
            sym (
              drop-drop b.src_pos (c.src_pos - b.src_pos) c.src_pos (bytes b.src) (omega arith))) in
      ap (λ (ys : List ℕ). taken b c.src_pos ++ ys) step
      ∙ take-add (c.src_pos - b.src_pos) (pos - c.src_pos) (pos - b.src_pos) xs (omega arith)

  pub Summed-trans :
      (s t u : Deflate M) (b c d : Buffer)
      → Advances b c
      → c.src_pos ≤ d.src_pos
      → Summed e s b t c
      → Summed e t c u d
      → Summed e s b u d
  Summed-trans s t u b c d adv on p q = record {
    encoder_is = q.encoder_is ∙ p.encoder_is;
    wrap_is = q.wrap_is ∙ p.wrap_is;
    checksum_is =
        q.checksum_is
        ∙ ap (λ (w : Wrap). checksum_update e w t.checksum (taken c d.src_pos)) p.wrap_is
        ∙ ap (λ (v : ℕ). checksum_update e s.wrap v (taken c d.src_pos)) p.checksum_is
        ∙ update-append s.wrap s.checksum (taken b c.src_pos) (taken c d.src_pos)
        ∙ ap (checksum_update e s.wrap s.checksum) (taken_on b c d.src_pos adv.src adv.src_le on);
    uncompressed_is = omega (arith, p.uncompressed_is, q.uncompressed_is, adv.src_le);
  }
