-- ===== src/Codec/Zstd/Session.antt =====
-- src/codec_zstd.c behind a decoder handle: over the whole stream, its loop comes back.
use zukomp.Base.{ℕ, ◌≡◌, Bool, Option, none, some}
use zukomp.Buffer.{Buffer, Advances}
use zukomp.Types.{Status}
use zukomp.Stream.Decoder.{Decoder, decoder_new as handle_new}
use zukomp.Stream.Decoder.Session.{Session}
use zukomp.Frames.Cursors.{Short}
use zukomp.Codec.Libzstd.{Library, Bounded, Delimits}
use zukomp.Codec.Zstd.{Zstd}
use zukomp.Codec.Zstd.Life.{decoder_new}
use zukomp.Codec.Zstd.Decode.{decode_loop}

module _ {C D : Type 0} (z : Library C D) (mem : Bool) (law : Bounded z) (ends : Delimits z) where
  -- A state, where there is one, holds fewer than four bytes of a magic.
  abbrev Fine : Option (Zstd C D) → Type 0
  Fine none = Unit
  Fine (some s) = Short s.frames

  -- What one call does to a state: the loop comes back, and the call answers what the loop left.
  abbrev pub Comes : Zstd C D → Buffer → ℕ → Status × Option (Zstd C D) × Buffer → Type 0
  Comes s b flush answer =
      (r : Status × Zstd C D × Buffer) × (decode_loop z s b flush ≡ some r)
      × Short r.1.frames
      × Advances b r.2
      × (answer ≡ (r.0, some r.1, r.2))
