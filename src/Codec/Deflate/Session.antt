-- ===== src/Codec/Deflate/Session.antt =====
-- src/codec_deflate.c behind a decoder handle: over the whole stream, its loop comes back.
use zukomp.Base.{ℕ, ◌≡◌, Bool, Option, none, some}
use zukomp.Buffer.{Buffer, Advances}
use zukomp.Types.{Status, Process}
use zukomp.Stream.Decoder.{Decoder}
use zukomp.Stream.Decoder.Session.{Session}
use zukomp.Codec.Miniz.{Engine, Bounded}
use zukomp.Codec.Deflate.{Deflate}
use zukomp.Codec.Deflate.Sound.{Sound}
use zukomp.Codec.Deflate.Process.{run}

module _ {M : Type 0} (e : Engine M) (mem : Bool) (law : Bounded e) where
  -- A state, where there is one, is sound.
  abbrev Fine : Option (Deflate M) → Type 0
  Fine none = Unit
  Fine (some s) = Sound s

  -- What one call does to a state: the loop comes back, and the call answers what the loop left.
  abbrev pub Comes : Deflate M → Buffer → ℕ → Status × Option (Deflate M) × Buffer → Type 0
  Comes s b flush answer =
      (r : Status × Deflate M × Buffer) × (run e s b flush ≡ some r)
      × Sound r.1
      × Advances b r.2
      × (answer ≡ (r.0, some r.1, r.2))
