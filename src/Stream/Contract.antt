-- ===== src/Stream/Contract.antt =====
-- The contract that inst/include/zukomp.h states for a codec's `process`, as an interface: the driver
-- takes it of the codec, and each codec of the package fills it.
use zukomp.Base.{ℕ, Option}
use zukomp.Buffer.{Buffer, IsValid, Advances}
use zukomp.Types.{Process}

-- From a valid buffer the callee only moves the cursors forward, within what it was offered.
pub record KeepsCursors {S : Type 0} (p : Process S) : Type 0 where
  pub at : (s : Option S) (b : Buffer) (flush : ℕ) → IsValid b → Advances b (p s b flush).2
