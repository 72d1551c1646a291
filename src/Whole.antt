-- ===== src/Whole.antt =====
-- src/zu_whole.c: the output sink of the whole-buffer loop. The block's bytes are a list, the owning
-- external pointer is there or not, and the counter of live blocks is passed on.
pub mod Reserve
pub mod Run
use zukomp.Base.{ℕ, ◌+◌, ◌-◌, Bool, not, Option, none, some, List, leb, is_none, if◌then◌else◌}
use zukomp.Types.{Status, ok, err_invalid_argument, err_memory}
use zukomp.Size.{add, grow}

-- `zu_int_outbuf`, less what the run consumed.
pub record Outbuf : Type 0 where
  pub owner : Bool
  pub buf : Option (List ℕ)
  pub size : ℕ
  pub used : ℕ

-- `zu_int_outbuf_owner`
abbrev pub outbuf_owner : Outbuf
outbuf_owner = record { owner = Bool.true; buf = none; size = 0; used = 0 }

-- `zu_int_outbuf_release`, and the counter.
pub outbuf_release : Outbuf → ℕ → Outbuf × ℕ
outbuf_release o live =
    (record o { buf = none; size = 0 }, if is_none o.buf then live else live - 1)

-- `realloc` of the C library: none where it fails.
module _ (realloc : Option (List ℕ) → ℕ → Option (List ℕ)) where
  grown : Outbuf → ℕ → ℕ → Option (List ℕ) → Status × Outbuf × ℕ
  grown o live next none = (err_memory, o, live)
  grown o live next (some bigger) =
      (ok, record o { buf = some bigger; size = next }, if is_none o.buf then live + 1 else live)

  to_size : Outbuf → ℕ → Status × Option ℕ → Status × Outbuf × ℕ
  to_size o live (st, none) = (st, o, live)
  to_size o live (st, some next) = grown o live next (realloc o.buf next)

  within : Outbuf → ℕ → Status × Option ℕ → Status × Outbuf × ℕ
  within o live (st, none) = (st, o, live)
  within o live (st, some needed) =
      if leb needed o.size then (ok, o, live) else to_size o live (grow o.size (needed - o.size))

  -- `zu_int_reserve`, and the counter.
  unfoldable pub reserve : Outbuf → ℕ → ℕ → Status × Outbuf × ℕ
  unfolding within to_size grown
  reserve o extra live =
      if not o.owner then (err_invalid_argument, o, live) else within o live (add o.used extra)
