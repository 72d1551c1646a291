-- ===== src/Gzip.antt =====
-- src/zu_gzip.c: the gzip wrapper's header, written and parsed. `crc32` is miniz's `mz_crc32`: the
-- checksum of some bytes after the one given.
pub mod Grammar
pub mod Steps
pub mod Complete
use zukomp.Base.{
  ℕ, ◌+◌, ◌*◌, ◌/◌, ◌%◌, ◌^◌, Bool, true, false, not, Option, none, some, List, [], ◌∷◌, ltb, ◌==◌,
  ◌&&◌, if◌then◌else◌, has_bit, set,
}
use zukomp.Types.{Status, ok, err_invalid_data, err_checksum, err_internal, is}

-- `ZU_INT_GZIP_HEADER_LEN` and `ZU_INT_GZIP_MAX_FIELD`
abbrev pub header_len : ℕ
header_len = 10

abbrev pub max_field : ℕ
max_field = 65535

-- FLG bits
abbrev pub fhcrc : ℕ
fhcrc = 2

abbrev pub fextra : ℕ
fextra = 4

abbrev pub fname : ℕ
fname = 8

abbrev pub fcomment : ℕ
fcomment = 16

-- `zu_int_gzip_write_header`
abbrev pub write_header : List ℕ
write_header = 0x1f ∷ 0x8b ∷ 8 ∷ 0 ∷ 0 ∷ 0 ∷ 0 ∷ 0 ∷ 0 ∷ 255 ∷ []

-- `zu_int_gzip_state`
pub data State : Type 0 where
  fixed extra_len extra name comment hcrc done : State

abbrev pub is_done : State → Bool
is_done done = true
is_done s = false

-- `zu_int_gzip_header`
pub record Header : Type 0 where
  pub state : State
  pub bytes : List ℕ
  pub fixed_pos : ℕ
  pub flg : ℕ
  pub xlen : ℕ
  pub xlen_pos : ℕ
  pub xpos : ℕ
  pub field_len : ℕ
  pub hcrc0 : ℕ
  pub hcrc1 : ℕ
  pub hcrc_pos : ℕ
  pub crc : ℕ

-- The states that the flags choose, from each field on.
abbrev pub after_comment : ℕ → State
after_comment flg = if has_bit flg fhcrc then hcrc else done

abbrev pub after_name : ℕ → State
after_name flg = if has_bit flg fcomment then comment else after_comment flg

abbrev pub after_extra : ℕ → State
after_extra flg = if has_bit flg fname then name else after_name flg

abbrev pub after_fixed : ℕ → State
after_fixed flg = if has_bit flg fextra then extra_len else after_extra flg

abbrev pub after_xlen : ℕ → ℕ → State
after_xlen xlen flg = if ltb 0 xlen then extra else after_extra flg

-- The end of `zu_int_gzip_header_feed`: `*done` is set in the last state.
abbrev pub finish : Header → State → Status × Header × Bool
finish h s = (ok, record h { state = s }, is_done s)

feed_fixed : Header → ℕ → Status × Header × Bool
feed_fixed h byte =
    let pos = h.fixed_pos + 1 in
    let stored = record h { bytes = set h.bytes h.fixed_pos byte; fixed_pos = pos } in
    let kept = if pos == 4 then record stored { flg = byte } else stored in
    if pos == 1 && not (byte == 0x1f)
    then (err_invalid_data, stored, false)
    else if pos == 2 && not (byte == 0x8b)
    then (err_invalid_data, stored, false)
    else if pos == 3 && not (byte == 8)
    then (err_invalid_data, stored, false)
    else if pos == 4 && not (byte / 32 % 8 == 0)
    then (err_invalid_data, stored, false)
    else if ltb pos header_len
    then (ok, kept, false)
    else finish kept (after_fixed kept.flg)

-- `xlen |= byte << (8 * xlen_pos)`, onto bits that are still 0: a sum of 16 bits.
feed_extra_len : Header → ℕ → Status × Header × Bool
feed_extra_len h byte =
    let read = record h {
      xlen = (h.xlen + byte * 2 ^ (8 * h.xlen_pos)) % 2 ^ 16;
      xlen_pos = h.xlen_pos + 1;
    } in
    if ltb read.xlen_pos 2 then (ok, read, false) else finish read (after_xlen read.xlen h.flg)

feed_extra : Header → ℕ → Status × Header × Bool
feed_extra h byte =
    let read = record h { xpos = h.xpos + 1 } in
    if ltb read.xpos h.xlen then (ok, read, false) else finish read (after_extra h.flg)

-- NAME and COMMENT: up to the NUL, and then on to the given state.
feed_text : Header → ℕ → State → Status × Header × Bool
feed_text h byte next =
    if not (byte == 0)
    then (
      if ltb max_field (h.field_len + 1) then err_invalid_data else ok,
      record h { field_len = h.field_len + 1 },
      false,
    )
    else finish (record h { field_len = 0 }) next

feed_hcrc : Header → ℕ → Status × Header × Bool
feed_hcrc h byte =
    if h.hcrc_pos == 0
    then (ok, record h { hcrc0 = byte; hcrc_pos = 1 }, false)
    else let read = record h { hcrc1 = byte; hcrc_pos = h.hcrc_pos + 1 } in
      if not (h.hcrc0 + 256 * byte == h.crc % 2 ^ 16)
      then (err_checksum, read, false)
      else finish read done

-- The switch, over the state and the header with the byte's checksum taken in.
feed_in : State → Header → ℕ → Status × Header × Bool
feed_in fixed h byte = feed_fixed h byte
feed_in extra_len h byte = feed_extra_len h byte
feed_in extra h byte = feed_extra h byte
feed_in name h byte = feed_text h byte (after_name h.flg)
feed_in comment h byte = feed_text h byte (after_comment h.flg)
feed_in hcrc h byte = feed_hcrc h byte
feed_in done h byte = (err_internal, h, false)

abbrev covers : State → Bool
covers hcrc = false
covers s = true

module _ (crc32 : ℕ → List ℕ → ℕ) where
  -- `zu_int_gzip_header_init`
  unfoldable pub header_init : Header
  header_init = record {
    state = fixed;
    bytes = 0 ∷ 0 ∷ 0 ∷ 0 ∷ 0 ∷ 0 ∷ 0 ∷ 0 ∷ 0 ∷ 0 ∷ [];
    fixed_pos = 0;
    flg = 0;
    xlen = 0;
    xlen_pos = 0;
    xpos = 0;
    field_len = 0;
    hcrc0 = 0;
    hcrc1 = 0;
    hcrc_pos = 0;
    crc = crc32 0 [];
  }

  -- `zu_int_gzip_header_feed`: the status, the parser's state after it, and `*done`.
  unfoldable pub header_feed : Header → ℕ → Status × Header × Bool
  unfolding feed_in feed_fixed feed_extra_len feed_extra feed_text feed_hcrc
  header_feed h byte =
      feed_in h.state (record h { crc = if covers h.state then crc32 h.crc (byte ∷ []) else h.crc })
        byte
