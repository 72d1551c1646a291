-- ===== src/Gzip/Grammar.antt =====
-- The header of RFC 1952, section 2.3, as the bytes of its fields; and a run of the parser of
-- src/zu_gzip.c over bytes, as `deflate_process` feeds it.
use zukomp.Base.{
  ℕ, ◌+◌, ◌/◌, ◌%◌, ◌≤◌, ◌<◌, ◌≢◌, Bool, true, false, Option, none, some, List, [], ◌∷◌, ◌++◌,
  if◌then◌else◌, length,
}
use zukomp.Types.{Status, ok, is}
use zukomp.Gzip.{Header, header_feed, max_field}

-- The parser wants more bytes, is done with those that follow, or has failed.
pub data Parsed : Type 0 where
  more : Header → Parsed
  complete : Header → List ℕ → Parsed
  failed : Status → Parsed

module _ (crc32 : ℕ → List ℕ → ℕ) where
  unfoldable pub feed_all : Header → List ℕ → Parsed
  feed_all h [] = more h
  feed_all h (b ∷ bs) =
      let (st, h', finished) = header_feed crc32 h b in
      let rest = feed_all h' bs in
      if is st ok then (if finished then complete h' bs else rest) else failed st

-- The optional fields, and the seven bytes between FLG and them: MTIME, XFL and OS, of which the
-- last is kept apart.
pub record Fields : Type 0 where
  pub m0 : ℕ
  pub m1 : ℕ
  pub m2 : ℕ
  pub m3 : ℕ
  pub xfl : ℕ
  pub os : ℕ
  pub text : Bool
  pub extra : Option (List ℕ)
  pub name : Option (List ℕ)
  pub comment : Option (List ℕ)
  pub checked : Bool

abbrev pub bit {ℓ} : {A : Type ℓ} → ℕ → Option A → ℕ
bit k none = 0
bit k (some a) = k

abbrev pub bool_bit : ℕ → Bool → ℕ
bool_bit k true = k
bool_bit k false = 0

-- FLG: FTEXT 1, FHCRC 2, FEXTRA 4, FNAME 8, FCOMMENT 16; the reserved bits are 0.
abbrev pub flags : Fields → ℕ
flags f = bool_bit 1 f.text + bool_bit 2 f.checked + bit 4 f.extra + bit 8 f.name + bit 16 f.comment

-- XLEN, little-endian, and the field.
abbrev pub print_extra : Option (List ℕ) → List ℕ → List ℕ
print_extra none rest = rest
print_extra (some xs) rest = (length xs % 256) ∷ (length xs / 256) ∷ (xs ++ rest)

-- A text and its NUL.
abbrev pub print_text : Option (List ℕ) → List ℕ → List ℕ
print_text none rest = rest
print_text (some xs) rest = xs ++ (0 ∷ rest)

abbrev pub print_fixed : Fields → List ℕ → List ℕ
print_fixed f rest = 0x1f ∷ 0x8b ∷ 8 ∷ flags f ∷ f.m0 ∷ f.m1 ∷ f.m2 ∷ f.m3 ∷ f.xfl ∷ f.os ∷ rest

-- Everything that the FHCRC covers.
abbrev pub covered : Fields → List ℕ
covered f = print_fixed f (print_extra f.extra (print_text f.name (print_text f.comment [])))

-- Two bytes, little-endian, where the header is checked.
abbrev pub print_check : Bool → ℕ → List ℕ → List ℕ
print_check false crc rest = rest
print_check true crc rest = (crc % 256) ∷ (crc / 256 % 256) ∷ rest

module _ (crc32 : ℕ → List ℕ → ℕ) where
  -- The checksum, taken a byte at a time.
  unfoldable pub crc_over : ℕ → List ℕ → ℕ
  crc_over c [] = c
  crc_over c (b ∷ bs) = crc_over (crc32 c (b ∷ [])) bs

  unfoldable pub print : Fields → List ℕ → List ℕ
  print f rest = print_fixed f (
      print_extra f.extra (
        print_text f.name
          (print_text f.comment (print_check f.checked (crc_over (crc32 0 []) (covered f)) rest))))

-- A text has no NUL and is no longer than the parser's bound; an extra field has a length of 16 bits.
abbrev pub NoNul : List ℕ → Type 0
NoNul [] = Unit
NoNul (b ∷ bs) = (b ≢ 0) × NoNul bs

abbrev pub IsText : Option (List ℕ) → Type 0
IsText none = Unit
IsText (some xs) = NoNul xs × (length xs ≤ max_field)

abbrev pub IsExtra : Option (List ℕ) → Type 0
IsExtra none = Unit
IsExtra (some xs) = length xs < 65536

pub record IsHeader (f : Fields) : Type 0 where
  pub extra : IsExtra f.extra
  pub name : IsText f.name
  pub comment : IsText f.comment
