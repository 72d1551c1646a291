-- ===== src/Registry/Detect.antt =====
-- `zu_sniff` of src/zu_registry.c.
use zukomp.Base.{
  ℕ, Bool, not, Option, none, some, List, [], ◌∷◌, ltb, ◌==◌, ◌&&◌, if◌then◌else◌, is_none, or_else,
  take, drop, bytes_eq,
}
use zukomp.Types.{Status, ok, err_invalid_argument, err_unsupported, Vtable, codec_none}
use zukomp.Size.{add}
use zukomp.Registry.{Registry}
use zukomp.Buffer.{bytes}

-- Whether a magic of the given length at the given offset lies within `n` bytes and is there.
unfoldable pub magic_matches : List ℕ → ℕ → List ℕ → ℕ → ℕ → Bool
magic_matches buf n magic len offset = elim (add offset len).1 [
  | none ↦ Bool.false
  | some end ↦ not (ltb n end) && bytes_eq (take len (drop offset buf)) (take len magic)
]

module _ {S : Type 0} (buf : List ℕ) (n : ℕ) where
  -- `magic == NULL || magic_len == 0`, and the tests below it.
  unfoldable pub has_magic : Vtable S → Bool
  has_magic v =
      not (is_none v.magic)
      && not (v.magic_len == 0)
      && magic_matches buf n (or_else v.magic []) v.magic_len v.magic_offset

  -- The first loop: the length and the identity of the longest magic so far.
  unfoldable pub longest : List (Vtable S) → ℕ → ℕ → ℕ
  longest [] best out = out
  longest (v ∷ vs) best out =
      let longer = has_magic v && ltb best v.magic_len in
      longest vs (if longer then v.magic_len else best) (if longer then v.codec else out)

  pub accepts : Vtable S → Bool
  accepts v = elim v.sniff [ none ↦ Bool.false | some f ↦ f (take n buf) ]

  -- The second loop: the first predicate that accepts the bytes.
  unfoldable pub first_sniffer : List (Vtable S) → Option ℕ
  first_sniffer [] = none
  first_sniffer (v ∷ vs) = if accepts v then some v.codec else first_sniffer vs

unfoldable pub sniff : {S : Type 0} → Registry S → Option (List ℕ) → ℕ → Status × ℕ
sniff r buf n =
    if is_none buf && not (n == 0)
    then (err_invalid_argument, codec_none)
    else let by_magic = longest (bytes buf) n r.entries 0 codec_none in
      if not (by_magic == codec_none)
      then (ok, by_magic)
      else elim (first_sniffer (bytes buf) n r.entries) [
        | none ↦ (err_unsupported, codec_none)
        | some c ↦ (ok, c)
      ]
