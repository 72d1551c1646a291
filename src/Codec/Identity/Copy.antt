-- ===== src/Codec/Identity/Copy.antt =====
-- What `identity_process` (src/codec_identity.c) does to the caller's buffer.
use mathlib.Core.List.{append-nil}
use zukomp.Base.{
  ℕ, ◌+◌, ◌≤◌, ◌<◌, ◌≡◌, true, false, Option, arith, length, ltb, min, length-take, length-drop,
  is_none, ◌&&◌, ◌||◌, ◌++◌, ◌≢◌, zero, suc, sym, if◌then◌else◌, drop,
}
use zukomp.Buffer.{
  Buffer, IsValid, Advances, Advances-refl, Advances-trans, Advances-IsValid, emit-Advances,
  consume-Advances, written, written-emit, avail_in, avail_out, peek, emit, bytes,
}
use zukomp.Types.{need_input, need_output, stream_end, zu_finish}
use zukomp.Stream.Contract.{KeepsCursors}
use zukomp.Codec.Identity.{copy, amount, identity_process}

length-peek : (b : Buffer) (n : ℕ) → IsValid b → n ≤ avail_in b → length (peek b n) ≡ n
length-peek b n v h = omega (
  arith,
  length-take n (drop b.src_pos (bytes b.src)),
  length-drop b.src_pos (bytes b.src),
  v.src_mem,
  v.src_in,
)

copy-Advances :
    (b : Buffer) (n : ℕ) → IsValid b → n ≤ avail_in b → n ≤ avail_out b → Advances b (copy b n)
copy-Advances b n v hi ho =
    let size = length-peek b n v hi in
    let first = emit-Advances b (peek b n) v (omega (arith, size)) in
    Advances-trans first (consume-Advances (emit b (peek b n)) n (Advances-IsValid v first) hi)

-- A valid buffer with bytes to move has memory behind both cursors.
pointers_there :
    (b : Buffer) → IsValid b → (ltb 0 (amount b) && (is_none b.src || is_none b.dst)) ≡ false
pointers_there b v = ground (arith, v.src_mem, v.dst_mem)

amount-min : (b : Buffer) → amount b ≡ min (avail_in b) (avail_out b)
amount-min b = grind arith

abbrev moved : Buffer → ℕ → Buffer
moved b n = if ltb 0 n then copy b n else b

moved_lem :
    (b : Buffer) (n : ℕ)
    → IsValid b
    → n ≤ avail_in b
    → n ≤ avail_out b
    → (written (moved b n) ≡ written b ++ peek b n)
      × ((moved b n).src_pos ≡ b.src_pos + n)
      × ((moved b n).dst_pos ≡ b.dst_pos + n)
moved_lem b zero v hi ho = (sym (append-nil _), omega arith, omega arith)
moved_lem b (suc n) v hi ho =
    let size = length-peek b (suc n) v hi in
    let some_bytes : ltb 0 (suc n) ≡ true = ground arith in
    rw some_bytes
      (written-emit b (peek b (suc n)) v (omega (arith, size)), omega arith, omega (arith, size))

module _ {S : Type 0} where
  identity-Advances :
      (s : Option S) (b : Buffer) (flush : ℕ)
      → IsValid b
      → Advances b (identity_process s b flush).2
  unfolding identity_process
  identity-Advances s b flush v = ground (arith, Advances-refl b v, copy-Advances b (amount b) v)

  pub identity-KeepsCursors : KeepsCursors (identity_process {S = S})
  identity-KeepsCursors = record { at = identity-Advances }

  -- On a valid buffer, with n the smaller of the bytes on offer and the room: the codec takes n bytes,
  -- appends exactly them to what stands in the destination, and says what stopped it: output room
  -- where input is left, else the end of the stream where no more input follows, else input.
  pub identity_copies :
      (s : Option S) (b : Buffer) (flush : ℕ)
      → IsValid b
      → let (st, s', out) = identity_process s b flush in
        let n = min (avail_in b) (avail_out b) in
        (written out ≡ written b ++ peek b n)
        × (out.src_pos ≡ b.src_pos + n)
        × (out.dst_pos ≡ b.dst_pos + n)
        × (avail_out b < avail_in b → st ≡ need_output)
        × (avail_in b ≤ avail_out b → flush ≡ zu_finish → st ≡ stream_end)
        × (avail_in b ≤ avail_out b → flush ≢ zu_finish → st ≡ need_input)
  unfolding identity_process
  identity_copies s b flush v =
      let small = amount-min b in
      let (bytes, taken, put) = moved_lem b (amount b) v (omega arith) (omega arith) in
      let in_range : (ltb b.src_size b.src_pos || ltb b.dst_size b.dst_pos) ≡ false =
        ground (arith, v.src_in, v.dst_in) in
      rw (in_range, pointers_there b v, ← small)
        (bytes, taken, put, λ h. ground arith, λ h e. ground arith, λ h e. ground arith)
