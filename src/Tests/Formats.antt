-- ===== src/Tests/Formats.antt =====
-- The gzip header parser, the frame boundary and the size arithmetic.
use zukomp.Base.{
  ℕ, ◌+◌, ◌-◌, ◌*◌, ◌%◌, ◌≤◌, ◌<◌, ◌≡◌, ◌⊎◌, ◌↔◌, refl, bytes_eq, true, none, some, List, [], ◌∷◌,
  ◌++◌, arith, word, codes,
}
use zukomp.Types.{Status, ok, err_memory, dec_concat_members, dec_reject_trailing}
use zukomp.Size.{add, mul, grow, min_buffer}
use zukomp.Size.Exact.{add_exact, mul_exact, grow_fails, grow_succeeds}
use zukomp.Gzip.{Header, header_init}
use zukomp.Gzip.Grammar.{Fields, IsHeader, complete, feed_all, print, flags}
use zukomp.Gzip.Complete.{print_accepted}
use zukomp.Frames.{Frames, between, zstd, is_prefix}
use zukomp.Frames.Prefix.{outcome}
use zukomp.Frames.Boundary.{Straddles}
use zukomp.Frames.Chunks.{over_chunks, joined, same_at_every_chunk_size}

abbrev grow_huge : ℕ
grow_huge = word - 1

add_exact_example :
    (grow_huge + 2 < word → add grow_huge 2 ≡ (ok, some (grow_huge + 2)))
    × (word ≤ grow_huge + 2 → add grow_huge 2 ≡ (err_memory, none))
add_exact_example = add_exact grow_huge 2 (omega arith) (omega arith)

mul_exact_example :
    (grow_huge * 3 < word → mul grow_huge 3 ≡ (ok, some (grow_huge * 3)))
    × (word ≤ grow_huge * 3 → mul grow_huge 3 ≡ (err_memory, none))
mul_exact_example = mul_exact grow_huge 3 (omega arith) (omega arith)

grow_fails_example : (grow grow_huge 2 ≡ (err_memory, none)) ↔ (word ≤ grow_huge + 2)
grow_fails_example = grow_fails grow_huge 2 (omega arith) (omega arith)

grow_succeeds_example :
    (n : ℕ) × (grow 100 30 ≡ (ok, some n))
    × (n < word)
    × (100 + 30 ≤ n)
    × (min_buffer ≤ n)
    × (100 * 2 < word → 100 * 2 ≤ n)
    × ((n ≡ min_buffer) ⊎ (n ≡ 100 + 30) ⊎ (n ≡ 100 * 2))
grow_succeeds_example = grow_succeeds 100 30 (omega arith)

-- A checksum for the tests: the sum of the bytes, of 32 bits.
abbrev sum32 : ℕ → List ℕ → ℕ
sum32 c [] = c
sum32 c (b ∷ bs) = sum32 ((c + b) % 4294967296) bs

abbrev fields : Fields
fields = record {
  m0 = 1;
  m1 = 2;
  m2 = 3;
  m3 = 4;
  xfl = 0;
  os = 3;
  text = true;
  extra = some (9 ∷ 9 ∷ 9 ∷ []);
  name = some (codes "a.txt");
  comment = none;
  checked = true;
}

fields-IsHeader : IsHeader fields
fields-IsHeader = record {
  extra = omega arith;
  name =
      ((omega arith, (omega arith, (omega arith, (omega arith, (omega arith, tt))))), omega arith);
  comment = tt;
}

print_accepted_example :
    (h : Header) × (feed_all sum32 (header_init sum32) (print sum32 fields (5 ∷ []))
      ≡ complete h (5 ∷ []))
    × (h.flg ≡ flags fields)
print_accepted_example = print_accepted sum32 fields (5 ∷ []) fields-IsHeader

-- A zstd frame has ended, one byte of the next magic is held, and the library takes what it is fed.
abbrev at_frame_end : Frames
at_frame_end = record {
  state = between;
  kind = zstd;
  flags = dec_concat_members + dec_reject_trailing;
  held = 0x28 ∷ [];
  owed = none;
}

abbrev feed : ℕ → List ℕ → Status × ℕ
feed c m = (ok, c + 1)

at_frame_end-Straddles : Straddles at_frame_end
unfolding is_prefix bytes_eq
at_frame_end-Straddles = record {
  at_boundary = refl;
  concat = refl;
  prefix = refl;
  proper = omega arith;
}

abbrev chunks : List (List ℕ)
chunks = (0xb5 ∷ []) ∷ (0x2f ∷ 0xfd ∷ 0 ∷ []) ∷ []

same_at_every_chunk_size_example :
    over_chunks feed at_frame_end chunks (1 ∷ []) 0
    ≡ some (outcome at_frame_end.flags zstd (at_frame_end.held ++ joined chunks (1 ∷ [])))
same_at_every_chunk_size_example =
    same_at_every_chunk_size feed at_frame_end chunks (1 ∷ []) 0 (λ c m four fits. refl)
      at_frame_end-Straddles
