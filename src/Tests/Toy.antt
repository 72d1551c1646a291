-- ===== src/Tests/Toy.antt =====
-- A stand-in for miniz: the bytes themselves, and 0 as the end of a stream. Its checksums are both Adler-32 over
-- bytes that are there, and over none the initial values 0 and 1.
use zukomp.Base.{
  ℕ, zero, suc, ◌+◌, ◌*◌, ◌/◌, ◌%◌, ◌≤◌, ◌≡◌, refl, List, [], ◌∷◌, ◌++◌, length, arith,
}
use zukomp.Codec.Miniz.{
  Code, mz_ok, mz_stream_end, mz_buf_error, Flush, no_flush, sync_flush, finish, Turn, Engine,
  Bounded,
}
use zukomp.Codec.Deflate.Sums.{Continues}

abbrev turn : Code → ℕ → List ℕ → Turn ℕ
turn mz n ys = record { result = mz; stream = 0; used = n; out = ys }

abbrev squeeze : ℕ → List ℕ → ℕ → Flush → Turn ℕ
squeeze m xs zero f = turn mz_buf_error 0 []
squeeze m [] (suc room) finish = turn mz_stream_end 0 (0 ∷ [])
squeeze m [] (suc room) no_flush = turn mz_buf_error 0 []
squeeze m [] (suc room) sync_flush = turn mz_buf_error 0 []
squeeze m (x ∷ xs) (suc room) f = turn mz_ok 1 (x ∷ [])

abbrev expand : ℕ → List ℕ → ℕ → Flush → Turn ℕ
expand m [] room f = turn mz_buf_error 0 []
expand m (zero ∷ xs) room f = turn mz_stream_end 1 []
expand m (suc x ∷ xs) zero f = turn mz_buf_error 0 []
expand m (suc x ∷ xs) (suc room) f = turn mz_ok 1 (suc x ∷ [])

-- Adler-32: the sum of the bytes, and the sum of those sums, modulo 65521.
abbrev add_byte : ℕ → ℕ → ℕ
add_byte c x = let low = (c % 65536 + x) % 65521 in (c / 65536 + low) % 65521 * 65536 + low

abbrev summed : ℕ → List ℕ → ℕ
summed c [] = c
summed c (x ∷ xs) = summed (add_byte c x) xs

abbrev from : ℕ → ℕ → List ℕ → ℕ
from init c [] = init
from init c (x ∷ xs) = summed c (x ∷ xs)

abbrev pub toy : Engine ℕ
toy = record {
  deflate_init = λ level. (mz_ok, 0);
  inflate_init = (mz_ok, 0);
  deflate_reset = λ m. (mz_ok, m);
  inflate_reset = λ m. (mz_ok, m);
  deflate = squeeze;
  inflate = expand;
  crc32 = from 0;
  adler32 = from 1;
}

squeeze_used : (m : ℕ) (xs : List ℕ) (room : ℕ) (f : Flush) → (squeeze m xs room f).used ≤ length xs
squeeze_used m xs zero f = omega arith
squeeze_used m [] (suc room) finish = omega arith
squeeze_used m [] (suc room) no_flush = omega arith
squeeze_used m [] (suc room) sync_flush = omega arith
squeeze_used m (x ∷ xs) (suc room) f = omega arith

squeeze_room :
    (m : ℕ) (xs : List ℕ) (room : ℕ) (f : Flush) → length (squeeze m xs room f).out ≤ room
squeeze_room m xs zero f = omega arith
squeeze_room m [] (suc room) finish = omega arith
squeeze_room m [] (suc room) no_flush = omega arith
squeeze_room m [] (suc room) sync_flush = omega arith
squeeze_room m (x ∷ xs) (suc room) f = omega arith

expand_used : (m : ℕ) (xs : List ℕ) (room : ℕ) (f : Flush) → (expand m xs room f).used ≤ length xs
expand_used m [] room f = omega arith
expand_used m (zero ∷ xs) room f = omega arith
expand_used m (suc x ∷ xs) zero f = omega arith
expand_used m (suc x ∷ xs) (suc room) f = omega arith

expand_room : (m : ℕ) (xs : List ℕ) (room : ℕ) (f : Flush) → length (expand m xs room f).out ≤ room
expand_room m [] room f = omega arith
expand_room m (zero ∷ xs) room f = omega arith
expand_room m (suc x ∷ xs) zero f = omega arith
expand_room m (suc x ∷ xs) (suc room) f = omega arith

summed-append : (c : ℕ) (xs ys : List ℕ) → summed (summed c xs) ys ≡ summed c (xs ++ ys)
summed-append c [] ys = refl
summed-append c (x ∷ xs) ys = summed-append (add_byte c x) xs ys

pub toy-Bounded : Bounded toy
toy-Bounded = record {
  deflate_used = squeeze_used;
  deflate_room = squeeze_room;
  inflate_used = expand_used;
  inflate_room = expand_room;
  deflate_starts = λ level. refl;
  inflate_starts = refl;
  inflate_restarts = λ m. refl;
}

pub toy-Continues : Continues toy
toy-Continues = record {
  crc32 = λ c x xs y ys. summed-append c (x ∷ xs) (y ∷ ys);
  adler32 = λ c x xs y ys. summed-append c (x ∷ xs) (y ∷ ys);
}
