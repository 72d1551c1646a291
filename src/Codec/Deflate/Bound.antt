-- ===== src/Codec/Deflate/Bound.antt =====
-- src/codec_deflate.c: the bounds are exact sums, and room for incompressible input.
use zukomp.Base.{ℕ, ◌+◌, ◌*◌, ◌/◌, ◌≤◌, ◌<◌, ◌≡◌, none, some, arith, word}
use zukomp.Types.{ok, err_memory}
use zukomp.Size.{add}
use zukomp.Codec.Deflate.Life.{deflate_bound}

-- For every `size_t` n and a wrapper of at most 18 bytes: where n + n/64 + 64 + wrapper fits `size_t`, it
-- is the bound, and the bound has room for n bytes as stored blocks of at most 65535 bytes, each with
-- five of overhead and one block at least, and the wrapper; else it is ZU_ERR_MEMORY with no bound.
pub deflate_bound_exact :
    (n wrapper : ℕ)
    → n < word
    → wrapper ≤ 18
    → let total = n + n / 64 + (64 + wrapper) in
      (total < word
        → (deflate_bound n wrapper ≡ (ok, some total))
          × (n + 5 * (n / 65535 + 1) + wrapper ≤ total))
      × (word ≤ total → deflate_bound n wrapper ≡ (err_memory, none))
unfolding deflate_bound add
deflate_bound_exact n wrapper hn hw = ground arith
