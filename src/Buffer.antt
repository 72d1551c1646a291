-- ===== src/Buffer.antt =====
-- `zu_buffer` of inst/include/zukomp.h, and its cursor contract.
use zukomp.Base.{
  length-take, ◌&&◌, ℕ, ◌+◌, ◌-◌, ◌≤◌, ◌≡◌, refl, sym, ap, ◌∙◌, Option, none, some, List, [], ◌∷◌,
  ◌++◌, arith, length, get_or, take, drop, write, length-write, take-write, take-write-add,
  take-take, take_all, word, ◌<◌, ◌==◌, false,
}

-- A pointer is none where it is NULL, else the bytes that it points at.
pub record Buffer : Type 0 where
  pub src : Option (List ℕ)
  pub src_size : ℕ
  pub src_pos : ℕ
  pub dst : Option (List ℕ)
  pub dst_size : ℕ
  pub dst_pos : ℕ

abbrev pub bytes : Option (List ℕ) → List ℕ
bytes none = []
bytes (some xs) = xs

-- Bytes not yet taken, and room not yet used.
abbrev pub avail_in : Buffer → ℕ
avail_in b = b.src_size - b.src_pos

abbrev pub avail_out : Buffer → ℕ
avail_out b = b.dst_size - b.dst_pos

abbrev pub next_byte : Buffer → ℕ
next_byte b = get_or (bytes b.src) b.src_pos 0

-- `src + src_pos` and the next `n` bytes there.
abbrev pub peek : Buffer → ℕ → List ℕ
peek b n = take n (drop b.src_pos (bytes b.src))

-- `src_pos += n`
abbrev pub consume : Buffer → ℕ → Buffer
consume b n = record b { src_pos = b.src_pos + n }

abbrev pub map_bytes : (List ℕ → List ℕ) → Option (List ℕ) → Option (List ℕ)
map_bytes f none = none
map_bytes f (some xs) = some (f xs)

-- The bytes `ys` to `dst + dst_pos`, and `dst_pos += length ys`.
abbrev pub emit : Buffer → List ℕ → Buffer
emit b ys = record b {
  dst = map_bytes (λ xs. write xs b.dst_pos ys) b.dst;
  dst_pos = b.dst_pos + length ys;
}

-- The same bytes, where the callee fails before it moves the cursor.
abbrev pub scratch : Buffer → List ℕ → Buffer
scratch b ys = record b { dst = map_bytes (λ xs. write xs b.dst_pos ys) b.dst }

-- What a caller's buffer is: cursors within sizes, sizes within the memory behind them and `size_t`.
pub record IsValid (b : Buffer) : Type 0 where
  pub src_in : b.src_pos ≤ b.src_size
  pub dst_in : b.dst_pos ≤ b.dst_size
  pub src_mem : b.src_size ≤ length (bytes b.src)
  pub dst_mem : b.dst_size ≤ length (bytes b.dst)
  pub src_word : b.src_size < word
  pub dst_word : b.dst_size < word

-- The contract of the header, as far as it is needed: the callee moves the two cursors forward, within
-- the sizes, and what was written before stays. What lies beyond the new `dst_pos` is left open.
pub record Advances (b c : Buffer) : Type 0 where
  pub src : c.src ≡ b.src
  pub src_size : c.src_size ≡ b.src_size
  pub dst_size : c.dst_size ≡ b.dst_size
  pub src_le : b.src_pos ≤ c.src_pos
  pub src_in : c.src_pos ≤ c.src_size
  pub dst_le : b.dst_pos ≤ c.dst_pos
  pub dst_in : c.dst_pos ≤ c.dst_size
  pub memory : length (bytes c.dst) ≡ length (bytes b.dst)
  pub kept : take b.dst_pos (bytes c.dst) ≡ take b.dst_pos (bytes b.dst)

pub Advances-refl : (b : Buffer) → IsValid b → Advances b b
Advances-refl b v = record {
  src = refl;
  src_size = refl;
  dst_size = refl;
  src_le = omega arith;
  src_in = v.src_in;
  dst_le = omega arith;
  dst_in = v.dst_in;
  memory = refl;
  kept = refl;
}

pub Advances-trans : {a b c : Buffer} → Advances a b → Advances b c → Advances a c
Advances-trans {a} {b} {c} p q = record {
  src = q.src ∙ p.src;
  src_size = q.src_size ∙ p.src_size;
  dst_size = q.dst_size ∙ p.dst_size;
  src_le = omega arith;
  src_in = q.src_in;
  dst_le = omega arith;
  dst_in = q.dst_in;
  memory = q.memory ∙ p.memory;
  kept =
      sym (take-take a.dst_pos b.dst_pos (bytes c.dst) p.dst_le)
      ∙ ap (take a.dst_pos) q.kept
      ∙ take-take a.dst_pos b.dst_pos (bytes b.dst) p.dst_le
      ∙ p.kept;
}

pub Advances-IsValid : {b c : Buffer} → IsValid b → Advances b c → IsValid c
Advances-IsValid {b} {c} v p = record {
  src_in = p.src_in;
  dst_in = p.dst_in;
  src_mem = omega (arith, ap (λ (o : Option (List ℕ)). length (bytes o)) p.src);
  dst_mem = omega arith;
  src_word = omega arith;
  dst_word = omega arith;
}

pub consume-Advances : (b : Buffer) (n : ℕ) → IsValid b → n ≤ avail_in b → Advances b (consume b n)
consume-Advances b n v h = record {
  src = refl;
  src_size = refl;
  dst_size = refl;
  src_le = omega arith;
  src_in = omega (arith, v.src_in);
  dst_le = omega arith;
  dst_in = v.dst_in;
  memory = refl;
  kept = refl;
}

length-map_bytes-write :
    (o : Option (List ℕ)) (i : ℕ) (ys : List ℕ)
    → length (bytes (map_bytes (λ xs. write xs i ys) o)) ≡ length (bytes o)
length-map_bytes-write none i ys = refl
length-map_bytes-write (some xs) i ys = length-write xs i ys

take-map_bytes-write :
    (o : Option (List ℕ)) (i : ℕ) (ys : List ℕ)
    → take i (bytes (map_bytes (λ xs. write xs i ys) o)) ≡ take i (bytes o)
take-map_bytes-write none i ys = refl
take-map_bytes-write (some xs) i ys = take-write xs i ys

pub emit-Advances :
    (b : Buffer) (ys : List ℕ) → IsValid b → length ys ≤ avail_out b → Advances b (emit b ys)
emit-Advances b ys v h = record {
  src = refl;
  src_size = refl;
  dst_size = refl;
  src_le = omega arith;
  src_in = v.src_in;
  dst_le = omega arith;
  dst_in = omega (arith, v.dst_in);
  memory = length-map_bytes-write b.dst b.dst_pos ys;
  kept = take-map_bytes-write b.dst b.dst_pos ys;
}

-- The bytes in the destination before its cursor.
abbrev pub written : Buffer → List ℕ
written b = take b.dst_pos (bytes b.dst)

take-map_bytes-write-add :
    (o : Option (List ℕ)) (i j : ℕ) (ys : List ℕ)
    → j ≡ i + length ys
    → j ≤ length (bytes o)
    → take j (bytes (map_bytes (λ xs. write xs i ys) o)) ≡ take i (bytes o) ++ ys
take-map_bytes-write-add none i j [] e h =
    rw (take_all {A = ℕ} j [] (omega arith), take_all {A = ℕ} i [] (omega arith))
take-map_bytes-write-add none i j (y ∷ ys) e h = absurd (omega arith)
take-map_bytes-write-add (some xs) i j ys e h = take-write-add xs i j ys e h

pub written-emit :
    (b : Buffer) (ys : List ℕ)
    → IsValid b
    → length ys ≤ avail_out b
    → written (emit b ys) ≡ written b ++ ys
written-emit b ys v h =
    take-map_bytes-write-add b.dst b.dst_pos (b.dst_pos + length ys) ys refl
      (omega (arith, v.dst_mem, v.dst_in))

-- A byte goes out, or comes in.
pub byte_out :
    (b : Buffer) (x : ℕ)
    → IsValid b
    → avail_out b == 0 ≡ false
    → Advances b (emit b (x ∷ []))
      × (avail_in (emit b (x ∷ [])) + avail_out (emit b (x ∷ [])) < avail_in b + avail_out b)
byte_out b x v room =
    let lt : 0 < avail_out b = ground arith in
    (emit-Advances b (x ∷ []) v (omega arith), omega arith)

pub byte_in :
    (b : Buffer)
    → IsValid b
    → avail_in b == 0 ≡ false
    → Advances b (consume b 1)
      × (avail_in (consume b 1) + avail_out (consume b 1) < avail_in b + avail_out b)
byte_in b v more =
    let lt : 0 < avail_in b = ground arith in (consume-Advances b 1 v (omega arith), omega arith)

pub scratch-Advances : (b : Buffer) (ys : List ℕ) → IsValid b → Advances b (scratch b ys)
scratch-Advances b ys v = record {
  src = refl;
  src_size = refl;
  dst_size = refl;
  src_le = omega arith;
  src_in = v.src_in;
  dst_le = omega arith;
  dst_in = v.dst_in;
  memory = length-map_bytes-write b.dst b.dst_pos ys;
  kept = take-map_bytes-write b.dst b.dst_pos ys;
}

pub length-peek_le : (b : Buffer) (n : ℕ) → length (peek b n) ≤ n
length-peek_le b n = omega (arith, length-take n (drop b.src_pos (bytes b.src)))

-- Bytes out and bytes taken in one step.
abbrev pub pass : Buffer → List ℕ → ℕ → Buffer
pass b ys n = consume (emit b ys) n

pub pass-Advances :
    (b : Buffer) (ys : List ℕ) (n : ℕ)
    → IsValid b
    → length ys ≤ avail_out b
    → n ≤ avail_in b
    → Advances b (pass b ys n)
pass-Advances b ys n v out used =
    let p = emit-Advances b ys v out in
    Advances-trans p (consume-Advances (emit b ys) n (Advances-IsValid v p) used)

pub pass_less :
    (b : Buffer) (ys : List ℕ) (n : ℕ)
    → length ys ≤ avail_out b
    → n ≤ avail_in b
    → (n == 0 && length ys == 0) ≡ false
    → avail_in (pass b ys n) + avail_out (pass b ys n) < avail_in b + avail_out b
pass_less b ys n out used go = ground arith
