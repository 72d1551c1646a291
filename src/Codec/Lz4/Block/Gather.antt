-- ===== src/Codec/Lz4/Block/Gather.antt =====
-- src/codec_lz4.c: what zu_int_lz4b_gather does to the gathered input.
use mathlib.Core.List.{append-nil}
use zukomp.Base.{
  ℕ, ◌+◌, ◌-◌, ◌≤◌, ◌<◌, ◌≡◌, ◌⊎◌, inl, inr, refl, sym, ap, ◌∙◌, subst, false, not, Option, none,
  some, List, ◌++◌, take, drop, take-take, length, length-take, length-drop, length-write,
  take-write-add, write, ltb, ◌==◌, if◌then◌else◌, if_split, if_elim, arith, word, size_max,
}
use zukomp.Buffer.{Buffer, IsValid, avail_in, bytes, peek, map_bytes}
use zukomp.Types.{Status, ok, err_memory, is}
use zukomp.Size.{add, grow}
use zukomp.Size.Exact.{grow_succeeds}
use zukomp.Whole.Reserve.{Reallocates}
use zukomp.Codec.Lz4.{Lz4}
use zukomp.Codec.Lz4.Block.{max_input, enlarged, to_capacity, appended, summed, gather}

-- The gathered input lies in its block and is no longer than liblz4 takes.
pub record IsGathered (s : Lz4) : Type 0 where
  pub memory : length (bytes s.input) ≡ s.in_cap
  pub within : s.in_len ≤ s.in_cap
  pub small : s.in_len ≤ max_input

abbrev pub gathered : Lz4 → List ℕ
gathered s = take s.in_len (bytes s.input)

-- All that the caller offered is behind what was gathered, or nothing has changed.
abbrev pub Collected : Lz4 → Buffer → Status × Lz4 × Buffer → Type 0
Collected s b (st, t, c) =
    (st ≡ ok)
      × IsGathered t
      × (gathered t ≡ gathered s ++ peek b (avail_in b))
      × (c ≡ record b { src_pos = b.src_size })
    ⊎ (is st ok ≡ false) × (t ≡ s) × (c ≡ b)

-- Room for `n` bytes, or no memory.
abbrev Roomy : Lz4 → ℕ → Status × Lz4 → Type 0
Roomy s n (st, t) =
    (st ≡ ok)
      × (length (bytes t.input) ≡ t.in_cap)
      × (n ≤ t.in_cap)
      × (t.in_len ≡ s.in_len)
      × (take s.in_len (bytes t.input) ≡ gathered s)
    ⊎ (is st ok ≡ false) × (t ≡ s)

add_cases : (m n : ℕ) → m < word → (add m n ≡ (ok, some (m + n))) ⊎ (add m n ≡ (err_memory, none))
unfolding add
add_cases m n lt =
    if_split (λ x. (x ≡ (ok, some (m + n))) ⊎ (x ≡ (err_memory, none))) (ltb (size_max - m) n)
      (λ _. inr refl) (λ f. inl (ap (λ k. (ok, some k)) (ground arith)))

map_bytes_lem :
    (f : List ℕ → List ℕ) (p : Option (List ℕ))
    → 0 < length (bytes p)
    → bytes (map_bytes f p) ≡ f (bytes p)
map_bytes_lem f none lt = absurd (omega arith)
map_bytes_lem f (some xs) lt = refl

module _ (realloc : Option (List ℕ) → ℕ → Option (List ℕ)) (reallocates : Reallocates realloc)
    (s : Lz4) (g : IsGathered s) where
  enlarged-Roomy :
      (n : ℕ) (q : Option (List ℕ))
      → s.in_cap ≤ n
      → realloc s.input n ≡ q
      → (m : ℕ) → m ≤ n
      → Roomy s m (enlarged realloc s n q)
  unfolding enlarged
  enlarged-Roomy n none le e m fits = inr (refl, refl)
  enlarged-Roomy n (some p) le e m fits =
      let kept = reallocates.kept s.input n p e (omega (arith, g.memory)) in
      let front =
        take-take s.in_len (length (bytes s.input)) p (omega (arith, g.memory, g.within)) in
      inl (refl, reallocates.sized s.input n p e, fits, refl, sym front ∙ ap (take s.in_len) kept)

  made-Roomy :
      (m : ℕ)
      → s.in_cap < m
      → m < word
      → Roomy s m (to_capacity realloc s (grow s.in_cap (m - s.in_cap)))
  unfolding to_capacity
  made-Roomy m more lt =
      let (n, e, _, enough, _, _, _) = grow_succeeds s.in_cap (m - s.in_cap) (omega arith) in
      subst (λ x. Roomy s m (to_capacity realloc s x)) (sym e)
        (enlarged-Roomy n (realloc s.input n) (omega arith) refl m (omega arith))

  appended-Collected :
      (b : Buffer)
      → IsValid b
      → 0 < avail_in b
      → s.in_len + avail_in b ≤ max_input
      → (x : Status × Lz4) → Roomy s (s.in_len + avail_in b) x
      → Collected s b (appended realloc b x)
  unfolding appended
  appended-Collected b v more small (st, t) (inr (bad, same)) =
      if_split (Collected s b) (not (is st ok)) (λ _. inr (bad, same, refl))
        (λ fine. absurd (ground arith))
  appended-Collected b v more small (st, t) (inl (good, memory, room, len, front)) =
      let n = avail_in b in
      let ys = peek b n in
      let size : length ys ≡ n = omega (
        arith,
        length-take n (drop b.src_pos (bytes b.src)),
        length-drop b.src_pos (bytes b.src),
        v.src_mem,
        v.src_in,
      ) in
      let put = map_bytes_lem (λ xs. write xs t.in_len ys) t.input (omega arith) in
      let joined =
        take-write-add (bytes t.input) t.in_len (t.in_len + n) ys (omega arith) (omega arith) in
      let old : take t.in_len (bytes t.input) ≡ gathered s =
        ap (λ k. take k (bytes t.input)) len ∙ front in
      if_split (Collected s b) (not (is st ok))
        (λ bad. let fine = ap (λ (c : Status). is c ok) good in absurd (ground arith))
        (λ _. inl (
          refl,
          record {
            memory = ap length put ∙ length-write (bytes t.input) t.in_len ys ∙ memory;
            within = omega arith;
            small = omega arith;
          },
          ap (take (t.in_len + n)) put ∙ joined ∙ ap (λ xs. xs ++ ys) old,
          ap (λ p. record b { src_pos = p }) (omega (arith, v.src_in)),
        ))

  summed-Collected :
      (b : Buffer)
      → IsValid b
      → 0 < avail_in b
      → (x : Status × Option ℕ)
      → (x ≡ (ok, some (s.in_len + avail_in b))) ⊎ (x ≡ (err_memory, none))
      → Collected s b (summed realloc s b x)
  unfolding summed
  summed-Collected b v more x (inr e) =
      subst (λ y. Collected s b (summed realloc s b y)) (sym e) (inr (refl, refl, refl))
  summed-Collected b v more x (inl e) =
      let need = s.in_len + avail_in b in
      subst (λ y. Collected s b (summed realloc s b y)) (sym e)
        (if_split (Collected s b) (ltb max_input need)
          (λ _. inr (if_elim (λ st. is st ok ≡ false) s.encoder refl refl, refl, refl))
          (λ f.
            let small : need ≤ max_input = ground arith in
            appended-Collected b v more small
              (if ltb s.in_cap need
                then to_capacity realloc s (grow s.in_cap (need - s.in_cap))
                else (ok, s))
              (if_split (Roomy s need) (ltb s.in_cap need)
                (λ t. made-Roomy need (ground arith) (omega arith))
                (λ enough. inl (refl, g.memory, ground arith, refl, refl)))))

  -- A gathered input that lies in its block and within LZ4_MAX_INPUT_SIZE, a valid buffer, and a `realloc`
  -- that does what C says: zu_int_lz4b_gather answers ZU_OK, has taken all of the input, and the gathered
  -- bytes are the old ones and then those, again within their block and LZ4_MAX_INPUT_SIZE; or it
  -- answers an error, and the state and the buffer are as they were.
  pub gather_collects : (b : Buffer) → IsValid b → Collected s b (gather realloc s b)
  unfolding gather
  gather_collects b v =
      if_split (Collected s b) (avail_in b == 0)
        (λ t.
          let none_left : avail_in b ≡ 0 = ground arith in
          inl (
            refl,
            g,
            sym (ap (λ n. gathered s ++ peek b n) none_left ∙ append-nil (gathered s)),
            ap (λ p. record b { src_pos = p }) (omega (arith, v.src_in)),
          ))
        (λ f.
          summed-Collected b v (ground arith) (add s.in_len (avail_in b))
            (add_cases s.in_len (avail_in b) (omega (arith, g.small))))
