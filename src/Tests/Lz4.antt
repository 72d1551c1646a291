-- ===== src/Tests/Lz4.antt =====
-- The search for a block's size (src/codec_lz4.c) over a liblz4 whose blocks decode to themselves.
use zukomp.Base.{
  ℕ, ◌≡◌, refl, false, Option, none, some, List, [], ◌∷◌, length, leb, if◌then◌else◌, arith,
}
use zukomp.Base.Int.{pos}
use zukomp.Codec.Lz4.{Liblz4, Lz4, Answer, search}
use zukomp.Codec.Lz4.Search.{Decodes, Searched, search_ends}
use zukomp.Buffer.{Buffer, IsValid}
use zukomp.Codec.Lz4.Block.{gather}
use zukomp.Codec.Lz4.Block.Gather.{IsGathered, Collected, gather_collects}
use zukomp.Tests.Memory.{padded, padded-Reallocates}

abbrev decode : List ℕ → List ℕ → ℕ → Option ℕ × List ℕ
decode src dst cap = (if leb (length src) cap then some (length src) else none, dst)

abbrev plain : Liblz4
plain = record {
  decompress_safe = decode;
  decompress_safe_partial = λ src dst cap goal. (some goal, dst);
}

plain-Decodes : Decodes plain
plain-Decodes = record {
  fits = λ src dst cap m e. ground arith;
  inside = λ src dst cap. refl;
  inside_partial = λ src dst cap goal. refl;
}

abbrev gathered : Lz4
gathered = record {
  encoder = false;
  level = pos 0;
  stage = none;
  stage_cap = 0;
  stage_len = 0;
  stage_pos = 0;
  input = some (7 ∷ 8 ∷ 9 ∷ []);
  in_cap = 3;
  in_len = 3;
  done = false;
  max_output = 2;
  has_expected = false;
  expected = 0;
}

search_ends_example : (x : Answer) × (search plain padded gathered ≡ some x) × Searched gathered x
search_ends_example = search_ends plain plain-Decodes padded padded-Reallocates gathered refl

abbrev more : Buffer
more = record {
  src = some (4 ∷ 5 ∷ []);
  src_size = 2;
  src_pos = 0;
  dst = none;
  dst_size = 0;
  dst_pos = 0;
}

more-IsValid : IsValid more
more-IsValid = record {
  src_in = omega arith;
  dst_in = omega arith;
  src_mem = omega arith;
  dst_mem = omega arith;
  src_word = omega arith;
  dst_word = omega arith;
}

gathered-IsGathered : IsGathered gathered
gathered-IsGathered = record { memory = refl; within = omega arith; small = omega arith }

gather_collects_example : Collected gathered more (gather padded gathered more)
gather_collects_example =
    gather_collects padded padded-Reallocates gathered gathered-IsGathered more more-IsValid
