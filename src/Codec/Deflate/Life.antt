-- ===== src/Codec/Deflate/Life.antt =====
-- src/codec_deflate.c: how a state of the DEFLATE family is made and started again, and the bounds.
use zukomp.Base.{
  ℕ, ◌+◌, ◌/◌, Bool, true, false, not, Option, none, some, List, [], ◌∷◌, ◌&&◌, if◌then◌else◌,
  write,
}
use zukomp.Base.Int.{ℤ, pos, eq_ℤ}
use zukomp.Types.{
  Status, ok, err_invalid_argument, err_memory, level_default, EncoderOpts, DecoderOpts,
}
use zukomp.Size.{add}
use zukomp.Gzip.{Header, header_init, write_header, header_len}
use zukomp.Codec.Miniz.{Code, mz_ok, Engine}
use zukomp.Codec.Deflate.{Deflate, Wrap, raw, zlib, gzip, Stage, header, body, from_mz, zlib_header}

-- `MZ_DEFAULT_LEVEL`
abbrev pub mz_default_level : ℤ
mz_default_level = pos 6

abbrev pub zeros : List ℕ
zeros = 0 ∷ 0 ∷ 0 ∷ 0 ∷ 0 ∷ 0 ∷ 0 ∷ 0 ∷ []

-- The two lengths, and where a stream of each kind starts.
abbrev pub header_size : Wrap → ℕ
header_size raw = 0
header_size zlib = 2
header_size gzip = header_len

abbrev pub trailer_size : Wrap → ℕ
trailer_size raw = 0
trailer_size zlib = 4
trailer_size gzip = 8

abbrev pub first_stage : Wrap → Stage
first_stage raw = body
first_stage zlib = header
first_stage gzip = header

-- What the encoder writes to `hdr`.
abbrev pub own_header : Bool → Wrap → ℤ → List ℕ → List ℕ
own_header true zlib level hdr = write hdr 0 (zlib_header level)
own_header true gzip level hdr = write hdr 0 write_header
own_header _ _ level hdr = hdr

abbrev pub is_ok : Code → Bool
is_ok mz_ok = true
is_ok _ = false

module _ {M : Type 0} (e : Engine M) where
  -- `zu_int_checksum_init`
  abbrev pub checksum_init : Wrap → ℕ
  checksum_init gzip = e.crc32 0 []
  checksum_init _ = e.adler32 0 []

  sum_bytes : Wrap → ℕ → List ℕ → ℕ
  sum_bytes gzip v xs = e.crc32 v xs
  sum_bytes _ v xs = e.adler32 v xs

  -- `zu_int_checksum_update`: no bytes, no call.
  unfoldable pub checksum_update : Wrap → ℕ → List ℕ → ℕ
  unfolding sum_bytes
  checksum_update w v [] = v
  checksum_update w v (x ∷ xs) = sum_bytes w v (x ∷ xs)

  -- The gzip parser of a decoder; another state's stays as it is.
  abbrev pub own_parser : Bool → Wrap → Header → Header
  own_parser false gzip gz = header_init e.crc32
  own_parser _ _ gz = gz

  -- `memset` of the parser to 0, as `calloc` leaves it.
  abbrev pub no_parser : Header
  no_parser = record (header_init e.crc32) { crc = 0 }

  unfoldable pub opened : Wrap → Bool → ℤ → ℕ → Code × M → Status × Option (Deflate M)
  unfolding header_init
  opened wrap encoder level flags (mz, m) = if not (is_ok mz) then (from_mz mz, none) else (
    ok,
    some (record {
      mz = m;
      mz_called = false;
      encoder = encoder;
      wrap = wrap;
      stage = first_stage wrap;
      level = level;
      hdr = own_header encoder wrap level (0 ∷ 0 ∷ zeros);
      hdr_len = header_size wrap;
      hdr_pos = 0;
      tail = zeros;
      tail_len = trailer_size wrap;
      tail_pos = 0;
      checksum = checksum_init wrap;
      uncompressed = 0;
      gz = own_parser encoder wrap no_parser;
      dec_flags = flags;
      probe_magic = false;
    }),
  )

  -- `zu_int_deflate_new`, with a place for the state. `mem` says whether `calloc` succeeds.
  unfoldable pub deflate_new : Bool → Wrap → Bool → ℤ → ℕ → Status × Option (Deflate M)
  unfolding opened
  deflate_new mem wrap encoder level flags =
      let own = if eq_ℤ level level_default then mz_default_level else level in
      if not mem
      then (err_memory, none)
      else opened wrap encoder own flags (if encoder then e.deflate_init own else e.inflate_init)

  -- The wrapper's part of a reset.
  unfoldable pub rewound : Deflate M → Deflate M
  rewound s = record s {
    mz_called = false;
    checksum = checksum_init s.wrap;
    uncompressed = 0;
    hdr_pos = 0;
    tail_pos = 0;
    probe_magic = false;
    stage = first_stage s.wrap;
    hdr = own_header s.encoder s.wrap s.level s.hdr;
    gz = own_parser s.encoder s.wrap s.gz;
  }

  unfoldable pub restarted : Deflate M → ℤ → Code × M → Status × Deflate M
  unfolding rewound
  restarted s level (mz, m) =
      if not (is_ok mz)
      then (from_mz mz, record s { mz = m })
      else (ok, rewound (record s { mz = m; level = level }))

  -- ZU_LEVEL_DEFAULT changes nothing.
  abbrev pub wanted : Deflate M → ℤ → ℤ
  wanted s level = if s.encoder && not (eq_ℤ level level_default) then level else s.level

  -- A level that is not the stream's own needs a new engine.
  unfoldable pub begun : Deflate M → ℤ → Code × M
  begun s want =
      if s.encoder && not (eq_ℤ want s.level)
      then e.deflate_init want
      else if s.encoder
      then e.deflate_reset s.mz
      else e.inflate_reset s.mz

  -- `zu_int_deflate_reset`
  unfoldable pub deflate_reset : Deflate M → ℤ → Status × Deflate M
  unfolding restarted begun
  deflate_reset s level = restarted s (wanted s level) (begun s (wanted s level))

  -- `deflate_encoder_reset` and `deflate_decoder_reset`, none where the state is NULL.
  pub encoder_reset : Option (Deflate M) → EncoderOpts → Status × Option (Deflate M)
  encoder_reset none o = (err_invalid_argument, none)
  encoder_reset (some s) o = let (st, s') = deflate_reset s o.level in (st, some s')

  pub decoder_reset : Option (Deflate M) → DecoderOpts → Status × Option (Deflate M)
  decoder_reset none o = (err_invalid_argument, none)
  decoder_reset (some s) o =
      let (st, s') = deflate_reset (record s { dec_flags = o.flags }) level_default in (st, some s')

abbrev plus : Status × Option ℕ → ℕ → Status × Option ℕ
plus (st, none) b = (st, none)
plus (st, some a) b = add a b

-- `zu_int_deflate_bound`, with a place for the result.
unfoldable pub deflate_bound : ℕ → ℕ → Status × Option ℕ
deflate_bound n wrapper = plus (add n (n / 64)) (64 + wrapper)
