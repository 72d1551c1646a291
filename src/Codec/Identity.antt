-- ===== src/Codec/Identity.antt =====
-- src/codec_identity.c: bytes in, the same bytes out. The state is opaque here: the source's is the
-- address of a static object that is never read.
pub mod Copy
use zukomp.Base.{
  ℕ, ◌+◌, ◌-◌, Bool, true, not, Option, none, some, List, ltb, ◌==◌, ◌&&◌, ◌||◌, if◌then◌else◌,
  is_none, min, codes,
}
use zukomp.Base.Int.{ℤ, pos}
use zukomp.Buffer.{Buffer, avail_in, avail_out, peek, emit, consume}
use zukomp.Types.{
  Status, ok, need_input, need_output, stream_end, err_invalid_argument, Process, Vtable,
  EncoderOpts, DecoderOpts, vtable_size, codec_identity, can_encode, can_decode, can_flush,
  zu_finish,
}

-- The `memcpy` of `n` bytes, and both cursors.
abbrev pub copy : Buffer → ℕ → Buffer
copy b n = consume (emit b (peek b n)) n

abbrev pub amount : Buffer → ℕ
amount b = if ltb (avail_in b) (avail_out b) then avail_in b else avail_out b

-- What stopped the copy.
abbrev pub stopped : ℕ → ℕ → Status
stopped left flush =
    if ltb 0 left then need_output else if flush == zu_finish then stream_end else need_input

-- `identity_bound`: exact.
unfoldable pub identity_bound : ℤ → ℕ → Status × Option ℕ
identity_bound level n = (ok, some n)

module _ {S : Type 0} where
  -- `identity_process`
  unfoldable pub identity_process : Process S
  identity_process s b flush =
      if ltb b.src_size b.src_pos || ltb b.dst_size b.dst_pos
      then (err_invalid_argument, s, b)
      else if ltb 0 (amount b) && (is_none b.src || is_none b.dst)
      then (err_invalid_argument, s, b)
      else (
        stopped (avail_in b - amount b) flush,
        s,
        if ltb 0 (amount b) then copy b (amount b) else b,
      )

  -- `zu_int_codec_identity`, over the address of the static state.
  unfoldable pub identity_vtable : S → Vtable S
  unfolding identity_process identity_bound
  identity_vtable state = record {
    struct_size = vtable_size;
    codec = codec_identity;
    name = some (codes "identity");
    content_encoding = some (codes "identity");
    source = some (codes "zukomp");
    level_min = pos 0;
    level_max = pos 0;
    level_default = pos 0;
    flags = can_encode + can_decode + can_flush;
    magic = none;
    magic_len = 0;
    magic_offset = 0;
    sniff = none;
    encoder_new = some (λ o. (ok, some state));
    encoder_process = some identity_process;
    encoder_reset = some (λ s o. (ok, s));
    has_encoder_free = true;
    decoder_new = some (λ o. (ok, some state));
    decoder_process = some identity_process;
    decoder_reset = some (λ s o. (ok, s));
    has_decoder_free = true;
    bound = some identity_bound;
    level_fast = pos 0;
    level_best = pos 0;
  }
