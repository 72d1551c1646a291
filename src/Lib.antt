-- ===== src/Lib.antt =====
-- zukomp is an R package with one interface over several compression formats. Its C core has a registry of
-- codecs, each a table of functions; a stream driver that checks every call, enforces the decoder's limits and
-- passes a window of the caller's buffer on to the codec; and codecs, which bring their own format code (the
-- gzip header, the continuation into a further frame) and call libraries that the package vendors.
--
-- The parts, and the files that model them:
-- - Base.antt and the files below it: tests on native numbers, lists over them, a loop with fuel.
-- - Types.antt, Buffer.antt: the types of inst/include/zukomp.h. A pointer that may be NULL is an option; the
--   bytes behind a buffer's pointer are a list, and a function that writes returns the buffer after it.
--   Advances is the cursor contract that the header states for a codec's process function.
-- - Size.antt: src/zu_buf.c, zu_int_add, zu_int_mul and zu_int_grow over a size_t of 64 bits.
-- - Registry.antt, Registry/Find.antt, Registry/Detect.antt: src/zu_registry.c. The static table and its
--   generation are a record that register takes and returns; registry_lookup, codec_lookup,
--   from_content_encoding, codec_list, codec_get_info and sniff are the C functions of those names.
-- - Stream/Check.antt, Stream/Encoder.antt, Stream/Decoder.antt: src/zu_stream.c. A handle is a record that
--   encoder_process and decoder_process take and return; what calloc answers is an argument. decoder_process is
--   cut the way the C function reads: gate (the early returns), window (the ceiling and the shrunken
--   destination), the codec's call, counted (the totals) and verdict (the answer).
-- - Stream/OneShot.antt: zu_int_one_shot and its two callers, and zu_compress_bound. The loop runs on fuel of
--   one more than the input and the destination together: every round that goes on moves a cursor.
-- - Stream/Contract.antt: what the driver asks of a codec, as a record that Codec/Identity/Copy.antt fills.
-- - Gzip.antt: src/zu_gzip.c, with the CRC-32 of the vendored miniz as a parameter. Gzip/Grammar.antt is RFC 1952,
--   section 2.3, as a printer.
-- - Frames.antt: src/zu_frames.c, with the library's feed and probe as parameters. Frames/Prefix.antt has the
--   decision with all of the bytes at hand.
-- - Whole.antt: the output sink of src/zu_whole.c (zu_int_reserve and its neighbours), with realloc as a parameter.
-- - Whole/Run.antt: its drive loop, zu_int_run_whole: drive_round is one pass of the loop, refill its input slice, judged
--   what it makes of an answer. The C loop has no bound, so the fuel is an argument; Whole/Run/Decoding.antt says how
--   much is enough over a decoder with a ceiling.
-- - Status.antt: src/zu_status.c.
-- - Codec/Identity.antt: src/codec_identity.c. The state is opaque.
-- - Codec/Miniz.antt: what src/codec_deflate.c calls of the vendored miniz, as a record of functions, and what is
--   relied on: a call takes and writes no more than it is offered, and a stream starts or says why not.
-- - Codec/Deflate.antt and the files below it: src/codec_deflate.c. Deflate is deflate_state; Life.antt has
--   deflate_new and deflate_reset; Process.antt and the files below it have deflate_process, one handler for each
--   stage of the wrapper (Head: ST_HEADER, in_body: ST_BODY, Trail: ST_TRAILER, Member: ST_MEMBER_END) under one
--   loop; Codecs.antt has the vtables. The loop's fuel is eight rounds for each byte of input and room, and six:
--   a round moves a byte or goes one stage on, and after a byte at most five stages pass without another. A
--   pointer argument that the driver never passes as NULL has no counterpart.
-- - Codec/Libzstd.antt: what src/codec_zstd.c calls of the vendored libzstd, as a record of functions, and what is
--   relied on: the bounds of a call, and that an answer of 0 delimits frames.
-- - Codec/Zstd.antt and the files below it: src/codec_zstd.c. Zstd is zstd_state; Life.antt makes and resets it;
--   Encode.antt and Decode.antt have the two process functions, the second over Frames.antt; Window.antt has the
--   window's limit. The encoder's fuel is one round for each byte of input and room, and one; the decoder's is
--   eight for each, and eight, since between two bytes it passes from a frame to the next.
-- - Codec/Lz4.antt and the files below it: of src/codec_lz4.c, the decoder of lz4-block, over the two decompressors
--   of the vendored liblz4. Lz4 is lz4_state, less what is of lz4-frame; Codec/Lz4.antt has the staging buffer and the
--   search for the size of a block, Block.antt the gathered input and decoder_process. The search runs on eleven
--   rounds: 4096 grown fourfold ten times is past INT_MAX.
-- - Tests.antt and the files below it run the development at concrete inputs.
--
-- Words of the machine keep their width: sums of counters are taken modulo 2^64, xlen modulo 2^16. A call through
-- a NULL function pointer, which registration excludes, answers ZU_ERR_INTERNAL in the model, and so do the
-- process functions of the DEFLATE family and of zstd where their loop's fuel runs out; Codec/Deflate/Session.antt
-- and Codec/Zstd/Session.antt are about that case. A handle's codec state is an option, none where it is NULL.
--
-- Not modelled: the rest of src/codec_lz4.c (lz4-frame, and the encoder of lz4-block), the freeing of handles,
-- R's ownership of the sink and the check for an interrupt in src/zu_whole.c, the entry points for R
-- (src/zukomp_r.c, src/zukomp_api.c, src/init.c), the test hooks, and src/vendor, which is third-party.
pub mod Base
pub mod Buffer
pub mod Types
pub mod Size
pub mod Frames
pub mod Gzip
pub mod Registry
pub mod Stream
pub mod Codec
pub mod Tests
pub mod Whole
pub mod Status
