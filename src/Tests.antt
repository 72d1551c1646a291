-- ===== src/Tests.antt =====
-- Runs of the development's theorems at concrete inputs.
pub mod Streams
pub mod Codecs
pub mod Formats
pub mod Memory
pub mod Toy
pub mod Deflate
pub mod Zstd
pub mod Whole
pub mod Lz4
