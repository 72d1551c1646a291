-- ===== src/Codec.antt =====
-- The codecs behind the registry.
pub mod Identity
pub mod Miniz
pub mod Deflate
pub mod Libzstd
pub mod Zstd
pub mod Lz4
