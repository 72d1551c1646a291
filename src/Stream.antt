-- ===== src/Stream.antt =====
-- src/zu_stream.c, the core stream driver: the one place that sees every byte of every stream.
pub mod Check
pub mod Contract
pub mod Encoder
pub mod Decoder
pub mod OneShot
