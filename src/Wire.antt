-- ===== src/Wire.antt =====
-- The package wire: encoder and decoder of the VoltDB wire protocol (wire/encoder.go,
-- wire/decoder.go).
pub mod Instant
pub mod Value
pub mod Encoder
pub mod Source
pub mod Decoder
pub mod DecoderAt
mod Tests
