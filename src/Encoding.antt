-- ===== src/Encoding.antt =====
-- src/encoding.c and src/encoding.h: keys of 32 bytes as base64 and as hexadecimal text.
pub mod Flag
pub mod Base64
pub mod Hex
