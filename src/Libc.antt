-- ===== src/Libc.antt =====
-- What the sources use of the C library on texts and numbers.
pub mod Text
pub mod Number
pub mod Print
pub mod Compare
