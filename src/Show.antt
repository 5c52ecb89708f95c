-- ===== src/Show.antt =====
-- src/show.c: the output of `wg show`.
pub mod Order
pub mod Time
