-- ===== src/Netlink/RoundTrip.antt =====
-- src/ipc-linux.h: what `kernel_set_device` sends, as `kernel_get_device` reads it.
pub mod View
pub mod Nests
pub mod Cuts
pub mod Views
pub mod Head
pub mod Dump
pub mod Answer
