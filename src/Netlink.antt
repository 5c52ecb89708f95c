-- ===== src/Netlink.antt =====
-- src/ipc-linux.h: the back end of the Linux kernel. A message is the tree of its attributes.
pub mod Attr
pub mod Get
pub mod Set
pub mod RoundTrip
