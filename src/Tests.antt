-- ===== src/Tests.antt =====
-- Runs of the definitions on concrete inputs, and inputs at which the theorems' hypotheses hold.
pub mod Setup
pub mod Encoding
pub mod Config
pub mod Command
pub mod Uapi
pub mod Sync
pub mod Ipc
pub mod Terminal
pub mod Highlighter
pub mod Show
pub mod Netlink
pub mod Showconf
