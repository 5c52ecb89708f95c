-- ===== src/Uapi.antt =====
-- src/ipc-uapi.h: the user-space protocol.
pub mod Request
pub mod Plain
pub mod Answer
pub mod Get
pub mod Read
pub mod Runtime
pub mod Result
pub mod Returned
pub mod Errno
pub mod NoCrash
pub mod Prefix
