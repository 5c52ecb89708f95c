-- ===== src/Config.antt =====
-- src/config.c: configuration files and the command line of `wg set`, read into a device.
pub mod Outcome
pub mod System
pub mod Numbers
pub mod Keys
pub mod Netmask
pub mod Endpoint
pub mod WsUrl
pub mod WsValues
pub mod WsPeer
pub mod AllowedIps
pub mod Line
pub mod Command
