-- ===== src/Highlighter.antt =====
-- contrib/highlighter/highlighter.c: the syntax highlighter of configuration files, built without
-- MOBILE_WGQUICK_SUBSET. The growth of the array of spans is left out; allocation does not fail.
pub mod Validate
pub mod Value
pub mod Text
pub mod Order
pub mod Key
pub mod Hostname
