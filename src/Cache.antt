-- ===== src/Cache.antt =====
-- The Valkey inventory counters: keys and the parser of scanned keys (Keys), the Lua scripts and
-- the service over a fallible connection (Service), and what they promise.
pub mod Keys
pub mod Scripts
pub mod Service
