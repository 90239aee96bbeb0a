-- ===== src/Storage.antt =====
-- The storage package: byte encodings, keys, and the store over the pebble key-value engine.
pub mod Encode
pub mod Keys
pub mod Engine
pub mod Pebble
pub mod Examples
