-- ===== src/Format.antt =====
-- crates/foldback-core/src/format.rs: the `.foldback` session file. A fixed header of 32 bytes, then
-- frames, each a type byte, the payload's length as a u32, and the payload.
pub mod Header
pub mod Frame
pub mod Decode
pub mod Stream
pub mod Tests
