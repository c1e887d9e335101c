-- ===== src/Strings.antt =====
-- util/string.c on a memory of bytes.
pub mod Bytes
pub mod Copies
pub mod Ends
mod Tests
