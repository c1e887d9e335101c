-- ===== src/Format.antt =====
-- vsnprintf of util/snprintf.c.
pub mod Printer
pub mod Spec
pub mod Digits
pub mod Convert
pub mod Truncation
pub mod ReadBack
mod Tests
