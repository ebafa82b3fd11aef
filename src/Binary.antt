-- ===== src/Binary.antt =====
-- io/binary.rs: the bulk polygon format, its loader, its streaming iterator and its writer.
pub mod Load
pub mod Write
pub mod Stream
pub mod RoundTrip
pub mod Agree
mod Tests
