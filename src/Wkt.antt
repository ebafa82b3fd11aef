-- ===== src/Wkt.antt =====
-- io/wkt: the WKT writer.
pub mod Write
pub mod Uses
pub mod Ordinates
mod Tests
