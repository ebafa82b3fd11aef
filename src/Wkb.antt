-- ===== src/Wkb.antt =====
-- io/wkb: the WKB and EWKB reader and writer.
pub mod Types
pub mod Cursor
pub mod Read
pub mod Reader
pub mod Write
pub mod WriteEwkb
pub mod Reads
pub mod Header
pub mod Trips
pub mod Coords
pub mod Batch
pub mod Rings
pub mod Fits
pub mod Parts
pub mod RoundTrip
pub mod Inverse
pub mod Size
pub mod Plain
pub mod PlainTrip
pub mod Sound
pub mod SoundCoords
pub mod SoundReader
pub mod Robust
pub mod Concat
pub mod Samples
mod Tests
