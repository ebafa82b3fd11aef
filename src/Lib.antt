-- ===== src/Lib.antt =====
-- Verification of GeoRepair's codecs, of its Z/M bookkeeping, and of parts of its structure repair.
--
-- The program repairs geometries of the `geo` crate and reads and writes them in several formats.
-- Modelled here:
--   src/io/wkb/mod.rs, src/io/dims.rs: Wkb/Types.antt (errors, EwkbGeometry, WriteOptions, codes)
--   src/io/wkb/read.rs: Wkb/Cursor.antt (the state: `pos`, the bytes from there on, `extra_coords`),
--     Wkb/Read.antt (words, counts, type field, coordinate batches, rings), Wkb/Reader.antt
--     (`read_geometry_inner` and the entry points, `estimate_wkb_size` among them)
--   src/io/wkb/write.rs: Wkb/Write.antt (the plain writer), Wkb/WriteEwkb.antt (the EWKB and ISO
--     writer), Wkb/Size.antt (the size computation)
--   src/io/binary.rs: Binary/Load.antt, Binary/Stream.antt, Binary/Write.antt
--   src/io/wkt/write.rs: Wkt/Write.antt, with `modifier` and `WktGeometry` of src/io/wkt/mod.rs
--   src/zm.rs: Zm.antt (`count_coords`), Zm/Preserve.antt (values, `preserve_zm`, `zm_pairs`)
--   src/cleanup.rs, and remove_consecutive_duplicates of src/noding/mod.rs: Cleanup.antt
--   src/simd/mod.rs, src/simd/fallback.rs (point in ring), shoelace_sum of src/util.rs: Rings.antt
--   src/util.rs (winding), src/make_valid/strip.rs (`enforce_ccw` and its kin): Orientation.antt
--   src/structure/nesting.rs: Nesting.antt (`resolve_nesting`), Nesting/Shell.antt (the other tests)
--   src/structure/classify.rs: Classify.antt
--   src/structure/fix_ring_graph.rs: RingGraph/Build.antt (`build_graph`), RingGraph.antt
--     (`extract_all_faces_geos`), RingGraph/Pinch.antt (`split_face_at_pinch_points`)
-- Functions keep their names; a `match` arm or a loop that is a definition of its own has a comment
-- that says so. Geo.antt has the types of the `geo` crate, Words.antt the words and byte orders of
-- Rust's `core`, Prelude.antt what all files share.
--
-- An f64 is its bit pattern. A reader is a function from the cursor to a result, which is a value
-- and the next cursor, an error of the format, or `fault`: a panic or a read outside the buffer. A
-- writer of EWKB takes the extra ordinates not used yet and gives its bytes and those still unused.
-- A `Platform` has what is outside the code: the byte order of the target, the bits of `f64::NAN`,
-- and what `Polygon::new` makes of a ring. The operations of f64 are the record of Floats.antt,
-- with no law but those that a theorem names: `IsOrder` and `Respects` there, `Compares` in
-- Zm/Origin.antt. `coords_iter` in Zm/Preserve.antt, what a failed
-- `read_exact` leaves in Binary/Stream.antt, the text of a number in Wkt/Write.antt, what an R-tree
-- visits in Nesting.antt, the casts and `atan2` in RingGraph/Build.antt, the cast of a length in
-- Classify.antt and `orient2d` in Orientation.antt are parameters too. In the structure repair a loop
-- with indices is recursion over the arrays it reads; an index out of bounds, a panic in the source,
-- reads a default and writes nothing, but for a vertex without an adjacency list and a face without a
-- first step or its edge, which end in `none`.
--
-- Bounds: `read_geometry_inner` recurses on the levels of nesting that are left; 257 of them at the
-- top are the source's `depth > MAX_WKB_NESTING` at 256. `concat_loop` has one round for each byte
-- of the buffer as its fuel, which is enough because a round takes five bytes. `usize` is taken to
-- be 64 bits wide, where no offset of these codecs wraps. An i32 SRID is its bit pattern. Debug
-- assertions are not part of the model. The search of `resolve_nesting` has one round of fuel for
-- each hole, which is enough because a hole is queued once, and the walks along faces have one more
-- than there are directed edges, where the source's own bound ends them. The split at pinch points
-- has the source's depth as its recursion.
--
-- Wkb/Reads.antt, Trips.antt, Header.antt, Batch.antt, Coords.antt, Rings.antt, Parts.antt,
-- RoundTrip.antt and Inverse.antt build the round trip of EWKB from the header and the coordinates
-- up; Wkb/Plain.antt and PlainTrip.antt carry it over to the plain writer; Wkb/Sound.antt,
-- SoundCoords.antt, SoundReader.antt, Robust.antt and Concat.antt are about any bytes. Fits.antt
-- has the geometries that the formats can express and what the reader makes of each. Wkt/Uses.antt
-- and Wkt/Ordinates.antt are about the extra ordinates that the WKT writer uses, Zm/Origin.antt about
-- the values that `preserve_zm` gives, Binary/RoundTrip.antt and Binary/Agree.antt about the bulk
-- format. Nesting/Kids.antt, Link.antt, Visit.antt, Levels.antt and Round.antt carry the invariant of
-- the search for depths, Depths.antt its end, Split.antt and Resolve.antt the result, Parent.antt the
-- choice of a parent. RingGraph/Links.antt and Walk.antt bound the links and the walks that Faces.antt
-- is about; RingGraph/Build/Sound.antt joins them to the graph of any lines. Cleanup/Kept.antt and
-- Ends.antt, Rings/Rotate.antt, Classify/Agree.antt and RingSet.antt, RingGraph/Pinch/,
-- Nesting/Shell/ and Orientation/Least.antt have the theorems on the parts they are named for.
-- Tests.antt of each part applies the theorems to samples.
--
-- Not modelled: the Display texts of errors, allocation, writing to files and sockets, and the
-- other parts of the repository: the rest of the structure repair, noding, arrangement, validation,
-- the WKT parser, the other formats and the bindings.
pub mod Prelude
pub mod Words
pub mod Geo
pub mod Floats
pub mod Zm
pub mod Cleanup
pub mod Classify
pub mod Nesting
pub mod Orientation
pub mod Rings
pub mod RingGraph
pub mod Wkb
pub mod Binary
pub mod Wkt
