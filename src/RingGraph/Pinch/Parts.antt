-- ===== src/RingGraph/Pinch/Parts.antt =====
-- Where `split_face_at_pinch_points` of fix_ring_graph.rs cuts a closed face.
use geo_repair.Prelude.{List}
use mathlib.Core.List.{Memᴰ}
use mathlib.Core.List.Memᴰ
