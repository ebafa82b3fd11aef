-- ===== src/RingGraph/Build.antt =====
-- `build_graph` of structure/fix_ring_graph.rs. `to_i64` is `round`, `clamp` and the cast to i64, which
-- is its bit pattern here; `from_i64` is the cast back, `atan2` the method of f64. The hash map is an
-- association list; `sort_by` is an insertion sort, which is stable as that is.
pub mod Sound
use Prim.Native.Nat.{Ordering}
use geo_repair.Prelude.{
  sort_onto, ℕ, zero, suc, ◌+◌, Bool, true, false, not, ◌&&◌, List, [], ◌∷◌, ◌++◌, Option, none,
  some, length, replicate, get_or, set, ◌==◌, if◌then◌else◌,
}
use geo_repair.Geo.{Coord}
use geo_repair.Floats.{Floats, is_finite}
use geo_repair.RingGraph.{Edge, Graph}

abbrev pub Key : Type 0
Key = ℕ × ℕ

-- `Line`: its start and its end
abbrev pub Segment : Type 0
Segment = Coord × Coord

pub record Casts : Type 0 where
  pub to_i64 : ℕ → ℕ
  pub from_i64 : ℕ → ℕ
  pub atan2 : ℕ → ℕ → ℕ

-- `core::SNAP_SCALE`
abbrev pub snap_scale : ℕ
snap_scale = 0x4197_d784_0000_0000

-- the hash map from keys to vertices, and the vertices
pub record Vertices : Type 0 where
  pub key_to_idx : List (Key × ℕ)
  pub verts : List Coord

abbrev pub look_up : Key → List (Key × ℕ) → Option ℕ
look_up key [] = none
look_up key (entry ∷ entries) =
    let rest = look_up key entries in
    if entry.0.0 == key.0 && entry.0.1 == key.1 then some entry.1 else rest

-- `adj[v].push((to, ei))`
abbrev pub push_at : List (List (ℕ × ℕ)) → ℕ → ℕ × ℕ → List (List (ℕ × ℕ))
push_at adj v a = set adj v (get_or adj v [] ++ a ∷ [])

unfoldable pub link_edges : ℕ → List Edge → List (List (ℕ × ℕ)) → List (List (ℕ × ℕ))
link_edges ei [] adj = adj
link_edges ei (edge ∷ rest) adj =
    link_edges (suc ei) rest (push_at (push_at adj edge.0 (edge.1, ei)) edge.1 (edge.0, ei))

abbrev is_less : Option Ordering → Bool
is_less none = false
is_less (some Ordering.lt) = true
is_less (some Ordering.eq) = false
is_less (some Ordering.gt) = false

abbrev pub origin : Coord
origin = record { x = 0; y = 0 }

module _ (f : Floats) (casts : Casts) where
  unfoldable pub snap_ordinate : ℕ → ℕ
  snap_ordinate v = let s = f.mul v snap_scale in if is_finite s then casts.to_i64 s else 0

  unfoldable pub snap_key : Coord → Key
  snap_key c = (snap_ordinate c.x, snap_ordinate c.y)

  unfoldable pub key_to_coord : Key → Coord
  key_to_coord key = record {
    x = f.div (casts.from_i64 key.0) snap_scale;
    y = f.div (casts.from_i64 key.1) snap_scale;
  }

  unfoldable pub get_vert : Coord → Vertices → ℕ × Vertices
  get_vert c s =
      let key = snap_key c in
      elim (look_up key s.key_to_idx) [
        | some idx ↦ (idx, s)
        | none ↦ (
          length s.verts,
          record {
            key_to_idx = (key, length s.verts) ∷ s.key_to_idx;
            verts = s.verts ++ key_to_coord key ∷ [];
          },
        )
      ]

  unfoldable pub add_lines : List Segment → Vertices → Vertices × List Edge
  add_lines [] s = (s, [])
  add_lines (line ∷ lines) s =
      let (fi, s1) = get_vert line.0 s in
      let (ti, s2) = get_vert line.1 s1 in
      let rest = add_lines lines s2 in (rest.0, if fi == ti then rest.1 else (fi, ti) ∷ rest.1)

  unfoldable pub angle_less : List Coord → ℕ → ℕ × ℕ → ℕ × ℕ → Bool
  angle_less verts vi a b =
      let c = get_or verts vi origin in
      let ca = get_or verts a.0 origin in
      let cb = get_or verts b.0 origin in
      is_less (
        f.partial_cmp (casts.atan2 (f.sub ca.y c.y) (f.sub ca.x c.x))
          (casts.atan2 (f.sub cb.y c.y) (f.sub cb.x c.x)))

  unfoldable pub sort_adj : List Coord → ℕ → List (List (ℕ × ℕ)) → List (List (ℕ × ℕ))
  sort_adj verts vi [] = []
  sort_adj verts vi (neighbors ∷ rest) =
      sort_onto (angle_less verts vi) neighbors [] ∷ sort_adj verts (suc vi) rest

  unfoldable pub build_graph : List Segment → Graph
  build_graph lines =
      let built = add_lines lines (record { key_to_idx = []; verts = [] }) in
      record {
        verts = built.0.verts;
        edges = built.1;
        sorted_adj =
            sort_adj built.0.verts 0 (link_edges 0 built.1 (replicate (length built.0.verts) []));
      }
