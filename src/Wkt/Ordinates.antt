-- ===== src/Wkt/Ordinates.antt =====
-- Which extra ordinates the WKT writer uses.
use geo_repair.Prelude.{
  ℕ, suc, ◌+◌, ◌*◌, ◌≡◌, refl, ap, ◌∙◌, Bool, true, false, not, ◌&&◌, List, [], ◌∷◌, ◌++◌, arith,
  length, if◌then◌else◌, sum_by, any, Bool-cases, inl, inr, String,
}
use geo_repair.Geo.{
  Coord, LineString, Polygon, Geometry, Geometries, Platform, no_geometries, also, point, line,
  line_string, polygon, multi_point, multi_line_string, multi_polygon, geometry_collection, rect,
  triangle, is_nan,
}
use geo_repair.Wkb.Types.{Dims, bit}
use geo_repair.Wkb.Write.{is_empty, rect_ring, triangle_ring}
use geo_repair.Wkb.Coords.{extra_count}
use geo_repair.Wkt.Write.{
  Pen, push, ◌>>>◌, write_header, separator, write_f64, take_extra, write_extra, write_coord,
  write_coords, write_coord_list, write_holes, write_polygon_rings, write_lines, write_members,
  bracketed, no_parts, write_geom, write_geoms,
}
use geo_repair.Wkt.Uses.{
  polygon_coords, written_coords, all_written_coords, Uses, Uses-push, Uses-seq, Uses-eq,
  Uses-header, Uses-separator, length_nil, sum_by_nil, none_chosen, one_chosen, not-true,
}

module _ (p : Platform) (format : ℕ → String) where
  Uses-extra : (flag : Bool) → Uses (bit flag) (write_extra p format flag)
  unfolding write_extra take_extra
  Uses-extra false es more e = Uses-push "" es more e
  Uses-extra true [] more e = absurd (omega arith)
  Uses-extra true (x ∷ []) more e = refl
  Uses-extra true (x ∷ y ∷ es) more e = absurd (omega arith)

  module _ (dims : Dims) where
    Uses-coord : (c : Coord) → Uses (extra_count dims) (write_coord p format dims c)
    unfolding write_coord write_f64
    Uses-coord c =
        Uses-seq (write_extra p format dims.has_z) (write_extra p format dims.has_m)
          (bit dims.has_z) (bit dims.has_m) (Uses-extra dims.has_z) (Uses-extra dims.has_m)

    -- one element of a list behind its separator, and the others
    Uses-element :
        (first : Bool) (w rest : Pen) (n m total : ℕ)
        → n + m ≡ total
        → Uses n w
        → Uses m rest
        → Uses total (separator first >>> w >>> rest)
    Uses-element first w rest n m total e h k =
        Uses-eq (separator first >>> w >>> rest) (0 + (n + m)) total (omega arith) (
          Uses-seq (separator first) (w >>> rest) 0 (n + m) (Uses-separator first)
            (Uses-seq w rest n m h k))

    Uses-coords :
        (first : Bool) (cs : List Coord)
        → Uses (length cs * extra_count dims) (write_coords p format dims first cs)
    unfolding write_coords
    Uses-coords first [] = Uses-eq (push "") 0 (0 * extra_count dims) (omega arith) (Uses-push "")
    Uses-coords first (c ∷ cs) =
        Uses-element first (write_coord p format dims c) (write_coords p format dims false cs)
          (extra_count dims) (length cs * extra_count dims) (suc (length cs) * extra_count dims)
          (omega arith) (Uses-coord c) (Uses-coords false cs)

    Uses-holes :
        (hs : List LineString)
        → Uses (sum_by length hs * extra_count dims) (write_holes p format dims hs)
    unfolding write_holes write_coord_list
    Uses-holes [] = Uses-eq (push "") 0 (0 * extra_count dims) (omega arith) (Uses-push "")
    Uses-holes ([] ∷ hs) =
        Uses-eq (write_holes p format dims hs) (sum_by length hs * extra_count dims)
          (sum_by length ([] ∷ hs) * extra_count dims)
          (ap (λ n. n * extra_count dims) (omega arith)) (Uses-holes hs)
    Uses-holes ((c ∷ cs) ∷ hs) =
        let k = extra_count dims in
        let n = length (c ∷ cs) in
        let m = sum_by length hs in
        let w = write_coords p format dims true (c ∷ cs) in
        let rest = write_holes p format dims hs in
        Uses-eq (w >>> rest) (n * k + m * k) ((n + m) * k) (omega arith)
          (Uses-seq w rest (n * k) (m * k) (Uses-coords true (c ∷ cs)) (Uses-holes hs))

    Uses-rings :
        (g : Polygon)
        → Uses
            ((length g.exterior + sum_by length g.interiors) * extra_count dims)
            (write_polygon_rings p format dims g)
    unfolding write_polygon_rings write_coord_list
    Uses-rings g =
        let k = extra_count dims in
        let n = length g.exterior in
        let m = sum_by length g.interiors in
        let w = write_coords p format dims true g.exterior in
        let rest = write_holes p format dims g.interiors in
        Uses-eq (w >>> rest) (n * k + m * k) ((n + m) * k) (omega arith)
          (Uses-seq w rest (n * k) (m * k) (Uses-coords true g.exterior) (Uses-holes g.interiors))

    Uses-lines :
        (first : Bool) (lss : List LineString)
        → Uses (sum_by length lss * extra_count dims) (write_lines p format dims first lss)
    unfolding write_lines write_coord_list
    Uses-lines first [] = Uses-eq (push "") 0 (0 * extra_count dims) (omega arith) (Uses-push "")
    Uses-lines first (ls ∷ lss) =
        let k = extra_count dims in
        Uses-element first (write_coords p format dims true ls)
          (write_lines p format dims false lss) (length ls * k) (sum_by length lss * k)
          (sum_by length (ls ∷ lss) * k) (omega arith) (Uses-coords true ls) (Uses-lines false lss)

    Uses-members :
        (first : Bool) (gs : List Polygon)
        → Uses (sum_by polygon_coords gs * extra_count dims) (write_members p format dims first gs)
    unfolding write_members
    Uses-members first [] = Uses-eq (push "") 0 (0 * extra_count dims) (omega arith) (Uses-push "")
    Uses-members first (g ∷ gs) = elim (Bool-cases (is_empty g.exterior)) [
      | inl empty ↦ rw empty (
          Uses-eq (write_members p format dims first gs)
            (sum_by polygon_coords gs * extra_count dims)
            ((0 + sum_by polygon_coords gs) * extra_count dims)
            (ap (λ n. n * extra_count dims) (omega arith)) (Uses-members first gs))
      | inr filled ↦
          let k = extra_count dims in
          let n = length g.exterior + sum_by length g.interiors in
          rw filled (
            Uses-element first (write_polygon_rings p format dims g)
              (write_members p format dims false gs) (n * k) (sum_by polygon_coords gs * k)
              ((n + sum_by polygon_coords gs) * k) (omega arith) (Uses-rings g)
              (Uses-members false gs))
    ]

    -- a list of nothing but parts without a shell
    no_member :
        (gs : List Polygon)
        → any (λ g. not (is_empty g.exterior)) gs ≡ false
        → sum_by polygon_coords gs ≡ 0
    no_member [] h = refl
    no_member (g ∷ gs) h = elim (Bool-cases (is_empty g.exterior)) [
      | inl empty ↦ rw empty (let rest = no_member gs (rw empty at h) in omega arith)
      | inr filled ↦ absurd (let no = rw filled at h in cc)
    ]

    -- a header, and then ` EMPTY` where nothing is to come or a body
    Uses-headed :
        (name : String) (empty : Bool) (body : Pen) (n : ℕ)
        → (empty ≡ true → n ≡ 0)
        → (empty ≡ false → Uses n body)
        → Uses n (write_header name dims >>> bracketed p format empty body)
    Uses-headed name true body n h k =
        Uses-eq (write_header name dims >>> push " EMPTY") (0 + 0) n
          (let none_left = h refl in omega arith)
          (Uses-seq (write_header name dims) (push " EMPTY") 0 0 (Uses-header name dims)
            (Uses-push " EMPTY"))
    Uses-headed name false body n h k =
        Uses-eq (write_header name dims >>> body) (0 + n) n (omega arith)
          (Uses-seq (write_header name dims) body 0 n (Uses-header name dims) (k refl))

    no_parts_lem :
        (gs : Geometries)
        → no_parts p format gs ≡ true
        → all_written_coords gs * extra_count dims ≡ 0
    unfolding written_coords
    no_parts_lem no_geometries h = omega arith
    no_parts_lem (also g gs) h = absurd (cc)

    mutual
      unfolding write_geom written_coords write_coord_list

      Uses-geom :
          (g : Geometry) → Uses (written_coords g * extra_count dims) (write_geom p format dims g)
      Uses-geom (point c) =
          let k = extra_count dims in
          let empty = is_nan c.x && is_nan c.y in
          Uses-headed "POINT" empty (write_coord p format dims c) ((if empty then 0 else 1) * k)
            (none_chosen empty k)
            (λ e.
              Uses-eq (write_coord p format dims c) k ((if empty then 0 else 1) * k)
                (one_chosen empty k e) (Uses-coord c))
      Uses-geom (line_string ls) =
          Uses-headed "LINESTRING" (is_empty ls) (write_coords p format dims true ls)
            (length ls * extra_count dims) (length_nil ls (extra_count dims))
            (λ _. Uses-coords true ls)
      Uses-geom (polygon g) =
          let k = extra_count dims in
          elim (Bool-cases (is_empty g.exterior)) [
            | inl empty ↦
                rw empty (
                  Uses-headed "POLYGON" true (push "") (0 * k) (λ _. omega arith)
                    (λ e. absurd (cc)))
            | inr filled ↦ rw filled (
                Uses-headed "POLYGON" false (write_polygon_rings p format dims g)
                  ((length g.exterior + sum_by length g.interiors) * k) (λ e. absurd (cc))
                  (λ _. Uses-rings g))
          ]
      Uses-geom (multi_point cs) =
          Uses-headed "MULTIPOINT" (is_empty cs) (write_coords p format dims true cs)
            (length cs * extra_count dims) (length_nil cs (extra_count dims))
            (λ _. Uses-coords true cs)
      Uses-geom (multi_line_string lss) =
          Uses-headed "MULTILINESTRING" (is_empty lss) (write_lines p format dims true lss)
            (sum_by length lss * extra_count dims) (sum_by_nil length lss (extra_count dims))
            (λ _. Uses-lines true lss)
      Uses-geom (multi_polygon gs) =
          Uses-headed "MULTIPOLYGON" (not (any (λ g. not (is_empty g.exterior)) gs))
            (write_members p format dims true gs) (sum_by polygon_coords gs * extra_count dims)
            (λ e.
              ap (λ n. n * extra_count dims)
                (no_member gs (not-true (any (λ g. not (is_empty g.exterior)) gs) e))
              ∙ (omega arith))
            (λ _. Uses-members true gs)
      Uses-geom (geometry_collection gs) =
          Uses-headed "GEOMETRYCOLLECTION" (no_parts p format gs)
            (write_geoms p format dims true gs) (all_written_coords gs * extra_count dims)
            (no_parts_lem gs) (λ _. Uses-geoms true gs)
      Uses-geom (line a b) =
          let k = extra_count dims in
          let both = write_coord p format dims a >>> write_coord p format dims b in
          Uses-headed "LINESTRING" false both (2 * k) (λ e. absurd (cc))
            (λ _. Uses-eq both (k + k) (2 * k) (omega arith) (
              Uses-seq (write_coord p format dims a) (write_coord p format dims b) k k
                (Uses-coord a) (Uses-coord b)))
      Uses-geom (rect lo hi) =
          Uses-headed "POLYGON" false (write_coords p format dims true (rect_ring lo hi))
            (5 * extra_count dims) (λ e. absurd (cc)) (λ _. Uses-coords true (rect_ring lo hi))
      Uses-geom (triangle v1 v2 v3) =
          Uses-headed "POLYGON" false (write_coords p format dims true (triangle_ring v1 v2 v3))
            (4 * extra_count dims) (λ e. absurd (cc))
            (λ _. Uses-coords true (triangle_ring v1 v2 v3))

      Uses-geoms :
          (first : Bool) (gs : Geometries)
          → Uses (all_written_coords gs * extra_count dims) (write_geoms p format dims first gs)
      Uses-geoms first no_geometries =
          Uses-eq (push "") 0 (0 * extra_count dims) (omega arith) (Uses-push "")
      Uses-geoms first (also g gs) =
          let k = extra_count dims in
          Uses-element first (write_geom p format dims g) (write_geoms p format dims false gs)
            (written_coords g * k) (all_written_coords gs * k)
            ((written_coords g + all_written_coords gs) * k) (omega arith) (Uses-geom g)
            (Uses-geoms false gs)

-- From one extra ordinate for each Z and M of each coordinate that is written, the WKT writer uses all
-- and nothing behind them. Of an empty point that stands alone and of a polygon without a shell no
-- coordinate is written; a member of a multi-point is written as a coordinate even where it is empty,
-- and so uses ordinates, for which the WKT reader gives none.
pub write_geom-Uses :
    (p : Platform) (format : ℕ → String) (dims : Dims) (g : Geometry) (es more : List ℕ)
    → length es ≡ written_coords g * extra_count dims
    → (write_geom p format dims g (es ++ more)).1 ≡ more
write_geom-Uses p format dims g es more h = Uses-geom p format dims g es more h
