-- ===== src/Wkt/Uses.antt =====
-- How many coordinates io/wkt/write.rs writes of a geometry, and how a writer uses extra ordinates.
use geo_repair.Prelude.{
  ℕ, ◌+◌, ◌*◌, ◌≡◌, refl, sym, ap, ◌∙◌, Bool, true, false, not, ◌&&◌, List, [], ◌∷◌, ◌++◌,
  append_assoc, arith, length, take, drop, take-append-drop, length-take, length-drop,
  if◌then◌else◌, sum_by, String,
}
use mathlib.Core.Path.{subst}
use geo_repair.Geo.{
  Polygon, Geometry, Geometries, no_geometries, also, point, line, line_string, polygon,
  multi_point, multi_line_string, multi_polygon, geometry_collection, rect, triangle, is_nan,
}
use geo_repair.Wkb.Types.{Dims}
use geo_repair.Wkb.Write.{is_empty}
use geo_repair.Wkt.Write.{Pen, push, ◌>>>◌, write_header, separator}

-- The coordinates that are written: none of an empty point that stands alone, but those of every member
-- of a multi-point, an empty one too, and none of a polygon without a shell, whatever its holes hold.
abbrev pub polygon_coords : Polygon → ℕ
polygon_coords g = if is_empty g.exterior then 0 else length g.exterior + sum_by length g.interiors

unfoldable mutual
  pub written_coords : Geometry → ℕ
  written_coords (point c) = if is_nan c.x && is_nan c.y then 0 else 1
  written_coords (multi_point ps) = length ps
  written_coords (line_string ls) = length ls
  written_coords (multi_line_string lss) = sum_by length lss
  written_coords (polygon g) = polygon_coords g
  written_coords (multi_polygon gs) = sum_by polygon_coords gs
  written_coords (line _ _) = 2
  written_coords (rect _ _) = 5
  written_coords (triangle _ _ _) = 4
  written_coords (geometry_collection gs) = all_written_coords gs

  pub all_written_coords : Geometries → ℕ
  all_written_coords no_geometries = 0
  all_written_coords (also g gs) = written_coords g + all_written_coords gs

-- With `n` ordinates in front of what is unused, the writer uses just these.
abbrev pub Uses : ℕ → Pen → Type 0
Uses n w = (es more : List ℕ) → length es ≡ n → (w (es ++ more)).1 ≡ more

pub Uses-push : (s : String) → Uses 0 (push s)
Uses-push s [] more e = refl
Uses-push s (x ∷ es) more e = absurd (omega arith)

pub Uses-seq : (v w : Pen) (n m : ℕ) → Uses n v → Uses m w → Uses (n + m) (v >>> w)
Uses-seq v w n m hv hw es more e =
    let first = take n es in
    let second = drop n es in
    let split : es ++ more ≡ first ++ (second ++ more) =
      ap (λ l. l ++ more) (sym (take-append-drop n es)) ∙ append_assoc first second more in
    let used : (v (es ++ more)).1 ≡ second ++ more =
      ap (λ l. (v l).1) split ∙ hv first (second ++ more) (length-take n es (omega arith)) in
    ap (λ l. (w l).1) used ∙ hw second more (length-drop n es ∙ (omega arith))

pub Uses-eq : (w : Pen) (n m : ℕ) → n ≡ m → Uses n w → Uses m w
Uses-eq w n m e h = subst (λ k. Uses k w) e h

pub Uses-header : (name : String) (dims : Dims) → Uses 0 (write_header name dims)
unfolding write_header
Uses-header name dims [] more e = ground arith
Uses-header name dims (x ∷ es) more e = absurd (omega arith)

pub Uses-separator : (first : Bool) → Uses 0 (separator first)
Uses-separator true = Uses-push ""
Uses-separator false = Uses-push ", "

-- nothing comes where a list or a test says so
pub length_nil {ℓ} : {A : Type ℓ} (xs : List A) (k : ℕ) → is_empty xs ≡ true → length xs * k ≡ 0
length_nil [] k h = omega arith
length_nil (x ∷ xs) k h = absurd (cc)

pub sum_by_nil {ℓ} :
    {A : Type ℓ} (f : A → ℕ) (xs : List A) (k : ℕ) → is_empty xs ≡ true → sum_by f xs * k ≡ 0
sum_by_nil f [] k h = omega arith
sum_by_nil f (x ∷ xs) k h = absurd (cc)

pub none_chosen : (b : Bool) (k : ℕ) → b ≡ true → (if b then 0 else 1) * k ≡ 0
none_chosen true k h = omega arith
none_chosen false k h = absurd (cc)

pub one_chosen : (b : Bool) (k : ℕ) → b ≡ false → k ≡ (if b then 0 else 1) * k
one_chosen true k h = absurd (cc)
one_chosen false k h = omega arith

pub not-true : (b : Bool) → not b ≡ true → b ≡ false
not-true true h = absurd (cc)
not-true false h = refl
