-- ===== src/Orientation/Least.antt =====
-- Which vertex `min_x_vertex` of util.rs finds.
use geo_repair.Prelude.{
  ℕ, zero, suc, ◌+◌, ◌<◌, ◌≤◌, ◌≡◌, refl, sym, ◌∙◌, ◌⊎◌, inl, inr, Bool, true, false, ◌&&◌, ◌||◌,
  List, [], ◌∷◌, arith, All, length, drop_last, both_true, Bool-cases, ltb-false,
}
use mathlib.Core.Path.{subst}
use geo_repair.Geo.{Coord}
use geo_repair.Floats.{Floats, IsOrder, Respects}
use geo_repair.Orientation.{vertex, least_from, least_vertex, min_x_vertex}

or_cases : (a b : Bool) → (a || b) ≡ true → (a ≡ true) ⊎ (b ≡ true)
or_cases true b e = inl refl
or_cases false b e = inr e

or_false : (a b : Bool) → (a || b) ≡ false → (a ≡ false) × (b ≡ false)
or_false true b e = absurd (cc)
or_false false b e = (refl, e)

and_false : (a b : Bool) → (a && b) ≡ false → a ≡ true → b ≡ false
and_false true b e h = e
and_false false b e h = absurd (cc)

or_right : (a b : Bool) → b ≡ true → (a || b) ≡ true
or_right true b e = refl
or_right false b e = e

or_left : (a b : Bool) → a ≡ true → (a || b) ≡ true
or_left true b e = refl
or_left false b e = absurd (cc)

and_right : (a : Bool) → (a && false) ≡ false
and_right true = refl
and_right false = refl

both : (a b : Bool) → a ≡ true → b ≡ true → (a && b) ≡ true
both true b h k = k
both false b h k = h

vertex-drop_last :
    (cs : List Coord) (i : ℕ) → i < length (drop_last cs) → vertex (drop_last cs) i ≡ vertex cs i
vertex-drop_last [] i h = refl
vertex-drop_last (c ∷ []) i h = absurd (omega arith)
vertex-drop_last (c ∷ d ∷ cs) zero h = refl
vertex-drop_last (c ∷ d ∷ cs) (suc i) h = vertex-drop_last (d ∷ cs) i (omega arith)

length-drop_last : (cs : List Coord) → 1 ≤ length cs → length (drop_last cs) + 1 ≡ length cs
length-drop_last [] h = absurd (omega arith)
length-drop_last (c ∷ []) h = omega arith
length-drop_last (c ∷ d ∷ cs) h = omega (arith, length-drop_last (d ∷ cs) (omega arith))

min_x_vertex_long :
    (f : Floats) (ring : List Coord) → 4 ≤ length ring → min_x_vertex f ring ≡ least_vertex f ring
unfolding min_x_vertex
min_x_vertex_long f ring h = rw (ltb-false (length ring) 4 h) refl

module _ (f : Floats) where
  -- smaller in x, or equal in x and smaller in y
  abbrev less : Coord → Coord → Bool
  less c m = f.lt c.x m.x || (f.eq c.x m.x && f.lt c.y m.y)

  -- no coordinate of the list has a smaller x, nor an equal one and a smaller y
  abbrev pub IsLeast : Coord → List Coord → Type 0
  IsLeast m cs = All (λ c. (f.lt c.x m.x ≡ false) × (f.eq c.x m.x ≡ true → f.lt c.y m.y ≡ false)) cs

  not_less :
      (c m : Coord)
      → less c m ≡ false
      → (f.lt c.x m.x ≡ false) × (f.eq c.x m.x ≡ true → f.lt c.y m.y ≡ false)
  not_less c m e =
      let (smaller, level) = or_false (f.lt c.x m.x) (f.eq c.x m.x && f.lt c.y m.y) e in
      (smaller, and_false (f.eq c.x m.x) (f.lt c.y m.y) level)

  module _ (order : IsOrder f.lt) (respects : Respects f.eq f.lt) where
    less_irrefl : (c : Coord) → less c c ≡ false
    less_irrefl c = rw (order.irreflexive c.x, order.irreflexive c.y) (and_right (f.eq c.x c.x))

    less_trans : (a b c : Coord) → less a b ≡ true → less b c ≡ true → less a c ≡ true
    less_trans a b c h k = elim (or_cases (f.lt a.x b.x) (f.eq a.x b.x && f.lt a.y b.y) h) [
      | inl p ↦ elim (or_cases (f.lt b.x c.x) (f.eq b.x c.x && f.lt b.y c.y) k) [
        | inl q ↦ or_left (f.lt a.x c.x) _ (order.transitive a.x b.x c.x p q)
        | inr q ↦
            or_left (f.lt a.x c.x) _
              (respects.behind a.x b.x c.x p ((both_true (f.eq b.x c.x) (f.lt b.y c.y) q).0))
      ]
      | inr p ↦
          let (level, lower) = both_true (f.eq a.x b.x) (f.lt a.y b.y) p in
          elim (or_cases (f.lt b.x c.x) (f.eq b.x c.x && f.lt b.y c.y) k) [
            | inl q ↦ or_left (f.lt a.x c.x) _ (respects.before a.x b.x c.x level q)
            | inr q ↦
                let (level', lower') = both_true (f.eq b.x c.x) (f.lt b.y c.y) q in
                or_right (f.lt a.x c.x) _ (
                  both (f.eq a.x c.x) (f.lt a.y c.y) (respects.equal a.x b.x c.x level level')
                    (order.transitive a.y b.y c.y lower lower'))
          ]
    ]

    less_below : (a b c : Coord) → less a b ≡ true → less c b ≡ false → less c a ≡ false
    less_below a b c h n = elim (Bool-cases (less c a)) [
      | inl back ↦ let down = less_trans c a b back h in absurd (cc)
      | inr e ↦ e
    ]

    less_asymm : (a b : Coord) → less a b ≡ true → less b a ≡ false
    less_asymm a b h = less_below a b b h (less_irrefl b)

    NotLess : Coord → List Coord → Type 0
    NotLess m cs = All (λ c. less c m ≡ false) cs

    -- what the loop ends with: what it had, or the least of the coordinates
    Outcome : List Coord → ℕ → ℕ → Coord → ℕ → Type 0
    Outcome cs i idx m result =
        ((result ≡ idx) × NotLess m cs)
        ⊎ ((k : ℕ) × (result ≡ i + k)
            × (k < length cs)
            × (less (vertex cs k) m ≡ true)
            × NotLess (vertex cs k) cs)

    least_from_found :
        (c : Coord) (cs : List Coord) (i idx : ℕ) (m : Coord)
        → less c m ≡ true
        → least_from f (c ∷ cs) i idx m.x m.y ≡ least_from f cs (suc i) i c.x c.y
    unfolding least_from
    least_from_found c cs i idx m e = rw e refl

    least_from_passed :
        (c : Coord) (cs : List Coord) (i idx : ℕ) (m : Coord)
        → less c m ≡ false
        → least_from f (c ∷ cs) i idx m.x m.y ≡ least_from f cs (suc i) idx m.x m.y
    unfolding least_from
    least_from_passed c cs i idx m e = rw e refl

    least_from-Outcome :
        (cs : List Coord) (i idx : ℕ) (m : Coord)
        → Outcome cs i idx m (least_from f cs i idx m.x m.y)
    unfolding Outcome NotLess least_from
    least_from-Outcome [] i idx m = inl (refl, tt)
    least_from-Outcome (c ∷ cs) i idx m = elim (Bool-cases (less c m)) [
      | inl found ↦
          let step = least_from_found c cs i idx m found in
          elim (least_from-Outcome cs (suc i) i c) [
            | inl (same, least) ↦
                inr (0, omega (arith, step ∙ same), omega arith, found, (less_irrefl c, least))
            | inr (k, result, bound, below, least) ↦ inr (
              suc k,
              omega (arith, step ∙ result),
              omega (arith, bound),
              less_trans (vertex cs k) c m below found,
              (less_asymm (vertex cs k) c below, least),
            )
          ]
      | inr passed ↦
          let step = least_from_passed c cs i idx m passed in
          elim (least_from-Outcome cs (suc i) idx m) [
            | inl (same, least) ↦ inl (step ∙ same, (passed, least))
            | inr (k, result, bound, below, least) ↦ inr (
              suc k,
              omega (arith, step ∙ result),
              omega (arith, bound),
              below,
              (less_below (vertex cs k) m c below passed, least),
            )
          ]
    ]

    All-NotLess : (m : Coord) (cs : List Coord) → NotLess m cs → IsLeast m cs
    unfolding NotLess
    All-NotLess m [] h = tt
    All-NotLess m (c ∷ cs) (h, hs) = (not_less c m h, All-NotLess m cs hs)

    IsFound : Coord → List Coord → ℕ → Type 0
    IsFound c cs r = (r < suc (length cs)) × NotLess (vertex (c ∷ cs) r) (c ∷ cs)

    -- the first vertex or the least of the others
    Outcome-IsFound : (c : Coord) (cs : List Coord) (r : ℕ) → Outcome cs 1 0 c r → IsFound c cs r
    unfolding Outcome NotLess IsFound
    Outcome-IsFound c cs r h = elim h [
      | inl (same, least) ↦ subst (IsFound c cs) (sym same) (omega arith, (less_irrefl c, least))
      | inr (k, result, bound, below, least) ↦
          subst (IsFound c cs) (let at : suc k ≡ r = omega (arith, result) in at)
            (omega (arith, bound), (less_asymm (vertex cs k) c below, least))
    ]

    -- Where `<` is an order that `==` respects: in a ring of four coordinates or more, the index that is
    -- found is one of the ring without its last coordinate, and none of these has a smaller x than the
    -- coordinate at it, nor an equal x and a smaller y.
    pub min_x_vertex_lem :
        (ring : List Coord)
        → 4 ≤ length ring
        → (min_x_vertex f ring < length (drop_last ring))
          × (length (drop_last ring) + 1 ≡ length ring)
          × IsLeast (vertex ring (min_x_vertex f ring)) (drop_last ring)
    unfolding IsFound NotLess
    min_x_vertex_lem [] h = absurd (omega arith)
    min_x_vertex_lem (c ∷ []) h = absurd (omega arith)
    min_x_vertex_lem (c ∷ d ∷ cs) h =
        let (bound, least) =
          Outcome-IsFound c (drop_last (d ∷ cs)) (least_vertex f (c ∷ d ∷ cs))
            (least_from-Outcome (drop_last (d ∷ cs)) 1 0 c) in
        let same = vertex-drop_last (c ∷ d ∷ cs) (least_vertex f (c ∷ d ∷ cs)) bound in
        subst
          (λ r.
            (r < length (drop_last (c ∷ d ∷ cs)))
            × (length (drop_last (c ∷ d ∷ cs)) + 1 ≡ length (c ∷ d ∷ cs))
            × IsLeast (vertex (c ∷ d ∷ cs) r) (drop_last (c ∷ d ∷ cs)))
          (sym (min_x_vertex_long f (c ∷ d ∷ cs) h))
          (
            bound,
            length-drop_last (c ∷ d ∷ cs) (omega arith),
            subst (λ m. IsLeast m (c ∷ drop_last (d ∷ cs))) same
                (All-NotLess _ (c ∷ drop_last (d ∷ cs)) least),
          )
