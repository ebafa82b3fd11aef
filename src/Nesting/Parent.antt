-- ===== src/Nesting/Parent.antt =====
-- Which hole `find_parent` of structure/nesting.rs takes as the parent.
use geo_repair.Prelude.{
  both_true, ℕ, suc, ◌+◌, ◌<◌, ◌≡◌, refl, sym, ap, ◌∙◌, ◌⊎◌, inl, inr, Bool, true, false, not, ◌&&◌,
  List, [], ◌∷◌, Option, none, some, arith, All, length, get_or, Bool-cases, ◌==◌,
}
use mathlib.Core.List.{Memᴰ}
use mathlib.Core.List.Memᴰ
use mathlib.Core.Path.{subst}
use geo_repair.Geo.{Coord, LineString}
use geo_repair.Floats.{Floats, IsOrder}
use geo_repair.Rings.{point_in_ring_exclusive}
use geo_repair.Nesting.{HoleEnv, hole_env, hole_envs, smallest_around, find_parent, float_max}

module _ (f : Floats) (locate : List HoleEnv → Coord → List HoleEnv) where
  hole_envs-idx :
      (i : ℕ) (holes : List LineString) (e : HoleEnv)
      → Memᴰ e (hole_envs f locate i holes)
      → e.idx < i + length holes
  unfolding hole_envs hole_env
  hole_envs-idx i [] e m = absurd (Memᴰ.not-nil m)
  hole_envs-idx i ([] ∷ hs) e m = omega (arith, hole_envs-idx (suc i) hs e m)
  hole_envs-idx i ((c ∷ cs) ∷ hs) e m = elim (Memᴰ.cases_cons m) [
    | inl here ↦ omega (arith, ap (λ (x : HoleEnv). x.idx) here)
    | inr later ↦ omega (arith, hole_envs-idx (suc i) hs e later)
  ]

  -- an entry of the table is that of the hole with its index
  IsEntry : ℕ → List LineString → HoleEnv → Type 0
  IsEntry i holes e =
      (k : ℕ) × (e.idx ≡ i + k) × (hole_env f locate e.idx (get_or holes k []) ≡ some e)

  hole_envs-IsEntry :
      (i : ℕ) (holes : List LineString) (e : HoleEnv)
      → Memᴰ e (hole_envs f locate i holes)
      → IsEntry i holes e
  unfolding hole_envs hole_env IsEntry
  hole_envs-IsEntry i [] e m = absurd (Memᴰ.not-nil m)
  hole_envs-IsEntry i ([] ∷ hs) e m =
      let (k, at, own) = hole_envs-IsEntry (suc i) hs e m in (suc k, omega (arith, at), own)
  hole_envs-IsEntry i ((c ∷ cs) ∷ hs) e m = elim (Memᴰ.cases_cons m) [
    | inl here ↦ (
      0,
      omega (arith, ap (λ (x : HoleEnv). x.idx) here),
      subst (λ (x : HoleEnv). hole_env f locate x.idx (c ∷ cs) ≡ some x) (sym here) refl,
    )
    | inr later ↦
        let (k, at, own) = hole_envs-IsEntry (suc i) hs e later in (suc k, omega (arith, at), own)
  ]

  hole_envs-own :
      (holes : List LineString) (e : HoleEnv)
      → Memᴰ e (hole_envs f locate 0 holes)
      → hole_env f locate e.idx (get_or holes e.idx []) ≡ some e
  unfolding IsEntry
  hole_envs-own holes e m =
      let (k, at, own) = hole_envs-IsEntry 0 holes e m in
      subst (λ n. hole_env f locate e.idx (get_or holes n []) ≡ some e) (omega (arith, at)) own

  module _ (holes : List LineString) (j : ℕ) (pt : Coord) where
    -- another hole that has the point inside
    abbrev pub encloses : HoleEnv → Bool
    encloses c = not (c.idx == j) && point_in_ring_exclusive f pt (get_or holes c.idx [])

    -- an entry whose area no enclosing one is below
    abbrev pub Smallest : List HoleEnv → HoleEnv → Type 0
    Smallest cs e = All (λ c. encloses c ≡ true → f.lt c.area e.area ≡ false) cs

    abbrev NoneBelow : ℕ → List HoleEnv → Type 0
    NoneBelow area cs = All (λ c. encloses c ≡ true → f.lt c.area area ≡ false) cs

    -- what the visitor ends with: what it had, or the smallest of the entries
    abbrev Outcome : List HoleEnv → Option ℕ → ℕ → Option ℕ → Type 0
    Outcome cs best area result =
        ((result ≡ best) × NoneBelow area cs)
        ⊎ ((e : HoleEnv) × Memᴰ e cs
            × (encloses e ≡ true)
            × (f.lt e.area area ≡ true)
            × (result ≡ some e.idx)
            × NoneBelow e.area cs)

    smallest_around_found :
        (c : HoleEnv) (cs : List HoleEnv) (best : Option ℕ) (area : ℕ)
        → (encloses c && f.lt c.area area) ≡ true
        → smallest_around f locate holes j pt (c ∷ cs) best area
          ≡ smallest_around f locate holes j pt cs (some c.idx) c.area
    unfolding smallest_around
    smallest_around_found c cs best area e = rw e refl

    smallest_around_passed :
        (c : HoleEnv) (cs : List HoleEnv) (best : Option ℕ) (area : ℕ)
        → (encloses c && f.lt c.area area) ≡ false
        → smallest_around f locate holes j pt (c ∷ cs) best area
          ≡ smallest_around f locate holes j pt cs best area
    unfolding smallest_around
    smallest_around_passed c cs best area e = rw e refl

    second_false : (a b : Bool) → (a && b) ≡ false → a ≡ true → b ≡ false
    second_false true b e h = e
    second_false false b e h = absurd (cc)

    module _ (order : IsOrder f.lt) where
      lt_asymm : (a b : ℕ) → f.lt a b ≡ true → f.lt b a ≡ false
      lt_asymm a b h = elim (Bool-cases (f.lt b a)) [
        | inl back ↦
            let both = order.transitive a b a h back in
            let never = order.irreflexive a in absurd (cc)
        | inr e ↦ e
      ]

      lt_below : (a b c : ℕ) → f.lt a b ≡ true → f.lt c b ≡ false → f.lt c a ≡ false
      lt_below a b c h n = elim (Bool-cases (f.lt c a)) [
        | inl back ↦ let both = order.transitive c a b back h in absurd (cc)
        | inr e ↦ e
      ]

      smallest_around-Outcome :
          (cs : List HoleEnv) (best : Option ℕ) (area : ℕ)
          → Outcome cs best area (smallest_around f locate holes j pt cs best area)
      unfolding smallest_around
      smallest_around-Outcome [] best area = inl (refl, tt)
      smallest_around-Outcome (c ∷ cs) best area =
          elim (Bool-cases (encloses c && f.lt c.area area)) [
            | inl found ↦
                let (inside, less) = both_true (encloses c) (f.lt c.area area) found in
                let step = smallest_around_found c cs best area found in
                elim (smallest_around-Outcome cs (some c.idx) c.area) [
                  | inl (same, least) ↦ inr (
                    c,
                    Memᴰ.head refl,
                    inside,
                    less,
                    step ∙ same,
                    ((λ _. order.irreflexive (c.area)), least),
                  )
                  | inr (e, m, within, below, result, least) ↦ inr (
                    e,
                    Memᴰ.tail m,
                    within,
                    order.transitive e.area c.area area below less,
                    step ∙ result,
                    ((λ _. lt_asymm e.area c.area below), least),
                  )
                ]
            | inr passed ↦
                let step = smallest_around_passed c cs best area passed in
                let not_less = second_false (encloses c) (f.lt c.area area) passed in
                elim (smallest_around-Outcome cs best area) [
                  | inl (same, least) ↦ inl (step ∙ same, (not_less, least))
                  | inr (e, m, within, below, result, least) ↦ inr (
                    e,
                    Memᴰ.tail m,
                    within,
                    below,
                    step ∙ result,
                    ((λ inside. lt_below e.area area c.area below (not_less inside)), least),
                  )
                ]
          ]

  find_parent_first :
      (holes : List LineString) (j : ℕ) (pt : Coord) (cs : List Coord)
      → get_or holes j [] ≡ pt ∷ cs
      → find_parent f locate holes j
        ≡ smallest_around f locate holes j pt
            (locate (hole_envs f locate 0 holes) pt)
            none
            float_max
  unfolding find_parent
  find_parent_first holes j pt cs e = rw (e, find_parent) refl

  -- Where the tree gives only entries that it stores and `<` is an order, a hole that starts at `pt`
  -- has no parent if no other located hole around `pt` has an area below `f64::MAX`. Otherwise its
  -- parent is the hole of a located entry `e`: not itself, in range, around `pt`, and with an area
  -- below `f64::MAX` and not above that of any other located hole around `pt`. The entry is the one
  -- that `hole_env` computes from its hole, so that its area is the one of that hole.
  pub find_parent_lem :
      (holes : List LineString) (j : ℕ) (pt : Coord) (cs : List Coord)
      → IsOrder f.lt
      → ((es : List HoleEnv) (c : HoleEnv) → Memᴰ c (locate es pt) → Memᴰ c es)
      → get_or holes j [] ≡ pt ∷ cs
      → ((find_parent f locate holes j ≡ none)
          × All
              (λ c. encloses holes j pt c ≡ true → f.lt c.area float_max ≡ false)
              (locate (hole_envs f locate 0 holes) pt))
        ⊎ ((e : HoleEnv) × (find_parent f locate holes j ≡ some e.idx)
            × Memᴰ e (locate (hole_envs f locate 0 holes) pt)
            × (hole_env f locate e.idx (get_or holes e.idx []) ≡ some e)
            × (e.idx < length holes)
            × (encloses holes j pt e ≡ true)
            × (f.lt e.area float_max ≡ true)
            × Smallest holes j pt (locate (hole_envs f locate 0 holes) pt) e)
  find_parent_lem holes j pt cs order stored starts =
      let located = locate (hole_envs f locate 0 holes) pt in
      let first = find_parent_first holes j pt cs starts in
      elim (smallest_around-Outcome holes j pt order located none float_max) [
        | inl (same, least) ↦ inl (first ∙ same, least)
        | inr (e, m, inside, below, result, least) ↦
            let entry = stored (hole_envs f locate 0 holes) e m in
            inr (
              e,
              first ∙ result,
              m,
              hole_envs-own holes e entry,
              omega (arith, hole_envs-idx 0 holes e entry),
              inside,
              below,
              least,
            )
      ]
