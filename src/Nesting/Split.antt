-- ===== src/Nesting/Split.antt =====
-- How `resolve_nesting` sorts the holes once their depths are known.
use geo_repair.Prelude.{
  ℕ, zero, suc, ◌+◌, ◌<◌, ◌%◌, ◌≡◌, refl, ap, ◌∙◌, inl, inr, Bool, true, false, ◌&&◌, ◌||◌, List,
  [], ◌∷◌, Option, none, some, arith, length, get_or, filter, range_from, Bool-cases, ltb, ◌==◌,
  ==→eq,
}
use mathlib.Core.List.{Memᴰ}
use mathlib.Core.List.Memᴰ
use geo_repair.Nesting.{split_levels, is_child, island_holes}
use geo_repair.Nesting.Kids.{kids_from}

is_child_true :
    (x : Option ℕ) (p : ℕ) → elim x [ none ↦ false | some q ↦ q == p ] ≡ true → x ≡ some p
is_child_true none p e = absurd (cc)
is_child_true (some q) p e = ap some (==→eq q p e)

redundant : (a b c : Bool) → (a ≡ true → (b && c) ≡ true) → (a && b && c) ≡ a
redundant true b c h = h refl
redundant false b c h = refl

add_zero : (k : ℕ) → 0 + k ≡ k
add_zero k = omega arith

-- the test for a hole to subtract
abbrev pub is_subtracted : ℕ → Bool
is_subtracted d = d == 0 || d % 2 == 1

-- a position of `ds`, counted from `i`, where the depth passes the test or fails it
abbrev pub Sorted : Bool → ℕ → List ℕ → ℕ → Type 0
Sorted side i ds j =
    (k : ℕ) × (j ≡ i + k) × (k < length ds) × (is_subtracted (get_or ds k 0) ≡ side)

Sorted-cons :
    (side : Bool) (i d : ℕ) (ds : List ℕ) (j : ℕ)
    → Sorted side (suc i) ds j
    → Sorted side i (d ∷ ds) j
Sorted-cons side i d ds j (k, at, bound, e) = (suc k, omega (arith, at), omega (arith, bound), e)

split_subtracted :
    (i d : ℕ) (ds : List ℕ)
    → is_subtracted d ≡ true
    → split_levels i (d ∷ ds) ≡ (i ∷ (split_levels (suc i) ds).0, (split_levels (suc i) ds).1)
unfolding split_levels
split_subtracted i d ds e = rw e refl

split_island :
    (i d : ℕ) (ds : List ℕ)
    → is_subtracted d ≡ false
    → split_levels i (d ∷ ds) ≡ ((split_levels (suc i) ds).0, i ∷ (split_levels (suc i) ds).1)
unfolding split_levels
split_island i d ds e = rw e refl

split_nil : (i : ℕ) → split_levels i [] ≡ ([], [])
unfolding split_levels
split_nil i = refl

pub length-split_levels :
    (i : ℕ) (ds : List ℕ) → length (split_levels i ds).0 + length (split_levels i ds).1 ≡ length ds
length-split_levels i [] = rw (split_nil i) (omega arith)
length-split_levels i (d ∷ ds) = elim (Bool-cases (is_subtracted d)) [
  | inl e ↦ rw (split_subtracted i d ds e) (omega (arith, length-split_levels (suc i) ds))
  | inr e ↦ rw (split_island i d ds e) (omega (arith, length-split_levels (suc i) ds))
]

pub split_levels_sound :
    (i : ℕ) (ds : List ℕ) (j : ℕ)
    → (Memᴰ j (split_levels i ds).0 → Sorted true i ds j)
      × (Memᴰ j (split_levels i ds).1 → Sorted false i ds j)
split_levels_sound i [] j =
    rw (split_nil i) (λ m. absurd (Memᴰ.not-nil m), λ m. absurd (Memᴰ.not-nil m))
split_levels_sound i (d ∷ ds) j =
    let (subtracted, island) = split_levels_sound (suc i) ds j in
    elim (Bool-cases (is_subtracted d)) [
      | inl e ↦ rw (split_subtracted i d ds e) (
        λ m. elim (Memᴰ.cases_cons m) [
          | inl here ↦ (0, omega (arith, here), omega arith, e)
          | inr later ↦ Sorted-cons true i d ds j (subtracted later)
        ],
        λ m. Sorted-cons false i d ds j (island m),
      )
      | inr e ↦ rw (split_island i d ds e) (
        λ m. Sorted-cons true i d ds j (subtracted m),
        λ m. elim (Memᴰ.cases_cons m) [
          | inl here ↦ (0, omega (arith, here), omega arith, e)
          | inr later ↦ Sorted-cons false i d ds j (island later)
        ],
      )
    ]

pub split_levels_complete :
    (i : ℕ) (ds : List ℕ) (j k : ℕ)
    → j ≡ i + k
    → k < length ds
    → (is_subtracted (get_or ds k 0) ≡ true → Memᴰ j (split_levels i ds).0)
      × (is_subtracted (get_or ds k 0) ≡ false → Memᴰ j (split_levels i ds).1)
split_levels_complete i [] j k at bound = absurd (omega arith)
split_levels_complete i (d ∷ ds) j zero at bound = (
  λ e. rw (split_subtracted i d ds e) (Memᴰ.head (omega (arith, at))),
  λ e. rw (split_island i d ds e) (Memᴰ.head (omega (arith, at))),
)
split_levels_complete i (d ∷ ds) j (suc k) at bound =
    let (subtracted, island) =
      split_levels_complete (suc i) ds j k (omega (arith, at)) (omega arith) in
    elim (Bool-cases (is_subtracted d)) [
      | inl e ↦ rw (split_subtracted i d ds e) ((λ s. Memᴰ.tail (subtracted s)), island)
      | inr e ↦ rw (split_island i d ds e) (subtracted, (λ s. Memᴰ.tail (island s)))
    ]

-- the children, found by a test at each position
pub filter-kids_from :
    (test : ℕ → Bool) (i : ℕ) (ps : List (Option ℕ)) (p : ℕ)
    → ((k j : ℕ) → j ≡ i + k → test j ≡ is_child ps p k)
    → filter test (range_from i (length ps)) ≡ kids_from i ps p
filter-kids_from test i [] p h = refl
filter-kids_from test i (none ∷ ps) p h =
    rw (h 0 i (omega arith))
      (filter-kids_from test (suc i) ps p (λ k j at. h (suc k) j (omega (arith, at))))
filter-kids_from test i (some q ∷ ps) p h =
    let rest = filter-kids_from test (suc i) ps p (λ k j at. h (suc k) j (omega (arith, at))) in
    elim (Bool-cases (q == p)) [
      | inl mine ↦ rw (h 0 i (omega arith), mine) (ap (◌∷◌ i) rest)
      | inr other ↦ rw (h 0 i (omega arith), other) rest
    ]

module _ (ps : List (Option ℕ)) (depth : List ℕ) (ii : ℕ) where
  abbrev island_test : ℕ → Bool
  island_test j =
      is_child ps ii j && ltb (get_or depth ii 0) (get_or depth j 0) && get_or depth j 0 % 2 == 1

  deeper_test : (d : ℕ) → is_subtracted d ≡ false → (ltb d (suc d) && suc d % 2 == 1) ≡ true
  deeper_test d e = ground arith

  island_test-is_child :
      is_subtracted (get_or depth ii 0) ≡ false
      → ((j : ℕ) → get_or ps j none ≡ some ii → get_or depth j 0 ≡ suc (get_or depth ii 0))
      → (j : ℕ) → island_test j ≡ is_child ps ii j
  island_test-is_child island deeper j = redundant (is_child ps ii j) _ _ (λ child.
      rw (deeper j (is_child_true (get_or ps j none) ii child))
        (deeper_test (get_or depth ii 0) island))

  -- for an island whose children are one deeper, the other two tests hold at each child
  pub island_holes-kids_from :
      is_subtracted (get_or depth ii 0) ≡ false
      → ((j : ℕ) → get_or ps j none ≡ some ii → get_or depth j 0 ≡ suc (get_or depth ii 0))
      → island_holes ps depth ii ≡ kids_from 0 ps ii
  unfolding island_holes
  island_holes-kids_from island deeper =
      filter-kids_from island_test 0 ps ii
        (λ k j at. island_test-is_child island deeper j ∙ ap (is_child ps ii) (at ∙ add_zero k))
