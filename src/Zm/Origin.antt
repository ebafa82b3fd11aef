-- ===== src/Zm/Origin.antt =====
-- Which values `preserve_zm` gives, and how many there are.
use geo_repair.Prelude.{
  ℕ, ◌≡◌, ◌≢◌, ◌↔◌, Option, none, some, refl, sym, ◌∙◌, ◌⊎◌, inl, inr, Bool, true, false, ◌&&◌,
  List, [], ◌∷◌, map, length, zip, filter, replicate, All, Bool-cases, ◌==◌, arith,
}
use Prim.Native.Nat.{Ordering}
use mathlib.Core.List.{Memᴰ}
use mathlib.Core.Path.{subst}
use geo_repair.Geo.{Coord, Geometry}
use geo_repair.Floats.{Floats, IsOrder}
use geo_repair.Zm.{count_coords}
use geo_repair.Zm.Preserve.{
  ZmValue, no_zm, value_or_none, is_greater, min_from, min_by, is_near, is_farther, match_one,
  match_nearest, preserve_zm, topology_unchanged,
}

module _ {ℓ} {A : Type ℓ} (greater : A → A → Bool) where
  min_from-All {κ} :
      (P : A → Type κ) (x : A) (ys : List A) → P x → All P ys → P (min_from greater x ys)
  unfolding min_from
  min_from-All P x [] h hs = h
  min_from-All P x (y ∷ ys) h (k, hs) = elim (Bool-cases (greater x y)) [
    | inl eq ↦ rw eq (min_from-All P y ys k hs)
    | inr eq ↦ rw eq (min_from-All P x ys h hs)
  ]

  min_from_taken :
      (x y : A) (ys : List A)
      → greater x y ≡ true
      → min_from greater x (y ∷ ys) ≡ min_from greater y ys
  unfolding min_from
  min_from_taken x y ys e = rw e refl

  min_from_left :
      (x y : A) (ys : List A)
      → greater x y ≡ false
      → min_from greater x (y ∷ ys) ≡ min_from greater x ys
  unfolding min_from
  min_from_left x y ys e = rw e refl

  module _ (irreflexive : (a : A) → greater a a ≡ false)
      (transitive : (a b c : A)
        → greater a b ≡ true
        → greater b c ≡ true
        → greater a c ≡ true) where
    not_below : (a b c : A) → greater a b ≡ true → greater a c ≡ false → greater b c ≡ false
    not_below a b c h n = elim (Bool-cases (greater b c)) [
      | inl more ↦ let both = transitive a b c h more in absurd (cc)
      | inr e ↦ e
    ]

    -- what is not above an element is not above the one found behind it
    min_from-below :
        (x : A) (ys : List A) (b : A)
        → greater x b ≡ false
        → greater (min_from greater x ys) b ≡ false
    unfolding min_from
    min_from-below x [] b h = h
    min_from-below x (y ∷ ys) b h = elim (Bool-cases (greater x y)) [
      | inl eq ↦ rw eq (min_from-below y ys b (not_below x y b eq h))
      | inr eq ↦ rw eq (min_from-below x ys b h)
    ]

    min_from-least :
        (x : A) (ys : List A) → All (λ b. greater (min_from greater x ys) b ≡ false) (x ∷ ys)
    unfolding min_from
    min_from-least x [] = (irreflexive x, tt)
    min_from-least x (y ∷ ys) = elim (Bool-cases (greater x y)) [
      | inl eq ↦
          let (here, rest) = min_from-least y ys in
          let first = min_from-below y ys x (not_below x y x eq (irreflexive x)) in
          subst (λ m. All (λ b. greater m b ≡ false) (x ∷ y ∷ ys)) (sym (min_from_taken x y ys eq))
            (first, (here, rest))
      | inr eq ↦
          let (here, rest) = min_from-least x ys in
          subst (λ m. All (λ b. greater m b ≡ false) (x ∷ y ∷ ys)) (sym (min_from_left x y ys eq))
            (here, (min_from-below x ys y eq, rest))
    ]

filter-All {ℓ κ} :
    {A : Type ℓ} (P : A → Type κ) (g : A → Bool) (xs : List A)
    → All P (filter g xs)
    → All (λ b. g b ≡ true → P b) xs
filter-All P g [] = λ h. tt
filter-All P g (x ∷ xs) = elim (Bool-cases (g x)) [
  | inl keep ↦ rw keep (λ h. (λ _. h.0, filter-All P g xs h.1))
  | inr drop ↦ rw drop (λ h. (λ e. absurd (cc), filter-All P g xs h))
]

-- the elements that the filter lets through are elements of the list
filter-Kept {ℓ} :
    {A : Type ℓ} (g : A → Bool) (whole xs : List A)
    → ((a : A) → Memᴰ a xs → Memᴰ a whole)
    → All (λ a. Memᴰ a whole × (g a ≡ true)) (filter g xs)
filter-Kept g whole [] inside = tt
filter-Kept g whole (x ∷ xs) inside =
    let rest = filter-Kept g whole xs (λ a m. inside a (Memᴰ.tail m)) in
    elim (Bool-cases (g x)) [
      | inl keep ↦ rw keep ((inside x (Memᴰ.head refl), keep), rest)
      | inr drop ↦ rw drop rest
    ]

All-map {ℓ} :
    {A : Type ℓ} {P Q : A → Type 0} (xs : List A) → ((a : A) → P a → Q a) → All P xs → All Q xs
All-map [] f h = tt
All-map (x ∷ xs) f (h, hs) = (f x h, All-map xs f hs)

-- two lists of the same length, related element by element
abbrev pub Matched {ℓ κ} : {A : Type ℓ} {B : Type κ} → (A → B → Type 0) → List A → List B → Type 0
Matched R [] [] = Unit
Matched R [] (y ∷ ys) = ⊥
Matched R (x ∷ xs) [] = ⊥
Matched R (x ∷ xs) (y ∷ ys) = R x y × Matched R xs ys

map-Matched {ℓ κ} :
    {A : Type ℓ} {B : Type κ} (R : A → B → Type 0) (g : A → B) (xs : List A)
    → ((x : A) → R x (g x))
    → Matched R xs (map g xs)
map-Matched R g [] h = tt
map-Matched R g (x ∷ xs) h = (h x, map-Matched R g xs h)

eq_true : (a b : ℕ) → a ≡ b → (a == b) ≡ true
eq_true a b e = ground arith

eq_false : (a b : ℕ) → a ≢ b → (a == b) ≡ false
eq_false a b e = ground arith

not_both : (a b : ℕ) (same : Bool) → (a ≢ b) ⊎ (same ≡ false) → ((a == b) && same) ≡ false
not_both a b same (inl other) = rw (eq_false a b other) refl
not_both a b same (inr e) = elim (Bool-cases (a == b)) [
  | inl eq ↦ rw (eq, e) refl
  | inr eq ↦ rw eq refl
]

-- `partial_cmp` gives `Greater` just where `>` holds
abbrev pub Compares : Floats → Type 0
Compares f = (a b : ℕ) → (f.partial_cmp a b ≡ some Ordering.gt) ↔ (f.lt b a ≡ true)

is_greater-gt :
    (o : Option Ordering) (below : Bool)
    → (o ≡ some Ordering.gt) ↔ (below ≡ true)
    → is_greater o ≡ below
is_greater-gt none true h = let impossible = h.1 refl in absurd (cc)
is_greater-gt none false h = refl
is_greater-gt (some Ordering.lt) true h = let impossible = h.1 refl in absurd (cc)
is_greater-gt (some Ordering.lt) false h = refl
is_greater-gt (some Ordering.eq) true h = let impossible = h.1 refl in absurd (cc)
is_greater-gt (some Ordering.eq) false h = refl
is_greater-gt (some Ordering.gt) true h = refl
is_greater-gt (some Ordering.gt) false h = let impossible = h.0 refl in absurd (cc)

module _ (f : Floats) where
  abbrev pub distance : Coord → Coord → ℕ
  distance c a = f.hypot (f.sub a.x c.x) (f.sub a.y c.y)

  -- the squared distance is below the square of 1e-10
  abbrev pub IsWithin : Coord → Coord → Type 0
  IsWithin c a =
      f.lt (f.add (f.mul (f.sub a.x c.x) (f.sub a.x c.x)) (f.mul (f.sub a.y c.y) (f.sub a.y c.y)))
        (f.mul 0x3ddb_7cdf_d9d7_bdbb 0x3ddb_7cdf_d9d7_bdbb)
      ≡ true

  -- the value of a candidate within the tolerance to which no other such candidate is nearer, or the
  -- empty value where there is no candidate within it
  abbrev pub Nearest : List (Coord × ZmValue) → Coord → ZmValue → Type 0
  Nearest candidates c v =
      ((a : Coord × ZmValue) × Memᴰ a candidates
        × IsWithin c a.0
        × (v ≡ a.1)
        × All (λ b. IsWithin c b.0 → f.lt (distance c b.0) (distance c a.0) ≡ false) candidates)
      ⊎ (All (λ b. ¬ IsWithin c b.0) candidates × (v ≡ no_zm))

  module _ (order : IsOrder f.lt) (compares : Compares f) where
    is_farther-lt : (c a b : Coord) → is_farther f c a b ≡ f.lt (distance c b) (distance c a)
    unfolding is_farther
    is_farther-lt c a b =
        is_greater-gt _ (f.lt (distance c b) (distance c a))
          (compares (distance c a) (distance c b))

    farther_trans :
        (c a b d : Coord)
        → is_farther f c a b ≡ true
        → is_farther f c b d ≡ true
        → is_farther f c a d ≡ true
    farther_trans c a b d h k =
        is_farther-lt c a d
        ∙ order.transitive _ (distance c b) _ (sym (is_farther-lt c b d) ∙ k)
            (sym (is_farther-lt c a b) ∙ h)

    min_by-Nearest :
        (candidates : List (Coord × ZmValue)) (c : Coord) (kept : List (Coord × ZmValue))
        → kept ≡ filter (λ b. is_near f c b.0) candidates
        → Nearest candidates c (value_or_none (min_by (λ a b. is_farther f c a.0 b.0) kept))
    unfolding min_by is_near
    min_by-Nearest candidates c [] e =
        inr
          (filter-All (λ _. ⊥) (λ b. is_near f c b.0) candidates (subst (All (λ _. ⊥)) e tt), refl)
    min_by-Nearest candidates c (x ∷ xs) e =
        let near = λ (b : Coord × ZmValue). is_near f c b.0 in
        let farther = λ (a b : Coord × ZmValue). is_farther f c a.0 b.0 in
        let a = min_from farther x xs in
        let P = λ (b : Coord × ZmValue). Memᴰ b candidates × (near b ≡ true) in
        let kept : All P (x ∷ xs) =
          subst (All P) (sym e) (filter-Kept near candidates candidates (λ b m. m)) in
        let found = min_from-All farther P x xs kept.0 kept.1 in
        let Q = λ (b : Coord × ZmValue). f.lt (distance c b.0) (distance c a.0) ≡ false in
        let least : All Q (x ∷ xs) =
          All-map (x ∷ xs) (λ b h. sym (is_farther-lt c a.0 b.0) ∙ h)
            (min_from-least farther (λ b. is_farther-lt c b.0 b.0 ∙ order.irreflexive _)
              (λ a b d. farther_trans c a.0 b.0 d.0) x xs) in
        inl (a, found.0, found.1, refl, filter-All Q near candidates (subst (All Q) e least))

    -- Where `<` is an order and `partial_cmp` goes by it: the value of a new coordinate is that of an
    -- original coordinate whose squared distance is below the square of 1e-10, and no other such
    -- coordinate is nearer; if there is none, the value is empty.
    pub match_one_lem :
        (candidates : List (Coord × ZmValue)) (new_c : Coord)
        → Nearest candidates new_c (match_one f candidates new_c)
    unfolding match_one
    match_one_lem candidates new_c =
        min_by-Nearest candidates new_c (filter (λ b. is_near f new_c b.0) candidates) refl

    module _ (coords_iter : Geometry → List Coord) (original repaired : Geometry)
        (zm : List ZmValue) where
      -- Where `<` is an order and `partial_cmp` goes by it, `preserve_zm` gives: for a list of values
      -- that is not as long as the coordinates are many, an empty value for each counted coordinate of
      -- the repaired geometry; else the values as they are, if both geometries are of the same kind and
      -- as many coordinates are counted; and else one value for each coordinate that `geo` lists of the
      -- repaired geometry, in their order, each that of an original coordinate within 1e-10 to which no
      -- other such coordinate is nearer, or empty where there is none.
      pub preserve_zm_lem :
          ((length zm ≢ count_coords original)
            → preserve_zm f coords_iter original zm repaired
              ≡ replicate (count_coords repaired) no_zm)
          × ((length zm ≡ count_coords original)
              → (count_coords original ≡ count_coords repaired)
              → (topology_unchanged original repaired ≡ true)
              → preserve_zm f coords_iter original zm repaired ≡ zm)
          × ((length zm ≡ count_coords original)
              → ((count_coords original ≢ count_coords repaired)
                  ⊎ (topology_unchanged original repaired ≡ false))
              → Matched
                  (Nearest (zip (coords_iter original) zm))
                  (coords_iter repaired)
                  (preserve_zm f coords_iter original zm repaired))
      unfolding preserve_zm match_nearest
      preserve_zm_lem = (
        λ other. rw (eq_false (length zm) (count_coords original) other) refl,
        λ size same kind.
            rw
              (
                eq_true (length zm) (count_coords original) size,
                eq_true (count_coords original) (count_coords repaired) same,
                kind,
              )
              refl,
        λ size changed.
            rw
              (
                eq_true (length zm) (count_coords original) size,
                not_both (count_coords original) (count_coords repaired)
                    (topology_unchanged original repaired) changed,
              )
              (map-Matched (Nearest (zip (coords_iter original) zm))
                (match_one f (zip (coords_iter original) zm)) (coords_iter repaired)
                (match_one_lem (zip (coords_iter original) zm))),
      )
