-- ===== src/Nesting/Kids.antt =====
-- The children of each hole and the holes without a parent, as positions of the parents' list.
use geo_repair.Prelude.{
  ℕ, zero, suc, ◌+◌, ◌<◌, ◌≤◌, ◌≡◌, ◌≢◌, refl, sym, ap, ◌⊎◌, inl, inr, List, [], ◌∷◌, Option, none,
  some, arith, length, get_or, Distinct, Bool-cases, ◌==◌, ==→eq, ==_false, if◌then◌else◌,
}
use mathlib.Core.List.{Memᴰ}
use mathlib.Core.List.Memᴰ
use mathlib.Core.Option.{some-injective}
use mathlib.Core.Path.{subst}

-- the positions of `ps`, counted from `i`, at which the parent is `p`
abbrev pub kids_from : ℕ → List (Option ℕ) → ℕ → List ℕ
kids_from i [] p = []
kids_from i (none ∷ ps) p = kids_from (suc i) ps p
kids_from i (some q ∷ ps) p = let rest = kids_from (suc i) ps p in if q == p then i ∷ rest else rest

-- the positions at which there is none
abbrev pub roots_from : ℕ → List (Option ℕ) → List ℕ
roots_from i [] = []
roots_from i (none ∷ ps) = i ∷ roots_from (suc i) ps
roots_from i (some q ∷ ps) = roots_from (suc i) ps

pub roots_from-bound : (i : ℕ) (ps : List (Option ℕ)) (j : ℕ) → Memᴰ j (roots_from i ps) → i ≤ j
roots_from-bound i [] j m = absurd (Memᴰ.not-nil m)
roots_from-bound i (none ∷ ps) j (Memᴰ.head e) = omega (arith, e)
roots_from-bound i (none ∷ ps) j (Memᴰ.tail m) = omega (arith, roots_from-bound (suc i) ps j m)
roots_from-bound i (some q ∷ ps) j m = omega (arith, roots_from-bound (suc i) ps j m)

-- what the array holds at `p` after a parent `q`
kids_cases :
    (i q : ℕ) (ps : List (Option ℕ)) (p : ℕ)
    → ((q ≡ p) × (kids_from i (some q ∷ ps) p ≡ i ∷ kids_from (suc i) ps p))
      ⊎ ((q ≢ p) × (kids_from i (some q ∷ ps) p ≡ kids_from (suc i) ps p))
kids_cases i q ps p = elim (Bool-cases (q == p)) [
  | inl mine ↦ inl (==→eq q p mine, rw mine refl)
  | inr other ↦ inr (==_false q p other, rw other refl)
]

pub kids_from_sound :
    (i : ℕ) (ps : List (Option ℕ)) (p j : ℕ)
    → Memᴰ j (kids_from i ps p)
    → (k : ℕ) × (j ≡ i + k) × (k < length ps) × (get_or ps k none ≡ some p)
kids_from_sound i [] p j m = absurd (Memᴰ.not-nil m)
kids_from_sound i (none ∷ ps) p j m =
    let (k, at, bound, parent) = kids_from_sound (suc i) ps p j m in
    (suc k, omega (arith, at), omega (arith, bound), parent)
kids_from_sound i (some q ∷ ps) p j m = elim (kids_cases i q ps p) [
  | inl (mine, e) ↦ elim (Memᴰ.cases_cons (subst (Memᴰ j) e m)) [
    | inl here ↦ (0, omega (arith, here), omega arith, ap some mine)
    | inr later ↦
        let (k, at, bound, parent) = kids_from_sound (suc i) ps p j later in
        (suc k, omega (arith, at), omega (arith, bound), parent)
  ]
  | inr (_, e) ↦
      let (k, at, bound, parent) = kids_from_sound (suc i) ps p j (subst (Memᴰ j) e m) in
      (suc k, omega (arith, at), omega (arith, bound), parent)
]

kids_from-some :
    (i q : ℕ) (ps : List (Option ℕ)) (p j : ℕ)
    → Memᴰ j (kids_from (suc i) ps p)
    → Memᴰ j (kids_from i (some q ∷ ps) p)
kids_from-some i q ps p j m = elim (kids_cases i q ps p) [
  | inl (_, e) ↦ subst (Memᴰ j) (sym e) (Memᴰ.tail m)
  | inr (_, e) ↦ subst (Memᴰ j) (sym e) m
]

pub kids_from_complete :
    (i : ℕ) (ps : List (Option ℕ)) (p k j : ℕ)
    → get_or ps k none ≡ some p
    → j ≡ i + k
    → Memᴰ j (kids_from i ps p)
kids_from_complete i [] p k j h at = absurd (cc)
kids_from_complete i (none ∷ ps) p zero j h at = absurd (cc)
kids_from_complete i (none ∷ ps) p (suc k) j h at =
    kids_from_complete (suc i) ps p k j h (omega (arith, at))
kids_from_complete i (some q ∷ ps) p zero j h at = elim (kids_cases i q ps p) [
  | inl (_, e) ↦ subst (Memᴰ j) (sym e) (Memᴰ.head (omega (arith, at)))
  | inr (other, _) ↦ absurd (other (some-injective q p h))
]
kids_from_complete i (some q ∷ ps) p (suc k) j h at =
    kids_from-some i q ps p j (kids_from_complete (suc i) ps p k j h (omega (arith, at)))

pub kids_from-Distinct : (i : ℕ) (ps : List (Option ℕ)) (p : ℕ) → Distinct (kids_from i ps p)
kids_from-Distinct i [] p = tt
kids_from-Distinct i (none ∷ ps) p = kids_from-Distinct (suc i) ps p
kids_from-Distinct i (some q ∷ ps) p = elim (kids_cases i q ps p) [
  | inl (_, e) ↦ subst Distinct (sym e) (
    λ m. let (k, at, _, _) = kids_from_sound (suc i) ps p i m in absurd (omega (arith, at)),
    kids_from-Distinct (suc i) ps p,
  )
  | inr (_, e) ↦ subst Distinct (sym e) (kids_from-Distinct (suc i) ps p)
]

pub roots_from_sound :
    (i : ℕ) (ps : List (Option ℕ)) (j : ℕ)
    → Memᴰ j (roots_from i ps)
    → (k : ℕ) × (j ≡ i + k) × (k < length ps) × (get_or ps k none ≡ none)
roots_from_sound i [] j m = absurd (Memᴰ.not-nil m)
roots_from_sound i (none ∷ ps) j (Memᴰ.head e) = (0, omega (arith, e), omega arith, refl)
roots_from_sound i (none ∷ ps) j (Memᴰ.tail m) =
    let (k, at, bound, parent) = roots_from_sound (suc i) ps j m in
    (suc k, omega (arith, at), omega (arith, bound), parent)
roots_from_sound i (some q ∷ ps) j m =
    let (k, at, bound, parent) = roots_from_sound (suc i) ps j m in
    (suc k, omega (arith, at), omega (arith, bound), parent)

pub roots_from_complete :
    (i : ℕ) (ps : List (Option ℕ)) (k j : ℕ)
    → k < length ps
    → get_or ps k none ≡ none
    → j ≡ i + k
    → Memᴰ j (roots_from i ps)
roots_from_complete i [] k j bound h at = absurd (omega arith)
roots_from_complete i (none ∷ ps) zero j bound h at = Memᴰ.head (omega (arith, at))
roots_from_complete i (none ∷ ps) (suc k) j bound h at =
    Memᴰ.tail (roots_from_complete (suc i) ps k j (omega arith) h (omega (arith, at)))
roots_from_complete i (some q ∷ ps) zero j bound h at = absurd (cc)
roots_from_complete i (some q ∷ ps) (suc k) j bound h at =
    roots_from_complete (suc i) ps k j (omega arith) h (omega (arith, at))

pub roots_from-Distinct : (i : ℕ) (ps : List (Option ℕ)) → Distinct (roots_from i ps)
roots_from-Distinct i [] = tt
roots_from-Distinct i (none ∷ ps) =
    (λ m. absurd (omega (arith, roots_from-bound (suc i) ps i m)), roots_from-Distinct (suc i) ps)
roots_from-Distinct i (some q ∷ ps) = roots_from-Distinct (suc i) ps
