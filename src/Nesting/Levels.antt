-- ===== src/Nesting/Levels.antt =====
-- The depths that the search of `resolve_nesting` finds are the lengths of the chains of parents.
use geo_repair.Prelude.{
  ℕ, suc, ◌+◌, ◌<◌, ◌≡◌, ◌≢◌, refl, sym, ap, ◌⊎◌, inl, inr, List, [], ◌∷◌, ◌++◌, Option, none, some,
  arith, length, get_or, Distinct, Bool-cases, ◌==◌, ==→eq, ==_false,
}
use mathlib.Core.List.{Memᴰ}
use mathlib.Core.Option.{some-injective}
use mathlib.Core.Path.{subst}
use geo_repair.Nesting.{Forest, pop}
use geo_repair.Nesting.Kids.{kids_from, kids_from_sound, kids_from_complete, kids_from-Distinct}
use geo_repair.Nesting.Visit.{
  zeros, visit-queue, visit-children, length-visit, visit_other, visit_member, visit-zeros,
}

-- the depth of a hole: one more than its parent's
pub data Level (parent_of : List (Option ℕ)) : ℕ → ℕ → Type 0 where
  top : {i : ℕ} → i < length parent_of → get_or parent_of i none ≡ none → Level parent_of i 1
  below :
      {i p d : ℕ}
      → get_or parent_of i none ≡ some p
      → Level parent_of p d
      → Level parent_of i (suc d)

-- each parent is a hole
abbrev pub IsForest : List (Option ℕ) → Type 0
IsForest parent_of = (i p : ℕ) → get_or parent_of i none ≡ some p → p < length parent_of

pub parent_cases : (q : Option ℕ) (p : ℕ) → (q ≡ some p) ⊎ (q ≢ some p)
parent_cases none p = inr (λ e. absurd (cc))
parent_cases (some q) p = elim (Bool-cases (q == p)) [
  | inl mine ↦ inl (ap some (==→eq q p mine))
  | inr other ↦ inr (λ e. ==_false q p other (some-injective q p e))
]

module _ (parent_of : List (Option ℕ)) where
  abbrev pub parent : ℕ → Option ℕ
  parent i = get_or parent_of i none

  abbrev pub known : Forest → ℕ → ℕ
  known s i = get_or s.depth i 0

  pub record Inv (s : Forest) : Type 0 where
    pub size : length s.depth ≡ length parent_of
    pub kids : (p : ℕ) → p < length parent_of → get_or s.children p [] ≡ kids_from 0 parent_of p
    pub distinct : Distinct s.queue
    pub queued : (q : ℕ) → Memᴰ q s.queue → (q < length parent_of) × (0 < known s q)
    pub fresh : (q c : ℕ) → Memᴰ q s.queue → parent c ≡ some q → known s c ≡ 0
    pub above : (q c : ℕ) → parent c ≡ some q → 0 < known s c → 0 < known s q
    pub sound : (i : ℕ) → 0 < known s i → Level parent_of i (known s i)
    pub started : (i : ℕ) → i < length parent_of → parent i ≡ none → 0 < known s i
    pub closed : (q c : ℕ) → 0 < known s q → parent c ≡ some q → Memᴰ q s.queue ⊎ (0 < known s c)

  pub parent-bound : (i p : ℕ) → parent i ≡ some p → i < length parent_of
  parent-bound i p e =
      let (k, at, bound, _) =
        kids_from_sound 0 parent_of p i (kids_from_complete 0 parent_of p i i e (omega arith)) in
      omega (arith, at, bound)

  pub kids_from-parent : (p c : ℕ) → Memᴰ c (kids_from 0 parent_of p) → parent c ≡ some p
  kids_from-parent p c m =
      let (k, at, _, e) = kids_from_sound 0 parent_of p c m in
      subst (λ x. parent x ≡ some p) (omega (arith, at)) e

  -- one round: what it does to the arrays
  pub record Round (s : Forest) (p : ℕ) (rest : List ℕ) (s' : Forest) : Type 0 where
    pub size' : length s'.depth ≡ length s.depth
    pub queue' : s'.queue ≡ rest ++ kids_from 0 parent_of p
    pub children' : s'.children ≡ s.children
    pub child' : (c : ℕ) → parent c ≡ some p → known s' c ≡ known s p + 1
    pub other' : (c : ℕ) → parent c ≢ some p → known s' c ≡ known s c
    pub zeros' : zeros s'.depth + length (kids_from 0 parent_of p) ≡ zeros s.depth

  pub pop-Round :
      (s : Forest) (p : ℕ) (rest : List ℕ)
      → s.queue ≡ p ∷ rest
      → Inv s
      → Round s p rest (pop s p rest)
  unfolding pop
  pop-Round s p rest e h =
      let head = subst (Memᴰ p) (sym e) (Memᴰ.head refl) in
      let cs = kids_from 0 parent_of p in
      let s' = record s { queue = rest } in
      rw (h.kids p ((h.queued p head).0)) (record {
        size' = length-visit p cs s';
        queue' = visit-queue p cs s';
        children' = visit-children p cs s';
        child' = λ c at.
            visit_member p cs s' c (kids_from-Distinct 0 parent_of p)
              (λ m.
                absurd
                  (omega (arith, h.fresh p p head (kids_from-parent p p m), (h.queued p head).1)))
              (rw (h.size) (parent-bound c p at))
              (kids_from_complete 0 parent_of p c c at (omega arith));
        other' = λ c at. visit_other p cs s' c (λ m. at (kids_from-parent p c m));
        zeros' = visit-zeros p cs s' (kids_from-Distinct 0 parent_of p) (λ c m. (
          rw (h.size) (parent-bound c p (kids_from-parent p c m)),
          h.fresh p c head (kids_from-parent p c m),
        ));
      })
