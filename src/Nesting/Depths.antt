-- ===== src/Nesting/Depths.antt =====
-- The search of `resolve_nesting` ends, with the depths of all the holes.
use geo_repair.Prelude.{
  Option-cases, ℕ, zero, suc, ◌+◌, ◌<◌, ◌≤◌, ◌≡◌, refl, sym, ap, ◌∙◌, ◌↔◌, ◌⊎◌, inl, inr, List, [],
  ◌∷◌, Option, none, some, arith, length, get_or, get_or-replicate, length-replicate, replicate,
  length-append, ◌++◌, Bool-cases, ltb, ltb→lt, ltb→le, Distinct,
}
use mathlib.Core.List.{Memᴰ}
use mathlib.Core.List.Memᴰ
use mathlib.Core.Option.{some-injective}
use mathlib.Core.Path.{subst}
use geo_repair.Nesting.{Forest, blank, link_all, pop, descend, levels}
use geo_repair.Nesting.Kids.{
  kids_from, roots_from, roots_from_sound, roots_from_complete, roots_from-Distinct,
}
use geo_repair.Nesting.Link.{
  link_all-kids, link_all-queue, length-link_all, link_all-depth, link_all-root, link_all-zeros,
}
use geo_repair.Nesting.Visit.{zeros}
use geo_repair.Nesting.Levels.{Level, top, below, parent, known, Inv, pop-Round}
use geo_repair.Nesting.Round.{Inv-round}

zeros-replicate : (n : ℕ) → zeros (replicate n 0) ≡ n
zeros-replicate zero = refl
zeros-replicate (suc n) = ap suc (zeros-replicate n)

List-cases : (xs : List ℕ) → (xs ≡ []) ⊎ ((x : ℕ) × (rest : List ℕ) × (xs ≡ x ∷ rest))
List-cases [] = inl refl
List-cases (x ∷ xs) = inr (x, xs, refl)

module _ (parent_of : List (Option ℕ)) where
  abbrev roots : List ℕ
  roots = roots_from 0 parent_of

  abbrev linked : Forest
  linked = link_all 0 parent_of (blank (length parent_of))

  linked-root : (i : ℕ) → Memᴰ i roots → known parent_of linked i ≡ 1
  linked-root i m =
      link_all-root 0 parent_of (blank (length parent_of)) i
        (rw (length-replicate {A = ℕ} (length parent_of) 0) (omega arith)) m

  linked_other : (i : ℕ) → ¬ Memᴰ i roots → known parent_of linked i ≡ 0
  linked_other i h =
      link_all-depth 0 parent_of (blank (length parent_of)) i h
      ∙ get_or-replicate (length parent_of) i 0

  roots-parent : (i : ℕ) → Memᴰ i roots → (i < length parent_of) × (parent parent_of i ≡ none)
  roots-parent i m =
      let (k, at, bound, e) = roots_from_sound 0 parent_of i m in
      (omega (arith, at, bound), subst (λ x. parent parent_of x ≡ none) (omega (arith, at)) e)

  child_unknown : (q c : ℕ) → parent parent_of c ≡ some q → known parent_of linked c ≡ 0
  child_unknown q c at = linked_other c (λ m. let (_, e) = roots-parent c m in absurd (cc))

  root_cases : (i : ℕ) → Memᴰ i roots ⊎ ¬ Memᴰ i roots
  root_cases i = elim (Option-cases (parent parent_of i)) [
    | inl top_level ↦ elim (Bool-cases (ltb i (length parent_of))) [
      | inl inside ↦ inl (
          roots_from_complete 0 parent_of i i (ltb→lt i (length parent_of) inside) top_level
            (omega arith))
      | inr outside ↦
          inr
            (λ m. absurd (omega (arith, (roots-parent i m).0, ltb→le i (length parent_of) outside)))
    ]
    | inr (p, at) ↦ inr (λ m. let (_, e) = roots-parent i m in absurd (cc))
  ]

  -- a hole of known depth is a root
  known-root : (i : ℕ) → 0 < known parent_of linked i → Memᴰ i roots
  known-root i pos = elim (root_cases i) [
    | inl m ↦ m
    | inr none_of ↦ absurd (omega (arith, linked_other i none_of))
  ]

  linked-queue : linked.queue ≡ roots
  linked-queue = link_all-queue 0 parent_of (blank (length parent_of))

  root_queued : (i : ℕ) → Memᴰ i roots → Memᴰ i linked.queue
  root_queued i m = subst (Memᴰ i) (sym linked-queue) m

  queued_root : (i : ℕ) → Memᴰ i linked.queue → Memᴰ i roots
  queued_root i m = subst (Memᴰ i) linked-queue m

  Inv-linked : Inv parent_of linked
  Inv-linked = record {
    size =
        (length-link_all 0 parent_of (blank (length parent_of))).0
        ∙ length-replicate {A = ℕ} (length parent_of) 0;
    kids = λ p b.
        link_all-kids 0 parent_of (blank (length parent_of)) p
          (rw (length-replicate {A = List ℕ} (length parent_of) []) b)
        ∙ ap (λ xs. xs ++ kids_from 0 parent_of p) (get_or-replicate (length parent_of) p []);
    distinct = subst Distinct (sym linked-queue) (roots_from-Distinct 0 parent_of);
    queued = λ q m.
        let root = queued_root q m in ((roots-parent q root).0, omega (arith, linked-root q root));
    fresh = λ q c m at. child_unknown q c at;
    above = λ q c at pos. absurd (omega (arith, child_unknown q c at));
    sound = λ i pos.
        let root = known-root i pos in
        let (bound, at) = roots-parent i root in
        subst (Level parent_of i) (sym (linked-root i root)) (top bound at);
    started = λ i b at.
        omega (arith, linked-root i (roots_from_complete 0 parent_of i i b at (omega arith)));
    closed = λ q c pos at. inl (root_queued q (known-root q pos));
  }

  descend_done : (fuel : ℕ) (s : Forest) → s.queue ≡ [] → descend fuel s ≡ some s.depth
  unfolding descend
  descend_done zero s e = rw e refl
  descend_done (suc fuel) s e = rw e refl

  descend_more :
      (fuel : ℕ) (s : Forest) (p : ℕ) (rest : List ℕ)
      → s.queue ≡ p ∷ rest
      → descend (suc fuel) s ≡ descend fuel (pop s p rest)
  unfolding descend
  descend_more fuel s p rest e = rw e refl

  descend_ends :
      (fuel : ℕ) (s : Forest)
      → Inv parent_of s
      → zeros s.depth + length s.queue ≤ fuel
      → (t : Forest) × (descend fuel s ≡ some t.depth) × Inv parent_of t × (t.queue ≡ [])
  descend_ends zero s h enough = elim (List-cases s.queue) [
    | inl empty ↦ (s, descend_done zero s empty, h, empty)
    | inr (p, rest, e) ↦ absurd (omega (arith, ap length e))
  ]
  descend_ends (suc fuel) s h enough = elim (List-cases s.queue) [
    | inl empty ↦ (s, descend_done (suc fuel) s empty, h, empty)
    | inr (p, rest, e) ↦
        let r = pop-Round parent_of s p rest e h in
        let (t, ends, inv, empty) = descend_ends fuel (pop s p rest) (Inv-round parent_of e h r) (
          omega (
            arith,
            ap length e,
            ap length (r.queue'),
            length-append rest (kids_from 0 parent_of p),
            r.zeros',
          )) in
        (t, descend_more fuel s p rest e ∙ ends, inv, empty)
  ]

  pub levels_ends :
      (t : Forest) × (levels parent_of ≡ some t.depth) × Inv parent_of t × (t.queue ≡ [])
  unfolding levels
  levels_ends = descend_ends (length parent_of) linked Inv-linked (
      omega (
        arith,
        zeros-replicate (length parent_of),
        ap length linked-queue,
        link_all-zeros 0 parent_of (blank (length parent_of))
            (rw (length-replicate {A = ℕ} (length parent_of) 0) (omega arith))
            (λ j _. get_or-replicate (length parent_of) j 0),
      ))

  Level-unique : {i d d' : ℕ} → Level parent_of i d → Level parent_of i d' → d ≡ d'
  Level-unique (top b e) (top b' e') = refl
  Level-unique (top b e) (below e' l') = absurd (cc)
  Level-unique (below e l) (top b' e') = absurd (cc)
  Level-unique (below {i = _} {p = p} e l) (below {i = _} {p = p'} {d = d'} e' l') =
      ap suc
        (Level-unique l (subst (λ x. Level parent_of x d') (some-injective p' p (sym e' ∙ e)) l'))

  Level-known :
      (t : Forest) {i d : ℕ}
      → Inv parent_of t
      → t.queue ≡ []
      → Level parent_of i d
      → 0 < known parent_of t i
  Level-known t {i} h empty (top b e) = h.started i b e
  Level-known t {i} h empty (below {i = _} {p = p} e l) =
      elim (h.closed p i (Level-known t h empty l) e) [
        | inl m ↦ absurd (Memᴰ.not-nil (subst (Memᴰ p) empty m))
        | inr pos ↦ pos
      ]

  -- The search gives a depth for each hole: the length of the chain of its parents up to a hole
  -- without a parent, and 0 where there is no such chain.
  pub levels_lem :
      (depth : List ℕ) × (levels parent_of ≡ some depth)
      × (length depth ≡ length parent_of)
      × ((i d : ℕ) → (get_or depth i 0 ≡ suc d) ↔ Level parent_of i (suc d))
  levels_lem =
      let (t, ends, h, empty) = levels_ends in
      (
        t.depth,
        ends,
        h.size,
        λ i d. (
          λ e. subst (Level parent_of i) e (h.sound i (omega (arith, e))),
          λ l. Level-unique (h.sound i (Level-known t h empty l)) l,
        ),
      )
