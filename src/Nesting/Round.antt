-- ===== src/Nesting/Round.antt =====
-- One round of the search of `resolve_nesting` keeps its invariant.
use geo_repair.Prelude.{
  ℕ, zero, suc, ◌<◌, ◌≡◌, ◌≢◌, refl, sym, ap, ◌∙◌, ◌⊎◌, inl, inr, List, [], ◌∷◌, Option, some,
  arith, length, get_or, Distinct, Distinct-append,
}
use mathlib.Core.List.{Memᴰ}
use mathlib.Core.List.Memᴰ
use mathlib.Core.Option.{some-injective}
use mathlib.Core.Path.{subst}
use geo_repair.Nesting.{Forest}
use geo_repair.Nesting.Kids.{kids_from, kids_from_complete, kids_from-Distinct}
use geo_repair.Nesting.Levels.{
  Level, below, parent_cases, parent, known, Inv, Round, parent-bound, kids_from-parent,
}

zero-or_positive : (n : ℕ) → (n ≡ 0) ⊎ (0 < n)
zero-or_positive zero = inl refl
zero-or_positive (suc n) = inr (omega arith)

module _ (parent_of : List (Option ℕ)) {s s' : Forest} {p : ℕ} {rest : List ℕ}
    (e : s.queue ≡ p ∷ rest) (h : Inv parent_of s) (r : Round parent_of s p rest s') where
  head_queued : Memᴰ p s.queue
  head_queued = subst (Memᴰ p) (sym e) (Memᴰ.head refl)

  rest_queued : (q : ℕ) → Memᴰ q rest → Memᴰ q s.queue
  rest_queued q m = subst (Memᴰ q) (sym e) (Memᴰ.tail m)

  queue_cases : (q : ℕ) → Memᴰ q s'.queue → Memᴰ q rest ⊎ (parent parent_of q ≡ some p)
  queue_cases q m = elim (Memᴰ.append_cases rest (subst (Memᴰ q) (r.queue') m)) [
    | inl old ↦ inl old
    | inr new ↦ inr (kids_from-parent parent_of p q new)
  ]

  child_known : (c : ℕ) → parent parent_of c ≡ some p → 0 < known parent_of s' c
  child_known c at = omega (arith, r.child' c at)

  stays_known : (c : ℕ) → 0 < known parent_of s c → 0 < known parent_of s' c
  stays_known c pos = elim (parent_cases (parent parent_of c) p) [
    | inl at ↦ child_known c at
    | inr other ↦ omega (arith, r.other' c other)
  ]

  kept_queued : (q : ℕ) → Memᴰ q rest → Memᴰ q s'.queue
  kept_queued q m = subst (Memᴰ q) (sym (r.queue')) (Memᴰ.append_left _ m)

  child_queued : (q : ℕ) → parent parent_of q ≡ some p → Memᴰ q s'.queue
  child_queued q at =
      subst (Memᴰ q) (sym (r.queue'))
        (Memᴰ.append_right rest (kids_from_complete 0 parent_of p q q at (omega arith)))

  still_unknown :
      (q c : ℕ)
      → q ≢ p
      → parent parent_of c ≡ some q
      → known parent_of s c ≡ 0
      → known parent_of s' c ≡ 0
  still_unknown q c apart at unknown =
      r.other' c (λ also. apart (some-injective q p (sym at ∙ also))) ∙ unknown

  Distinct-round : Distinct s'.queue
  Distinct-round = subst Distinct (sym (r.queue')) (
      Distinct-append rest (kids_from 0 parent_of p) ((subst Distinct e (h.distinct)).1)
        (kids_from-Distinct 0 parent_of p)
        (λ x old new. absurd (
          omega (
            arith,
            (h.queued x (rest_queued x old)).1,
            h.fresh p x head_queued (kids_from-parent parent_of p x new),
          ))))

  queued-round : (q : ℕ) → Memᴰ q s'.queue → (q < length parent_of) × (0 < known parent_of s' q)
  queued-round q m = elim (queue_cases q m) [
    | inl old ↦ let (bound, pos) = h.queued q (rest_queued q old) in (bound, stays_known q pos)
    | inr at ↦ (parent-bound parent_of q p at, child_known q at)
  ]

  fresh-round : (q c : ℕ) → Memᴰ q s'.queue → parent parent_of c ≡ some q → known parent_of s' c ≡ 0
  fresh-round q c m at = elim (queue_cases q m) [
    | inl old ↦
        still_unknown q c
          (λ same. (subst Distinct e (h.distinct)).0 (subst (λ x. Memᴰ x rest) same old)) at
          (h.fresh q c (rest_queued q old) at)
    | inr new ↦
        still_unknown q c
          (λ same. absurd (
            omega (
              arith,
              h.fresh p q head_queued new,
              (h.queued p head_queued).1,
              ap (known parent_of s) same,
            )))
          at
          (elim (zero-or_positive (known parent_of s c)) [
            | inl unknown ↦ unknown
            | inr pos ↦ absurd (omega (arith, h.above q c at pos, h.fresh p q head_queued new))
          ])
  ]

  above-round :
      (q c : ℕ) → parent parent_of c ≡ some q → 0 < known parent_of s' c → 0 < known parent_of s' q
  above-round q c at pos = elim (parent_cases (parent parent_of c) p) [
    | inl mine ↦
        subst (λ x. 0 < known parent_of s' x) (some-injective p q (sym mine ∙ at))
          (stays_known p ((h.queued p head_queued).1))
    | inr other ↦ stays_known q (h.above q c at (omega (arith, r.other' c other)))
  ]

  sound-round : (i : ℕ) → 0 < known parent_of s' i → Level parent_of i (known parent_of s' i)
  sound-round i pos = elim (parent_cases (parent parent_of i) p) [
    | inl at ↦
        subst (Level parent_of i) (omega (arith, r.child' i at))
          (below at (h.sound p ((h.queued p head_queued).1)))
    | inr other ↦
        subst (Level parent_of i) (sym (r.other' i other))
          (h.sound i (omega (arith, r.other' i other)))
  ]

  closed-round :
      (q c : ℕ)
      → 0 < known parent_of s' q
      → parent parent_of c ≡ some q
      → Memᴰ q s'.queue ⊎ (0 < known parent_of s' c)
  closed-round q c pos at = elim (parent_cases (parent parent_of c) p) [
    | inl mine ↦ inr (child_known c mine)
    | inr other ↦ elim (parent_cases (parent parent_of q) p) [
      | inl child ↦ inl (child_queued q child)
      | inr old ↦ elim (h.closed q c (omega (arith, r.other' q old)) at) [
        | inl m ↦ elim (Memᴰ.cases_cons (subst (Memᴰ q) e m)) [
          | inl same ↦ absurd (other (at ∙ ap some same))
          | inr later ↦ inl (kept_queued q later)
        ]
        | inr known_child ↦ inr (stays_known c known_child)
      ]
    ]
  ]

  pub Inv-round : Inv parent_of s'
  Inv-round = record {
    size = r.size' ∙ h.size;
    kids = λ q b. ap (λ cs. get_or cs q []) (r.children') ∙ h.kids q b;
    distinct = Distinct-round;
    queued = queued-round;
    fresh = fresh-round;
    above = above-round;
    sound = sound-round;
    started = λ i b none_at. stays_known i (h.started i b none_at);
    closed = closed-round;
  }
