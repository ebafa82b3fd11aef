-- ===== src/RingGraph/Pinch/Scan.antt =====
-- The scan of `split_face_at_pinch_points_depth` finds the first vertex that is met again.
use geo_repair.Prelude.{
  ℕ, suc, ◌+◌, ◌<◌, ◌≤◌, ◌≡◌, refl, sym, ap, ◌∙◌, ◌⊎◌, inl, inr, true, false, ◌&&◌, List, [], ◌∷◌,
  ◌++◌, append_assoc, map, max, Option, none, some, Option-cases, arith, All, length, length-append,
  replicate, get_or, get_elem?, set, Distinct, Bool-cases, ◌==◌, both_true, ==→eq, ==_refl,
  ltb-false, get_or-replicate, length-set, length-replicate, length-map,
}
use mathlib.Core.List.Memᴰ
use mathlib.Core.Option.{some-injective}
use mathlib.Core.Path.{subst}
use geo_repair.RingGraph.{Step}
use geo_repair.RingGraph.Pinch.{max_of, find_pinch, pinch_of}
use geo_repair.RingGraph.Pinch.Seen.{Seen, Seen-snoc}

append_nil {ℓ} : {A : Type ℓ} (xs : List A) → xs ++ [] ≡ xs
append_nil [] = refl
append_nil (x ∷ xs) = ap (◌∷◌ x) (append_nil xs)

length_zero {ℓ} : {A : Type ℓ} (xs : List A) → length xs ≡ 0 → xs ≡ []
length_zero [] e = refl
length_zero (x ∷ xs) e = absurd (omega (arith, e))

max-bound : (a b : ℕ) → (a ≤ max a b) × (b ≤ max a b)
max-bound a b = (ground arith, ground arith)

max_of-bound : (m : ℕ) (vs : List ℕ) → (m ≤ max_of m vs) × All (λ v. v ≤ max_of m vs) vs
max_of-bound m [] = (omega arith, tt)
max_of-bound m (v ∷ vs) =
    let (low, rest) = max_of-bound (max m v) vs in
    let bounds = max-bound m v in (omega (arith, low, bounds), (omega (arith, low, bounds), rest))

find_new :
    (n j v : ℕ) (vs : List ℕ) (first_seen : List (Option ℕ))
    → get_or first_seen v none ≡ none
    → find_pinch n j (v ∷ vs) first_seen ≡ find_pinch n (suc j) vs (set first_seen v (some (j + 1)))
unfolding find_pinch
find_new n j v vs first_seen e = rw (e, find_pinch) refl

find_last :
    (n j v i : ℕ) (vs : List ℕ) (first_seen : List (Option ℕ))
    → get_or first_seen v none ≡ some i
    → (i == 0 && suc j == n) ≡ true
    → find_pinch n j (v ∷ vs) first_seen ≡ find_pinch n (suc j) vs first_seen
unfolding find_pinch
find_last n j v i vs first_seen e last = rw (e, last, find_pinch) refl

find_met :
    (n j v i : ℕ) (vs : List ℕ) (first_seen : List (Option ℕ))
    → get_or first_seen v none ≡ some i
    → (i == 0 && suc j == n) ≡ false
    → find_pinch n j (v ∷ vs) first_seen ≡ some (i, j)
unfolding find_pinch
find_met n j v i vs first_seen e before = rw (e, before, find_pinch) refl

find_end : (n j : ℕ) (first_seen : List (Option ℕ)) → find_pinch n j [] first_seen ≡ none
unfolding find_pinch
find_end n j first_seen = refl

both_equal : (a b c d : ℕ) → a ≡ b → c ≡ d → (a == b && c == d) ≡ true
both_equal a b c d e e' = rw (e, e', ==_refl b, ==_refl d) refl

module _ (start : ℕ) where
  -- after `mid`, no vertex is met twice but perhaps the start as the last one
  abbrev pub IsSimpleFrom : List ℕ → List ℕ → Type 0
  IsSimpleFrom mid vs =
      Distinct (start ∷ mid ++ vs)
      ⊎ ((front : List ℕ) × (vs ≡ front ++ start ∷ []) × Distinct (start ∷ mid ++ front))

  -- after `mid`, the first vertex that is met again is at `j`, and was first seen at `i`; it is not the
  -- start as the last one
  abbrev pub IsPinchFrom : List ℕ → List ℕ → ℕ → ℕ → Type 0
  IsPinchFrom mid vs i j =
      (front : List ℕ) × (v : ℕ) × (back : List ℕ) × (vs ≡ front ++ v ∷ back)
      × (j ≡ length mid + length front)
      × Distinct (start ∷ mid ++ front)
      × (get_elem? (start ∷ mid ++ front) i ≡ some v)
      × ¬ ((i ≡ 0) × (back ≡ []))

  abbrev pub Scanned : List ℕ → List ℕ → Option (ℕ × ℕ) → Type 0
  Scanned mid vs result =
      ((result ≡ none) × IsSimpleFrom mid vs)
      ⊎ ((i j : ℕ) × (result ≡ some (i, j)) × IsPinchFrom mid vs i j)

  Scanned-later :
      (mid : List ℕ) (v : ℕ) (vs : List ℕ) (result result' : Option (ℕ × ℕ))
      → result' ≡ result
      → Scanned (mid ++ v ∷ []) vs result
      → Scanned mid (v ∷ vs) result'
  Scanned-later mid v vs result result' step h =
      let shift = λ (front : List ℕ). append_assoc mid (v ∷ []) front in
      elim h [
        | inl (e, inl apart) ↦
            inl (step ∙ e, inl (subst (λ l. Distinct (start ∷ l)) (shift vs) apart))
        | inl (e, inr (front, at, apart)) ↦ inl (
          step ∙ e,
          inr (v ∷ front, ap (◌∷◌ v) at, subst (λ l. Distinct (start ∷ l)) (shift front) apart),
        )
        | inr (i, j, e, (front, w, back, at, place, apart, seen, not_end)) ↦ inr (
          i,
          j,
          step ∙ e,
          (
            v ∷ front,
            w,
            back,
            ap (◌∷◌ v) at,
            omega (arith, place, length-append mid (v ∷ [])),
            subst (λ l. Distinct (start ∷ l)) (shift front) apart,
            subst (λ l. get_elem? (start ∷ l) i ≡ some w) (shift front) seen,
            not_end,
          ),
        )
      ]

  find_pinch-Scanned :
      (n : ℕ) (vs mid : List ℕ) (first_seen : List (Option ℕ))
      → Seen (start ∷ mid) first_seen
      → length mid + length vs ≡ n
      → All (λ v. v < length first_seen) vs
      → Scanned mid vs (find_pinch n (length mid) vs first_seen)
  find_pinch-Scanned n [] mid first_seen seen size bounds = inl (
    find_end n (length mid) first_seen,
    inl (subst (λ l. Distinct (start ∷ l)) (sym (append_nil mid)) (seen.distinct)),
  )
  find_pinch-Scanned n (v ∷ vs) mid first_seen seen size (bound, bounds) =
      elim (Option-cases (get_or first_seen v none)) [
        | inl new ↦
            let count = suc (length mid) in
            let more = set first_seen v (some count) in
            let index : length mid + 1 ≡ count = omega arith in
            let place : count ≡ length (mid ++ v ∷ []) =
              omega (arith, length-append mid (v ∷ [])) in
            let step =
              find_new n (length mid) v vs first_seen new
              ∙ ap (λ k. find_pinch n count vs (set first_seen v (some k))) index
              ∙ ap (λ k. find_pinch n k vs more) place in
            Scanned-later mid v vs (find_pinch n (length (mid ++ v ∷ [])) vs more) _ step (
              find_pinch-Scanned n vs (mid ++ v ∷ []) more
                (Seen-snoc (start ∷ mid) first_seen v seen new bound) (omega (arith, size, place))
                (subst (λ k. All (λ w. w < k) vs) (sym (length-set first_seen v (some count)))
                  bounds))
        | inr (i, old) ↦ elim (Bool-cases (i == 0 && suc (length mid) == n)) [
          | inl last ↦
              let (zero_i, at_end) = both_true (i == 0) (suc (length mid) == n) last in
              let nothing =
                length_zero vs (omega (arith, size, ==→eq (suc (length mid)) n at_end)) in
              let same : start ≡ v = some-injective start v (
                subst (λ k. get_elem? (start ∷ mid) k ≡ some v) (==→eq i 0 zero_i)
                  (seen.hit v i old)) in
              inl (
                find_last n (length mid) v i vs first_seen old last
                    ∙ ap (λ l. find_pinch n (suc (length mid)) l first_seen) nothing
                    ∙ find_end n (suc (length mid)) first_seen,
                inr (
                  [],
                  (let whole : v ∷ vs ≡ start ∷ [] = cc in whole),
                  subst (λ l. Distinct (start ∷ l)) (sym (append_nil mid)) (seen.distinct),
                ),
              )
          | inr before ↦ inr (
            i,
            length mid,
            find_met n (length mid) v i vs first_seen old before,
            (
              [],
              v,
              vs,
              refl,
              omega arith,
              subst (λ l. Distinct (start ∷ l)) (sym (append_nil mid)) (seen.distinct),
              subst (λ l. get_elem? (start ∷ l) i ≡ some v) (sym (append_nil mid))
                  (seen.hit v i old),
              λ h.
                  let nothing = ap length h.1 in
                  let test =
                    both_equal i 0 (suc (length mid)) n h.0 (omega (arith, size, nothing)) in
                  absurd (cc),
            ),
          )
        ]
      ]

  -- no vertex of a face that begins at `start` is met twice, but for the start as the last one
  abbrev pub IsSimple : List ℕ → Type 0
  IsSimple vs =
      Distinct (start ∷ vs)
      ⊎ ((front : List ℕ) × (vs ≡ front ++ start ∷ []) × Distinct (start ∷ front))

  -- The first vertex that is met again is at `j`, and the `i`-th from the start on is the same; it is not
  -- the start as the last one.
  abbrev pub IsPinch : List ℕ → ℕ → ℕ → Type 0
  IsPinch vs i j =
      (front : List ℕ) × (v : ℕ) × (back : List ℕ) × (vs ≡ front ++ v ∷ back)
      × (j ≡ length front)
      × Distinct (start ∷ front)
      × (get_elem? (start ∷ front) i ≡ some v)
      × ¬ ((i ≡ 0) × (back ≡ []))

  All-lt : (m k : ℕ) (vs : List ℕ) → suc m ≡ k → All (λ v. v ≤ m) vs → All (λ v. v < k) vs
  All-lt m k [] e h = tt
  All-lt m k (v ∷ vs) e (p, h) = (omega (arith, e, p), All-lt m k vs e h)

  nothing-Seen : (n : ℕ) → Seen [] (replicate n none)
  nothing-Seen n = record {
    hit = λ v i e. let unseen = sym (get_or-replicate n v none) ∙ e in absurd (cc);
    miss = λ v e bound m. Memᴰ.not-nil m;
    distinct = tt;
  }

  pub pinch_of-Scanned :
      (face : List Step) → 3 ≤ length face → Scanned [] (map (λ s. s.1) face) (pinch_of start face)
  unfolding pinch_of
  pinch_of-Scanned face long =
      let vs = map (λ (s : Step). s.1) face in
      let m = max_of start vs in
      let (low, bounds) = max_of-bound start vs in
      let size = length-replicate {A = Option ℕ} (suc m) none in
      let size' = length-set {A = Option ℕ} (replicate (suc m) none) start (some 0) in
      rw (ltb-false (length face) 3 long) (
        find_pinch-Scanned (length face) vs [] (set (replicate (suc m) none) start (some 0))
          (Seen-snoc [] (replicate (suc m) none) start (nothing-Seen (suc m))
            (get_or-replicate (suc m) start none) (omega (arith, low, size)))
          (omega (arith, length-map (λ (s : Step). s.1) face))
          (All-lt m _ vs (omega (arith, size, size')) bounds))
