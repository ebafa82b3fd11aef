-- ===== src/RingGraph/Pinch/Seen.antt =====
-- What the array `first_seen` of `split_face_at_pinch_points_depth` knows.
use geo_repair.Prelude.{
  ℕ, zero, suc, ◌<◌, ◌≡◌, refl, sym, ◌∙◌, inl, inr, List, [], ◌∷◌, ◌++◌, Option, none, some, arith,
  length, get_or, get_elem?, set, Distinct, Distinct-append, Bool-cases, ◌==◌, ==→eq, ==_false,
  get_or-set_self, get_or-set_ne, length-set,
}
use mathlib.Core.List.{Memᴰ}
use mathlib.Core.List.Memᴰ
use mathlib.Core.Option.{some-injective}
use mathlib.Core.Path.{subst}

get_elem-append :
    (xs ys : List ℕ) (i v : ℕ) → get_elem? xs i ≡ some v → get_elem? (xs ++ ys) i ≡ some v
get_elem-append [] ys i v e = absurd (cc)
get_elem-append (x ∷ xs) ys zero v e = e
get_elem-append (x ∷ xs) ys (suc i) v e = get_elem-append xs ys i v e

get_elem_last : (xs : List ℕ) (v : ℕ) → get_elem? (xs ++ v ∷ []) (length xs) ≡ some v
get_elem_last [] v = refl
get_elem_last (x ∷ xs) v = get_elem_last xs v

-- what the array knows of the vertices seen
pub record Seen (seen : List ℕ) (first_seen : List (Option ℕ)) : Type 0 where
  pub hit : (v i : ℕ) → get_or first_seen v none ≡ some i → get_elem? seen i ≡ some v
  pub miss : (v : ℕ) → get_or first_seen v none ≡ none → v < length first_seen → ¬ Memᴰ v seen
  pub distinct : Distinct seen

pub Seen-snoc :
    (seen : List ℕ) (first_seen : List (Option ℕ)) (v : ℕ)
    → Seen seen first_seen
    → get_or first_seen v none ≡ none
    → v < length first_seen
    → Seen (seen ++ v ∷ []) (set first_seen v (some (length seen)))
Seen-snoc seen first_seen v h new bound =
    let fs = set first_seen v (some (length seen)) in
    let self = get_or-set_self first_seen v (some (length seen)) none bound in
    record {
      hit = λ w i e. elim (Bool-cases (v == w)) [
        | inl eq ↦
            let same = ==→eq v w eq in
            let at : length seen ≡ i =
              some-injective _ _ (sym self ∙ subst (λ u. get_or fs u none ≡ some i) (sym same) e) in
            subst (λ k. get_elem? (seen ++ v ∷ []) k ≡ some w) at
              (subst (λ u. get_elem? (seen ++ v ∷ []) (length seen) ≡ some u) same
                (get_elem_last seen v))
        | inr ne ↦
            let other = get_or-set_ne first_seen v w (some (length seen)) none (==_false v w ne) in
            get_elem-append seen (v ∷ []) i w (h.hit w i (sym other ∙ e))
      ];
      miss = λ w e inside m. elim (Bool-cases (v == w)) [
        | inl eq ↦
            let found = subst (λ u. get_or fs u none ≡ some (length seen)) (==→eq v w eq) self in
            absurd (let both = sym e ∙ found in cc)
        | inr ne ↦
            let other = get_or-set_ne first_seen v w (some (length seen)) none (==_false v w ne) in
            let size = length-set first_seen v (some (length seen)) in
            elim (Memᴰ.append_cases seen m) [
              | inl early ↦ h.miss w (sym other ∙ e) (omega (arith, inside, size)) early
              | inr late ↦ elim (Memᴰ.cases_cons late) [
                | inl here ↦ ==_false v w ne (sym here)
                | inr later ↦ absurd (Memᴰ.not-nil later)
              ]
            ]
      ];
      distinct =
          Distinct-append seen (v ∷ []) (h.distinct) (λ m. Memᴰ.not-nil m, tt)
            (λ x m late. elim (Memᴰ.cases_cons late) [
              | inl here ↦ h.miss v new bound (subst (λ u. Memᴰ u seen) here m)
              | inr later ↦ absurd (Memᴰ.not-nil later)
            ]);
    }
