-- ===== src/Nesting/Link.antt =====
-- The arrays that `link_all` fills.
use geo_repair.Prelude.{
  ℕ, suc, ◌+◌, ◌<◌, ◌≤◌, ◌≡◌, refl, sym, ◌∙◌, inl, inr, List, [], ◌∷◌, ◌++◌, append_assoc,
  append-nil, Option, none, some, arith, length, get_or, length-set, get_or-set_self, get_or-set_ne,
  Bool-cases, ◌==◌, ==→eq, ==_false, if◌then◌else◌,
}
use mathlib.Core.List.{Memᴰ}
use mathlib.Core.List.Memᴰ
use geo_repair.Nesting.{Forest, link, link_all}
use geo_repair.Nesting.Visit.{zeros, zeros-set}
use geo_repair.Nesting.Kids.{kids_from, roots_from, roots_from-bound}

link-kids :
    (i q : ℕ) (s : Forest) (p : ℕ) (rest : List ℕ)
    → p < length s.children
    → get_or (link i (some q) s).children p [] ++ rest
      ≡ get_or s.children p [] ++ (if q == p then i ∷ rest else rest)
unfolding link
link-kids i q s p rest h = elim (Bool-cases (q == p)) [
  | inl mine ↦
      rw
        (mine, ==→eq q p mine, get_or-set_self s.children p (get_or s.children p [] ++ i ∷ []) [] h)
        (append_assoc (get_or s.children p []) (i ∷ []) rest)
  | inr other ↦
      rw
        (
          other,
          get_or-set_ne s.children q p (get_or s.children q [] ++ i ∷ []) []
              (λ e. absurd (==_false q p other e)),
        )
        refl
]

pub link_all-kids :
    (i : ℕ) (ps : List (Option ℕ)) (s : Forest) (p : ℕ)
    → p < length s.children
    → get_or (link_all i ps s).children p [] ≡ get_or s.children p [] ++ kids_from i ps p
unfolding link_all link
link_all-kids i [] s p h = sym (append-nil (get_or s.children p []))
link_all-kids i (none ∷ ps) s p h = link_all-kids (suc i) ps (link i none s) p h
link_all-kids i (some q ∷ ps) s p h =
    link_all-kids (suc i) ps (link i (some q) s) p
      (rw (length-set s.children q (get_or s.children q [] ++ i ∷ [])) h)
    ∙ link-kids i q s p (kids_from (suc i) ps p) h

pub link_all-queue :
    (i : ℕ) (ps : List (Option ℕ)) (s : Forest)
    → (link_all i ps s).queue ≡ s.queue ++ roots_from i ps
unfolding link_all link
link_all-queue i [] s = sym (append-nil s.queue)
link_all-queue i (none ∷ ps) s =
    link_all-queue (suc i) ps (link i none s)
    ∙ append_assoc s.queue (i ∷ []) (roots_from (suc i) ps)
link_all-queue i (some q ∷ ps) s = link_all-queue (suc i) ps (link i (some q) s)

pub length-link_all :
    (i : ℕ) (ps : List (Option ℕ)) (s : Forest)
    → (length (link_all i ps s).depth ≡ length s.depth)
      × (length (link_all i ps s).children ≡ length s.children)
unfolding link_all link
length-link_all i [] s = (refl, refl)
length-link_all i (none ∷ ps) s =
    let (depth, children) = length-link_all (suc i) ps (link i none s) in
    (depth ∙ length-set s.depth i 1, children)
length-link_all i (some q ∷ ps) s =
    let (depth, children) = length-link_all (suc i) ps (link i (some q) s) in
    (depth, children ∙ length-set s.children q (get_or s.children q [] ++ i ∷ []))

-- a depth is 1 at a hole without a parent and as it was elsewhere
pub link_all-depth :
    (i : ℕ) (ps : List (Option ℕ)) (s : Forest) (j : ℕ)
    → ¬ Memᴰ j (roots_from i ps)
    → get_or (link_all i ps s).depth j 0 ≡ get_or s.depth j 0
unfolding link_all link
link_all-depth i [] s j h = refl
link_all-depth i (none ∷ ps) s j h =
    link_all-depth (suc i) ps (link i none s) j (λ m. h (Memᴰ.tail m))
    ∙ get_or-set_ne s.depth i j 1 0 (λ e. h (Memᴰ.head (sym e)))
link_all-depth i (some q ∷ ps) s j h = link_all-depth (suc i) ps (link i (some q) s) j h

pub link_all-root :
    (i : ℕ) (ps : List (Option ℕ)) (s : Forest) (j : ℕ)
    → i + length ps ≤ length s.depth
    → Memᴰ j (roots_from i ps)
    → get_or (link_all i ps s).depth j 0 ≡ 1
unfolding link_all link
link_all-root i [] s j h m = absurd (Memᴰ.not-nil m)
link_all-root i (none ∷ ps) s j h (Memᴰ.head e) =
    link_all-depth (suc i) ps (link i none s) j
      (λ m. omega (arith, roots_from-bound (suc i) ps j m, e))
    ∙ rw e (get_or-set_self s.depth i 1 0 (omega arith))
link_all-root i (none ∷ ps) s j h (Memᴰ.tail m) =
    link_all-root (suc i) ps (link i none s) j (rw (length-set s.depth i 1) (omega arith)) m
link_all-root i (some q ∷ ps) s j h m =
    link_all-root (suc i) ps (link i (some q) s) j (omega arith) m

pub link_all-zeros :
    (i : ℕ) (ps : List (Option ℕ)) (s : Forest)
    → i + length ps ≤ length s.depth
    → ((j : ℕ) → i ≤ j → get_or s.depth j 0 ≡ 0)
    → zeros (link_all i ps s).depth + length (roots_from i ps) ≡ zeros s.depth
unfolding link_all link
link_all-zeros i [] s h unknown = omega arith
link_all-zeros i (none ∷ ps) s h unknown = omega (
  arith,
  zeros-set s.depth i 0 (omega arith) (unknown i (omega arith)),
  link_all-zeros (suc i) ps (link i none s) (rw (length-set s.depth i 1) (omega arith))
      (λ j le. get_or-set_ne s.depth i j 1 0 (λ e. omega (arith, e)) ∙ unknown j (omega arith)),
)
link_all-zeros i (some q ∷ ps) s h unknown =
    link_all-zeros (suc i) ps (link i (some q) s) (omega arith) (λ j le. unknown j (omega arith))
