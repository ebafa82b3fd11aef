-- ===== src/Nesting/Visit.antt =====
-- What the loop over the children of a hole does to the arrays.
use geo_repair.Prelude.{
  ℕ, zero, suc, ◌+◌, ◌<◌, ◌≡◌, refl, sym, ap, ◌∙◌, List, [], ◌∷◌, ◌++◌, append_assoc, append-nil,
  arith, length, get_or, set, length-set, get_or-set_self, get_or-set_ne, Distinct,
}
use mathlib.Core.List.{Memᴰ}
use mathlib.Core.List.Memᴰ
use mathlib.Core.Path.{subst}
use geo_repair.Nesting.{Forest, visit}

-- the holes that no depth is known of
abbrev pub zeros : List ℕ → ℕ
zeros [] = 0
zeros (zero ∷ ds) = suc (zeros ds)
zeros (suc d ∷ ds) = zeros ds

add_one : (d : ℕ) → d + 1 ≡ suc d
add_one d = omega arith

pub zeros-set :
    (ds : List ℕ) (i d : ℕ)
    → i < length ds
    → get_or ds i 0 ≡ 0
    → zeros (set ds i (d + 1)) + 1 ≡ zeros ds
zeros-set [] i d h z = absurd (omega arith)
zeros-set (zero ∷ ds) zero d h z = let e = ap (λ x. zeros (x ∷ ds)) (add_one d) in omega (arith, e)
zeros-set (suc x ∷ ds) zero d h z = absurd (omega (arith, z))
zeros-set (zero ∷ ds) (suc i) d h z = omega (arith, zeros-set ds i d (omega arith) z)
zeros-set (suc x ∷ ds) (suc i) d h z = zeros-set ds i d (omega arith) z

pub visit-queue : (p : ℕ) (cs : List ℕ) (s : Forest) → (visit p cs s).queue ≡ s.queue ++ cs
unfolding visit
visit-queue p [] s = sym (append-nil s.queue)
visit-queue p (c ∷ cs) s = visit-queue p cs _ ∙ append_assoc s.queue (c ∷ []) cs

pub visit-children : (p : ℕ) (cs : List ℕ) (s : Forest) → (visit p cs s).children ≡ s.children
unfolding visit
visit-children p [] s = refl
visit-children p (c ∷ cs) s = visit-children p cs _

pub length-visit : (p : ℕ) (cs : List ℕ) (s : Forest) → length (visit p cs s).depth ≡ length s.depth
unfolding visit
length-visit p [] s = refl
length-visit p (c ∷ cs) s = length-visit p cs _ ∙ length-set s.depth c (get_or s.depth p 0 + 1)

pub visit_other :
    (p : ℕ) (cs : List ℕ) (s : Forest) (j : ℕ)
    → ¬ Memᴰ j cs
    → get_or (visit p cs s).depth j 0 ≡ get_or s.depth j 0
unfolding visit
visit_other p [] s j h = refl
visit_other p (c ∷ cs) s j h =
    visit_other p cs _ j (λ m. h (Memᴰ.tail m))
    ∙ get_or-set_ne s.depth c j (get_or s.depth p 0 + 1) 0 (λ e. h (Memᴰ.head (sym e)))

-- the loop that starts after `c`
abbrev reached : ℕ → ℕ → Forest → Forest
reached p c s = record s {
  depth = set s.depth c (get_or s.depth p 0 + 1);
  queue = s.queue ++ c ∷ [];
}

pub visit_member :
    (p : ℕ) (cs : List ℕ) (s : Forest) (j : ℕ)
    → Distinct cs
    → ¬ Memᴰ p cs
    → j < length s.depth
    → Memᴰ j cs
    → get_or (visit p cs s).depth j 0 ≡ get_or s.depth p 0 + 1
unfolding visit
visit_member p [] s j distinct h bound m = absurd (Memᴰ.not-nil m)
visit_member p (c ∷ cs) s j (new, distinct) h bound (Memᴰ.head e) =
    visit_other p cs (reached p c s) j (λ m. new (subst (λ x. Memᴰ x cs) e m))
    ∙ ap (λ x. get_or (set s.depth x (get_or s.depth p 0 + 1)) j 0) (sym e)
    ∙ get_or-set_self s.depth j (get_or s.depth p 0 + 1) 0 bound
visit_member p (c ∷ cs) s j (new, distinct) h bound (Memᴰ.tail m) =
    visit_member p cs (reached p c s) j distinct (λ k. h (Memᴰ.tail k))
      (rw (length-set s.depth c (get_or s.depth p 0 + 1)) bound) m
    ∙ ap (λ d. d + 1)
        (get_or-set_ne s.depth c p (get_or s.depth p 0 + 1) 0 (λ e. h (Memᴰ.head (sym e))))

-- each child that is reached for the first time is one of unknown depth less
pub visit-zeros :
    (p : ℕ) (cs : List ℕ) (s : Forest)
    → Distinct cs
    → ((c : ℕ) → Memᴰ c cs → (c < length s.depth) × (get_or s.depth c 0 ≡ 0))
    → zeros (visit p cs s).depth + length cs ≡ zeros s.depth
unfolding visit
visit-zeros p [] s distinct fresh = omega arith
visit-zeros p (c ∷ cs) s (new, distinct) fresh =
    let (bound, unknown) = fresh c (Memᴰ.head refl) in
    omega (
      arith,
      zeros-set s.depth c (get_or s.depth p 0) bound unknown,
      visit-zeros p cs (reached p c s) distinct (fresh_later bound),
    )
  where
    fresh_later :
        c < length s.depth
        → (x : ℕ) → Memᴰ x cs
        → (x < length (reached p c s).depth) × (get_or (reached p c s).depth x 0 ≡ 0)
    fresh_later bound x m = (
      rw (length-set s.depth c (get_or s.depth p 0 + 1)) ((fresh x (Memᴰ.tail m)).0),
      get_or-set_ne s.depth c x (get_or s.depth p 0 + 1) 0
            (λ e. new (subst (λ y. Memᴰ y cs) (sym e) m))
          ∙ (fresh x (Memᴰ.tail m)).1,
    )
