-- ===== src/Cleanup/Ends.antt =====
-- The sequences that `edit_sequence` of cleanup.rs gives.
use geo_repair.Prelude.{
  drop_last, last_or, ℕ, suc, ◌≤◌, ◌<◌, ◌≡◌, refl, sym, ap, ◌⊎◌, inl, inr, true, false, List, [],
  ◌∷◌, ◌++◌, some, All, All-append, Bool-cases, leb-false, arith, length, ltb, leb,
}
use mathlib.Core.Option.{some-injective}
use geo_repair.Geo.{Coord}
use geo_repair.Floats.{Floats, coord_eq, finite_coord}
use geo_repair.Cleanup.{
  keep_from, thin, is_skipped, is_repeated, filter_sequence, lengthen, restore_end, edit_filtered,
  edit_sequence, within, more_than_one,
}

last_or-append : (d c : Coord) (cs : List Coord) → last_or d (cs ++ c ∷ []) ≡ c
last_or-append d c [] = refl
last_or-append d c (x ∷ cs) = last_or-append x c cs

drop_last-All : (P : Coord → Type 0) (cs : List Coord) → All P cs → All P (drop_last cs)
drop_last-All P [] h = tt
drop_last-All P (x ∷ []) h = tt
drop_last-All P (x ∷ y ∷ cs) (p, h) = (p, drop_last-All P (y ∷ cs) h)

length-drop_last : (x : Coord) (cs : List Coord) → length (drop_last (x ∷ cs)) ≡ length cs
length-drop_last x [] = refl
length-drop_last x (y ∷ cs) = ap suc (length-drop_last y cs)

abbrev pub IsFinite : Coord → Type 0
IsFinite c = finite_coord c ≡ true

module _ (f : Floats) (tolerance : ℕ) where
  keep_from-IsFinite :
      (last : Coord) (cs : List Coord) → All IsFinite (keep_from (is_skipped f tolerance) last cs)
  unfolding keep_from is_skipped
  keep_from-IsFinite last [] = tt
  keep_from-IsFinite last (c ∷ cs) = elim (Bool-cases (finite_coord c)) [
    | inl finite ↦ elim (Bool-cases (is_repeated f tolerance last c)) [
      | inl repeated ↦ rw (finite, repeated) (keep_from-IsFinite last cs)
      | inr new ↦ rw (finite, new) (finite, keep_from-IsFinite c cs)
    ]
    | inr invalid ↦ rw invalid (keep_from-IsFinite last cs)
  ]

  filter_sequence-IsFinite : (cs : List Coord) → All IsFinite (filter_sequence f tolerance cs)
  unfolding filter_sequence thin
  filter_sequence-IsFinite [] = tt
  filter_sequence-IsFinite (c ∷ cs) = elim (Bool-cases (finite_coord c)) [
    | inl finite ↦ rw finite (finite, keep_from-IsFinite c cs)
    | inr invalid ↦ rw invalid (filter_sequence-IsFinite cs)
  ]

  lengthen-All :
      (min_len : ℕ) (end : Coord) (filt : List Coord)
      → All IsFinite filt
      → All IsFinite (lengthen f min_len end filt)
  unfolding lengthen
  lengthen-All min_len end filt h = elim (Bool-cases (ltb (length filt) min_len)) [
    | inl short ↦ elim (Bool-cases (finite_coord end)) [
      | inl finite ↦ rw (short, finite) (All-append IsFinite filt (end ∷ []) h (finite, tt))
      | inr invalid ↦ rw (short, invalid) h
    ]
    | inr long ↦ rw long h
  ]

  -- the last coordinate is the end, or equal to it where the end is finite
  abbrev pub EndsAt : Coord → List Coord → Type 0
  EndsAt end out =
      finite_coord end ≡ true → (last_or end out ≡ end) ⊎ (coord_eq f end (last_or end out) ≡ true)

  Settled : Coord → List Coord → Type 0
  Settled end out = All IsFinite out × EndsAt end out

  append_end-Settled :
      (end : Coord) (cs : List Coord)
      → finite_coord end ≡ true
      → All IsFinite cs
      → Settled end (cs ++ end ∷ [])
  unfolding Settled
  append_end-Settled end cs finite h =
      (All-append IsFinite cs (end ∷ []) h (finite, tt), λ _. inl (last_or-append end end cs))

  equal_end-Settled :
      (end : Coord) (cs : List Coord)
      → coord_eq f end (last_or end cs) ≡ true
      → All IsFinite cs
      → Settled end cs
  unfolding Settled
  equal_end-Settled end cs same_end h = (h, λ _. inr same_end)

  invalid_end-Settled :
      (end : Coord) (cs : List Coord) → finite_coord end ≡ false → All IsFinite cs → Settled end cs
  unfolding Settled
  invalid_end-Settled end cs invalid h = (h, λ finite. absurd (cc))

  restore_end-Settled :
      (end : Coord) (filt : List Coord)
      → All IsFinite filt
      → Settled end (restore_end f tolerance end filt)
  unfolding restore_end
  restore_end-Settled end filt h = elim (Bool-cases (finite_coord end)) [
    | inl finite ↦ elim (Bool-cases (coord_eq f end (last_or end filt))) [
      | inl same_end ↦ rw (finite, same_end) (equal_end-Settled end filt same_end h)
      | inr moved ↦ elim (Bool-cases (within f tolerance (last_or end filt) end)) [
        | inl near ↦
            rw (finite, moved, near)
              (append_end-Settled end (drop_last filt) finite (drop_last-All IsFinite filt h))
        | inr far ↦ rw (finite, moved, far) (append_end-Settled end filt finite h)
      ]
    ]
    | inr invalid ↦ rw invalid (invalid_end-Settled end filt invalid h)
  ]

  leb→length : (cs : List Coord) → leb (length cs) 1 ≡ false → 2 ≤ length cs
  leb→length cs h = ground arith

  more_than_one-some :
      (end : Coord) (cs out : List Coord)
      → Settled end cs
      → more_than_one f cs ≡ some out
      → Settled end out × (2 ≤ length out)
  more_than_one-some end cs out h = elim (Bool-cases (leb (length cs) 1)) [
    | inl short ↦ rw short (λ e. absurd (cc))
    | inr long ↦ rw long (λ e. rw (sym (some-injective _ _ e)) (h, leb→length cs long))
  ]

  edit_filtered-some :
      (min_len : ℕ) (end : Coord) (filt out : List Coord)
      → All IsFinite filt
      → edit_filtered f min_len tolerance end filt ≡ some out
      → Settled end out × (2 ≤ length out)
  unfolding edit_filtered
  edit_filtered-some min_len end filt out h = elim (Bool-cases (leb (length filt) 1)) [
    | inl short ↦ rw short (λ e. absurd (cc))
    | inr long ↦ rw long (
        more_than_one-some end (restore_end f tolerance end (lengthen f min_len end filt)) out
          (restore_end-Settled end (lengthen f min_len end filt) (lengthen-All min_len end filt h)))
  ]

  -- A sequence of more than the least length is left out, or gives at least two coordinates, all
  -- finite, of which the last is the original end or equal to it, where the original end is finite.
  pub edit_sequence_lem :
      (c : Coord) (cs : List Coord) (min_len : ℕ) (out : List Coord)
      → min_len < length (c ∷ cs)
      → edit_sequence f (c ∷ cs) min_len tolerance ≡ some out
      → (All IsFinite out × EndsAt (last_or c cs) out) × (2 ≤ length out)
  unfolding edit_sequence Settled
  edit_sequence_lem c cs min_len out long = rw (leb-false (length (c ∷ cs)) min_len long) (
      edit_filtered-some min_len (last_or c cs) (filter_sequence f tolerance (c ∷ cs)) out
        (filter_sequence-IsFinite (c ∷ cs)))
