-- ===== src/Cleanup/Tests.antt =====
-- The theorems on cleanup.rs at a sample line.
use geo_repair.Prelude.{ℕ, ◌≡◌, refl, ◌≤◌, ◌⊎◌, true, false, List, [], ◌∷◌, All, length, arith}
use mathlib.Core.List.{Memᴰ}
use geo_repair.Geo.{Coord}
use geo_repair.Floats.{coord_eq, finite_coord}
use geo_repair.Floats.Whole.{whole}
use geo_repair.Cleanup.{remove_repeated_coords, edit_sequence}
use geo_repair.Cleanup.Kept.{
  Neighbours, drops, remove_repeated_coords-remove_repeated_coords, remove_repeated_coords-Covered,
}
use geo_repair.Cleanup.Ends.{IsFinite, EndsAt, edit_sequence_lem}

abbrev at : ℕ → Coord
at n = record { x = n; y = n }

abbrev sample_line : List Coord
sample_line = at 1 ∷ at 2 ∷ at 9 ∷ at 9 ∷ at 10 ∷ []

abbrev tidy_line : List Coord
tidy_line = at 1 ∷ at 10 ∷ []

remove_repeated_coords_idempotent_example :
    remove_repeated_coords whole (remove_repeated_coords whole sample_line 3) 3
    ≡ remove_repeated_coords whole sample_line 3
remove_repeated_coords_idempotent_example =
    remove_repeated_coords-remove_repeated_coords whole 3 sample_line

remove_repeated_coords-Covered_example :
    Neighbours (λ p c. drops whole 3 p c ≡ false) (remove_repeated_coords whole sample_line 3)
    × All
        (λ c.
          Memᴰ c (remove_repeated_coords whole sample_line 3)
          ⊎ ((p : Coord) × Memᴰ p (remove_repeated_coords whole sample_line 3)
              × (drops whole 3 p c ≡ true)))
        sample_line
remove_repeated_coords-Covered_example = remove_repeated_coords-Covered whole 3 sample_line

edit_sequence_lem_example :
    (All IsFinite tidy_line × EndsAt whole 3 (at 10) tidy_line) × (2 ≤ length tidy_line)
unfolding edit_sequence geo_repair.Cleanup.edit_filtered geo_repair.Cleanup.filter_sequence
    finite_coord geo_repair.Cleanup.thin geo_repair.Cleanup.keep_from geo_repair.Cleanup.is_skipped
    geo_repair.Cleanup.is_repeated coord_eq geo_repair.Cleanup.within geo_repair.Cleanup.restore_end
    geo_repair.Cleanup.lengthen
edit_sequence_lem_example =
    edit_sequence_lem whole 3 (at 1) (at 2 ∷ at 9 ∷ at 9 ∷ at 10 ∷ []) 2 tidy_line (omega arith)
      refl
