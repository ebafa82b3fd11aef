-- ===== src/Wkb/Robust.antt =====
-- The entry points of io/wkb/read.rs on any bytes.
use geo_repair.Prelude.{
  ℕ, suc, ◌+◌, ◌≤◌, ◌≡◌, refl, ap, ◌∙◌, ◌⊎◌, inl, inr, List, [], ◌++◌, Option, arith, length,
  length-append, Bool-cases, ◌==◌,
}
use geo_repair.Words.{Bytes}
use geo_repair.Geo.{Geometry, Platform}
use geo_repair.Wkb.Types.{WkbError, Result, ok, err, trailing_bytes, Dims}
use geo_repair.Wkb.Cursor.{start}
use geo_repair.Wkb.Reads.{cursor}
use geo_repair.Wkb.Read.{max_wkb_nesting}
use geo_repair.Wkb.Reader.{read_top, read_wkb, read_ewkb, estimate_wkb_size}
use geo_repair.Wkb.Sound.{Takes, takes, refuses, takes_here}
use geo_repair.Wkb.SoundReader.{read_geometry_inner-Sound}

-- A result that is a value with `P`, or an error of the format: no panic and no read outside.
abbrev pub Settles {ℓ κ} : {A : Type ℓ} → (A → Type κ) → Result A → Type (ℓ ⊔ κ)
Settles {A} P r = ((a : A) × (r ≡ ok a) × P a) ⊎ ((e : WkbError) × (r ≡ err e))

module _ (p : Platform) where
  pub read_top-Takes : (buf : Bytes) → Takes 5 (read_top p) buf
  unfolding read_top
  read_top-Takes buf = read_geometry_inner-Sound p (suc max_wkb_nesting) buf

  -- a read at depth 0 from the start of a buffer
  pub read_top-start :
      (buf used rest : Bytes) (pushed : List ℕ) (r : Geometry × Option ℕ × Dims × ℕ)
      → ((at : ℕ) (more : Bytes) (extra : List ℕ)
          → read_top p (cursor at (buf ++ more) extra)
            ≡ ok (r, cursor (at + length used) (rest ++ more) (extra ++ pushed)))
      → read_top p (start buf) ≡ ok (r, cursor (length used) rest pushed)
  read_top-start buf used rest pushed r run =
      takes_here (read_top p) r buf used rest pushed run 0 []
      ∙ ap (λ n. ok (r, cursor n rest pushed)) (omega arith)

  -- On any bytes `estimate_wkb_size` gives an error, or a size of at least five bytes that the
  -- buffer has.
  pub estimate_wkb_size-Settles :
      (buf : Bytes) → Settles (λ n. (5 ≤ n) × (n ≤ length buf)) (estimate_wkb_size p buf)
  unfolding estimate_wkb_size
  estimate_wkb_size-Settles buf = elim (read_top-Takes buf) [
    | takes a used rest pushed e lo run ↦ inl (
      length used,
      rw (read_top-start buf used rest pushed a run) refl,
      (lo, rw e (omega (arith, length-append used rest))),
    )
    | refuses x run ↦ inr (x, rw (run 0 []))
  ]

  -- On any bytes `read_ewkb` gives an error, or a geometry from five bytes or more.
  pub read_ewkb-Settles : (buf : Bytes) → Settles (λ _. 5 ≤ length buf) (read_ewkb p buf)
  unfolding read_ewkb
  read_ewkb-Settles buf = elim (read_top-Takes buf) [
    | takes (g, srid, dims, code) used rest pushed e lo run ↦ inl (
      record { geometry = g; srid = srid; dims = dims; extra_coords = pushed },
      rw (read_top-start buf used rest pushed (g, srid, dims, code) run) refl,
      rw e (omega (arith, length-append used rest)),
    )
    | refuses x run ↦ inr (x, rw (run 0 []))
  ]

  -- On any bytes `read_wkb` gives an error, or a geometry from five bytes or more.
  pub read_wkb-Settles : (buf : Bytes) → Settles (λ _. 5 ≤ length buf) (read_wkb p buf)
  unfolding read_wkb
  read_wkb-Settles buf = elim (read_top-Takes buf) [
    | takes (g, srid, dims, code) used rest pushed e lo run ↦
        let long : 5 ≤ length buf = rw e (omega (arith, length-append used rest)) in
        let here = read_top-start buf used rest pushed (g, srid, dims, code) run in
        elim (Bool-cases (length used == length buf)) [
          | inl all ↦ inl (g, rw (here, all) refl, long)
          | inr part ↦ inr (trailing_bytes (length used) (length buf), rw (here, part) refl)
        ]
    | refuses x run ↦ inr (x, rw (run 0 []))
  ]
