-- ===== src/Wkb/Coords.antt =====
-- Coordinates as the EWKB writer writes them and the batch reader reads them.
use geo_repair.Prelude.{
  ℕ, suc, ◌+◌, ◌*◌, ◌≤◌, ◌≡◌, refl, sym, ap, ◌∙◌, Bool, true, false, ◌&&◌, ◌||◌, List, [], ◌∷◌,
  ◌++◌, append-nil, append_assoc, arith, length, length-append, take, drop, All, All-take, All-drop,
  take-append-drop, length-take, length-drop, drop-length_append, ltb-false,
}
use mathlib.Core.Path.{subst}
use native.Mathlib.Nat.{mul_assoc}
use geo_repair.Words.{Bytes, length-word_bytes}
use geo_repair.Geo.{Coord, Platform}
use geo_repair.Wkb.Types.{ok, bind, Dims, coord_count, bit}
use geo_repair.Wkb.Read.{f64_at, push_m, push_extra, coord_loop, read_coords_batch}
use geo_repair.Wkb.Write.{write_f64}
use geo_repair.Wkb.WriteEwkb.{is_empty_coord, write_coord_ewkb, write_coords_ewkb}
use geo_repair.Wkb.Reads.{Reads, f64_at-append}
use geo_repair.Wkb.Batch.{decode_batch-coord_loop}
use geo_repair.Wkb.Trips.{IsF64, RoundTrips}

-- how many extra ordinates a coordinate has
abbrev pub extra_count : Dims → ℕ
extra_count d = bit d.has_z + bit d.has_m

-- Ordinates are bit patterns, and a coordinate with extra ordinates is no empty point.
abbrev pub CoordFits : Dims → Coord → Type 0
CoordFits d c = IsF64 c.x × IsF64 c.y × (((d.has_z || d.has_m) && is_empty_coord c) ≡ false)

coord_count-le : (d : Dims) → coord_count d ≤ 4
coord_count-le d = ground arith

-- words of 8 bytes, one behind the other
abbrev f64s : Bool → List ℕ → Bytes → Bytes
f64s le [] rest = rest
f64s le (v ∷ vs) rest = write_f64 le v ++ f64s le vs rest

length-write_f64 : (le : Bool) (v : ℕ) → length (write_f64 le v) ≡ 8
unfolding write_f64
length-write_f64 le v = length-word_bytes le 8 v

length-f64s :
    (le : Bool) (vs : List ℕ) (rest : Bytes)
    → length (f64s le vs rest) ≡ length vs * 8 + length rest
length-f64s le [] rest = omega arith
length-f64s le (v ∷ vs) rest = omega (
  arith,
  length-append (write_f64 le v) (f64s le vs rest),
  length-write_f64 le v,
  length-f64s le vs rest,
)

f64s-append :
    (le : Bool) (vs ws : List ℕ) (rest : Bytes)
    → f64s le (vs ++ ws) rest ≡ f64s le vs (f64s le ws rest)
f64s-append le [] ws rest = refl
f64s-append le (v ∷ vs) ws rest = ap (λ t. write_f64 le v ++ t) (f64s-append le vs ws rest)

f64s-split : (le : Bool) (vs : List ℕ) (rest : Bytes) → f64s le vs rest ≡ f64s le vs [] ++ rest
f64s-split le [] rest = refl
f64s-split le (v ∷ vs) rest =
    ap (λ t. write_f64 le v ++ t) (f64s-split le vs rest)
    ∙ sym (append_assoc (write_f64 le v) (f64s le vs []) rest)

drop-f64s :
    (le : Bool) (k : ℕ) (vs : List ℕ) (rest : Bytes)
    → length vs * 8 ≡ k
    → drop k (f64s le vs rest) ≡ rest
drop-f64s le k vs rest h =
    rw (f64s-split le vs rest)
      (drop-length_append k (f64s le vs []) rest (omega (arith, length-f64s le vs [])))

module _ (p : Platform) (le : Bool) where
  -- the word behind `front`
  f64_at-f64s :
      (k v : ℕ) (front : List ℕ) (rest : Bytes)
      → length front * 8 ≡ k
      → IsF64 v
      → f64_at p le k (f64s le front (write_f64 le v ++ rest)) ≡ ok v
  f64_at-f64s k v front rest h fits =
      rw (f64s-split le front (write_f64 le v ++ rest)) (
        f64_at-append p le k v (f64s le front []) rest (omega (arith, length-f64s le front []))
          fits)

  module _ (c : Coord) where
    write_coord-eq :
        (z m : Bool) (es more : List ℕ)
        → CoordFits (record { has_z = z; has_m = m }) c
        → length es ≡ bit z + bit m
        → write_coord_ewkb p (record { has_z = z; has_m = m }) le c (es ++ more)
          ≡ (f64s le (c.x ∷ c.y ∷ es) [], more)
    unfolding write_coord_ewkb
    write_coord-eq false false [] more h e = refl
    write_coord-eq false false (a ∷ es) more h e = absurd (omega arith)
    write_coord-eq true false [] more h e = absurd (omega arith)
    write_coord-eq true false (a ∷ []) more (hx, hy, h) e = rw h
    write_coord-eq true false (a ∷ a' ∷ es) more h e = absurd (omega arith)
    write_coord-eq false true [] more h e = absurd (omega arith)
    write_coord-eq false true (a ∷ []) more (hx, hy, h) e = rw h (rw append-nil)
    write_coord-eq false true (a ∷ a' ∷ es) more h e = absurd (omega arith)
    write_coord-eq true true [] more h e = absurd (omega arith)
    write_coord-eq true true (a ∷ []) more h e = absurd (omega arith)
    write_coord-eq true true (a ∷ a' ∷ []) more (hx, hy, h) e = rw h (rw append-nil)
    write_coord-eq true true (a ∷ a' ∷ a'' ∷ es) more h e = absurd (omega arith)

    push_extra-eq :
        (dims : ℕ) (es : List ℕ) (rest : Bytes) (extra : List ℕ)
        → 2 + length es ≡ dims
        → dims ≤ 4
        → All IsF64 es
        → push_extra p le dims (f64s le (c.x ∷ c.y ∷ es) rest) extra ≡ ok (extra ++ es)
    unfolding push_extra push_m
    push_extra-eq dims [] rest extra h four all = rw (ltb-false 2 dims (omega arith), append-nil)
    push_extra-eq dims (a ∷ []) rest extra h four all =
        rw (← h) (rw (f64_at-f64s 16 a (c.x ∷ c.y ∷ []) rest refl all.0))
    push_extra-eq dims (a ∷ a' ∷ []) rest extra h four all = rw (← h) (
        rw (
          f64_at-f64s 16 a (c.x ∷ c.y ∷ []) (write_f64 le a' ++ rest) refl all.0,
          f64_at-f64s 24 a' (c.x ∷ c.y ∷ a ∷ []) rest refl all.1.0,
        ))
    push_extra-eq dims (a ∷ a' ∷ a'' ∷ es) rest extra h four all = absurd (omega arith)

    coord_loop-step :
        (dims n : ℕ) (es : List ℕ) (rest : Bytes) (extra : List ℕ)
        → 2 + length es ≡ dims
        → dims ≤ 4
        → IsF64 c.x
        → IsF64 c.y
        → All IsF64 es
        → coord_loop p le dims (suc n) (f64s le (c.x ∷ c.y ∷ es) rest) extra
          ≡ bind (coord_loop p le dims n rest (extra ++ es)) (λ (cs, out). ok (c ∷ cs, out))
    unfolding coord_loop
    coord_loop-step dims n es rest extra h four hx hy all = rw (
      f64_at-f64s 0 c.x [] (f64s le (c.y ∷ es) rest) refl hx,
      f64_at-f64s 8 c.y (c.x ∷ []) (f64s le es rest) refl hy,
      push_extra-eq dims es rest extra h four all,
      drop-f64s le (dims * 8) (c.x ∷ c.y ∷ es) rest (omega arith),
    )

module _ (p : Platform) (le : Bool) (dims : Dims) where
  -- What the loop of the writer gives, and what the loop of the reader makes of it.
  record Written (cs : List Coord) (es more : List ℕ) : Type 0 where
    words : List ℕ
    written : write_coords_ewkb p dims le cs (es ++ more) ≡ (f64s le words [], more)
    count : length words ≡ length cs * coord_count dims
    loop :
        (rest : Bytes) (extra : List ℕ)
        → coord_loop p le (coord_count dims) (length cs) (f64s le words rest) extra
          ≡ ok (cs, extra ++ es)

  Written-cons :
      (c : Coord) (cs : List Coord) (es es' more : List ℕ)
      → CoordFits dims c
      → length es ≡ extra_count dims
      → All IsF64 es
      → Written cs es' more
      → Written (c ∷ cs) (es ++ es') more
  unfolding write_coords_ewkb
  Written-cons c cs es es' more h e all w = record {
    words = (c.x ∷ c.y ∷ es) ++ w.words;
    written = rw (append_assoc es es' more) (
        rw
          (
            write_coord-eq p le c dims.has_z dims.has_m es (es' ++ more) h e,
            w.written,
            f64s-append le (c.x ∷ c.y ∷ es) w.words [],
          )
          (ap (λ t. (t, more)) (sym (f64s-split le (c.x ∷ c.y ∷ es) (f64s le w.words [])))));
    count = omega (arith, length-append es w.words, w.count, e);
    loop = λ rest extra. rw (f64s-append le (c.x ∷ c.y ∷ es) w.words rest) (
        rw (
          coord_loop-step p le c (coord_count dims) (length cs) es (f64s le w.words rest) extra
              (omega (arith, e)) (coord_count-le dims) h.0 h.1 all,
          w.loop rest (extra ++ es),
          append_assoc extra es es',
        ));
  }

  coords_given :
      (cs : List Coord) (es more : List ℕ)
      → All (CoordFits dims) cs
      → length es ≡ length cs * extra_count dims
      → All IsF64 es
      → Written cs es more
  unfolding write_coords_ewkb coord_loop
  coords_given [] [] more h e all = record {
    words = [];
    written = refl;
    count = omega arith;
    loop = λ rest extra. rw append-nil;
  }
  coords_given [] (x ∷ es) more h e all = absurd (omega arith)
  coords_given (c ∷ cs) es more (hc, h) e all =
      let k = extra_count dims in
      let room : k ≤ length es = omega arith in
      let rest : length (drop k es) ≡ length cs * k = omega (arith, length-drop k es) in
      subst (λ xs. Written (c ∷ cs) xs more) (take-append-drop k es)
        (Written-cons c cs (take k es) (drop k es) more hc (length-take k es room)
          (All-take IsF64 k es all)
          (coords_given cs (drop k es) more h rest (All-drop IsF64 k es all)))

  -- the batch reader on bytes that the loop decodes
  read_coords_batch-Reads :
      (cs : List Coord) (es more : List ℕ) (w : Written cs es more)
      → Reads (read_coords_batch p (length cs) le (coord_count dims)) cs (f64s le w.words []) es
  unfolding read_coords_batch
  read_coords_batch-Reads cs es more w pos rest extra =
      let bytes = f64s le w.words [] in
      let size = length cs * (coord_count dims * 8) in
      let len : length bytes ≡ size =
        omega
          (arith, length-f64s le w.words [], w.count, mul_assoc (length cs) (coord_count dims) 8) in
      rw
        (ltb-false (pos + length (bytes ++ rest)) (pos + size)
          (omega (arith, len, length-append bytes rest)))
        (rw (decode_batch-coord_loop p (length cs) le (coord_count dims)) (
          rw (← f64s-split le w.words rest) (
            rw (
              w.loop rest extra,
              drop-f64s le size w.words rest
                  (omega (arith, w.count, mul_assoc (length cs) (coord_count dims) 8)),
              len,
            ))))

  -- A run of coordinates, written and read as a batch.
  pub RoundTrips-coords :
      (cs : List Coord)
      → All (CoordFits dims) cs
      → RoundTrips
          (write_coords_ewkb p dims le cs)
          (read_coords_batch p (length cs) le (coord_count dims))
          cs
          (length cs * extra_count dims)
          0
  RoundTrips-coords cs h es more e all =
      let w = coords_given cs es more h e all in
      (f64s le w.words [], w.written, omega arith, read_coords_batch-Reads cs es more w)
