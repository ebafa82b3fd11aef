-- ===== src/Wkb/Batch.antt =====
-- The two ways in which a batch of coordinates is decoded, one copy of memory and a loop.
use geo_repair.Prelude.{
  ℕ, zero, suc, ◌*◌, ◌≡◌, refl, ap, sym, Bool, true, false, ◌&&◌, List, arith, drop, same, ◌==◌,
  Bool-cases, inl, inr,
}
use geo_repair.Words.{Bytes, word_value, to_order}
use geo_repair.Geo.{Platform}
use geo_repair.Wkb.Types.{ok, err, fault, bind, bind_assoc}
use geo_repair.Wkb.Cursor.{Cursor, advance, peek}
use geo_repair.Wkb.Read.{f64_at, push_extra, bulk_coords, coord_loop, decode_batch}

to_order_self : (t : Bool) (k v : ℕ) → to_order t t k v ≡ v
unfolding to_order
to_order_self true k v = refl
to_order_self false k v = refl

same→eq : (a b : Bool) → same a b ≡ true → a ≡ b
same→eq true b h = sym h
same→eq false true h = cc
same→eq false false h = refl

module _ (p : Platform) where
  f64_at_native :
      (k : ℕ) (bytes : Bytes)
      → f64_at p p.target_le k bytes ≡ bind (peek k 8 bytes) λ b. ok (word_value p.target_le b)
  unfolding f64_at
  f64_at_native k bytes =
      elim (peek k 8 bytes)
        as (λ r.
          bind r (λ b. ok (to_order p.target_le p.target_le 8 (word_value p.target_le b)))
          ≡ bind r (λ b. ok (word_value p.target_le b))) [
            | ok b ↦ ap ok (to_order_self p.target_le 8 (word_value p.target_le b))
            | err e ↦ refl
            | fault ↦ refl
          ]

  coord_loop-bulk_coords :
      (n : ℕ) (bytes : Bytes) (extra : List ℕ)
      → coord_loop p p.target_le 2 n bytes extra
        ≡ bind (bulk_coords p n bytes) (λ cs. ok (cs, extra))
  unfolding coord_loop bulk_coords push_extra
  coord_loop-bulk_coords zero bytes extra = refl
  coord_loop-bulk_coords (suc n) bytes extra =
      rw
        (
          f64_at_native 0 bytes,
          f64_at_native 8 bytes,
          coord_loop-bulk_coords n (drop 16 bytes) extra,
        )
        (simp bind_assoc)

  -- A batch of coordinates is decoded to the same result, faults included, by whichever of its two
  -- ways the reader takes: what `decode_batch` gives is what the loop over coordinates gives.
  pub decode_batch-coord_loop :
      (n : ℕ) (le : Bool) (dims : ℕ) (c : Cursor)
      → decode_batch p n le dims c
        ≡ bind
            (coord_loop p le dims n c.unread c.extra_coords)
            (λ (cs, extra). ok (cs, record (advance (n * (dims * 8)) c) { extra_coords = extra }))
  unfolding decode_batch
  decode_batch-coord_loop n le dims c = elim (Bool-cases (same le p.target_le && dims == 2)) [
    | inl fast ↦
        let e : le ≡ p.target_le = same→eq le p.target_le (ground arith) in
        let two : dims ≡ 2 = ground arith in
        rw fast (rw (e, two, coord_loop-bulk_coords n c.unread c.extra_coords) (simp bind_assoc))
    | inr slow ↦ rw slow
  ]
