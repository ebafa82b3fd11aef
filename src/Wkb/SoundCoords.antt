-- ===== src/Wkb/SoundCoords.antt =====
-- The batch reader of io/wkb/read.rs on any bytes.
use geo_repair.Prelude.{
  ℕ, zero, suc, ◌+◌, ◌-◌, ◌*◌, ◌≤◌, ◌≡◌, sym, Bool, List, [], ◌∷◌, ◌++◌, append-nil, append_assoc,
  arith, length, length-append, take, drop, take-append-drop, length-take, length-drop, drop-append,
  ltb, ltb-false, ltb→lt, lt→ltb, ltb→le, Bool-cases, inl, inr, ◌==◌, ◌||◌,
}
use geo_repair.Words.{Bytes, word_value, to_order}
use geo_repair.Geo.{Coord, LineString, Platform, polygon_new}
use geo_repair.Wkb.Types.{ok, unexpected_eof, invalid_ring}
use geo_repair.Wkb.Cursor.{pure, ◌>>=◌}
use geo_repair.Wkb.Read.{
  f64_at, push_m, push_extra, coord_loop, read_coords_batch, swap_remove_first, read_point_inner,
  read_linestring_inner, check_ring, read_ring, read_rings, read_polygon_inner, repeat, read_u32,
  read_bounded_count,
}
use geo_repair.Wkb.Batch.{decode_batch-coord_loop}
use geo_repair.Wkb.Sound.{
  takes, refuses, Sound, Sound-pure, Sound-fail, Sound-le, Sound-bind, Sound-repeat, peek-eq,
  peek-more, read_u32-Sound, read_bounded_count-Sound,
}

module _ (p : Platform) (le : Bool) where
  f64_at-eq :
      (k : ℕ) (bytes : Bytes)
      → k + 8 ≤ length bytes
      → (v : ℕ) × ((more : Bytes) → f64_at p le k (bytes ++ more) ≡ ok v)
  unfolding f64_at
  f64_at-eq k bytes h =
      let v = to_order p.target_le le 8 (word_value p.target_le (take 8 (drop k bytes))) in
      (v, λ more. rw (peek-more k 8 bytes more h, peek-eq k 8 bytes h))

  -- the ordinates that one coordinate pushes
  push_extra-eq :
      (dims : ℕ) (bytes : Bytes)
      → dims * 8 ≤ length bytes
      → (vs : List ℕ) × ((more : Bytes) (extra : List ℕ)
          → push_extra p le dims (bytes ++ more) extra ≡ ok (extra ++ vs))
  unfolding push_extra push_m
  push_extra-eq dims bytes h = elim (Bool-cases (ltb 2 dims)) [
    | inr two ↦ ([], λ more extra. rw (two, append-nil))
    | inl three ↦
        let more_than_two = ltb→lt 2 dims three in
        let (z, at_z) = f64_at-eq 16 bytes (omega arith) in
        elim (Bool-cases (ltb 3 dims)) [
          | inr only ↦ (z ∷ [], λ more extra. rw (three, at_z more, only))
          | inl four ↦
              let more_than_three = ltb→lt 3 dims four in
              let (m, at_m) = f64_at-eq 24 bytes (omega arith) in
              (z ∷ m ∷ [], λ more extra. rw (three, at_z more, four, at_m more))
        ]
  ]

  coord_loop-eq :
      (n dims : ℕ) (bytes : Bytes)
      → 2 ≤ dims
      → n * (dims * 8) ≤ length bytes
      → (cs : List Coord) × (vs : List ℕ) × ((more : Bytes) (extra : List ℕ)
          → coord_loop p le dims n (bytes ++ more) extra ≡ ok (cs, extra ++ vs))
  unfolding coord_loop
  coord_loop-eq zero dims bytes h room = ([], [], λ more extra. rw append-nil)
  coord_loop-eq (suc n) dims bytes h room =
      let one : dims * 8 ≤ length bytes = omega arith in
      let (x, at_x) = f64_at-eq 0 bytes (omega arith) in
      let (y, at_y) = f64_at-eq 8 bytes (omega arith) in
      let (vs, pushes) = push_extra-eq dims bytes one in
      let rest : n * (dims * 8) ≤ length (drop (dims * 8) bytes) =
        omega (arith, length-drop (dims * 8) bytes) in
      let (cs, ws, loops) = coord_loop-eq n dims (drop (dims * 8) bytes) h rest in
      (
        record { x = x; y = y } ∷ cs,
        vs ++ ws,
        λ more extra. rw (
          at_x more,
          at_y more,
          pushes more extra,
          drop-append (dims * 8) bytes more one,
          loops more (extra ++ vs),
          append_assoc extra vs ws,
        ),
      )

  coord_loop_one :
      (dims : ℕ) (bytes : Bytes)
      → 2 ≤ dims
      → 1 * (dims * 8) ≤ length bytes
      → (c : Coord) × (vs : List ℕ) × ((more : Bytes) (extra : List ℕ)
          → coord_loop p le dims 1 (bytes ++ more) extra ≡ ok (c ∷ [], extra ++ vs))
  unfolding coord_loop
  coord_loop_one dims bytes h room =
      let (x, at_x) = f64_at-eq 0 bytes (omega arith) in
      let (y, at_y) = f64_at-eq 8 bytes (omega arith) in
      let (vs, pushes) = push_extra-eq dims bytes (omega arith) in
      (record { x = x; y = y }, vs, λ more extra. rw (at_x more, at_y more, pushes more extra))

  pub read_coords_batch-Sound : (n dims : ℕ) → 2 ≤ dims → Sound 0 (read_coords_batch p n le dims)
  unfolding read_coords_batch
  read_coords_batch-Sound n dims h unread =
      let size = n * (dims * 8) in
      elim (Bool-cases (ltb (length unread) size)) [
        | inl short ↦ refuses unexpected_eof (λ pos extra. rw (
            lt→ltb (pos + length unread) (pos + size)
              (omega (arith, ltb→lt (length unread) size short))))
        | inr long ↦
            let room : size ≤ length unread = ltb→le (length unread) size long in
            let (cs, vs, loops) = coord_loop-eq n dims unread h room in
            takes cs (take size unread) (drop size unread) vs (sym (take-append-drop size unread))
              (omega arith)
              (λ pos more extra.
                rw
                  (ltb-false (pos + length (unread ++ more)) (pos + size)
                    (omega (arith, length-append unread more)))
                  (rw (decode_batch-coord_loop p n le dims) (
                    rw (
                      loops more extra,
                      drop-append size unread more room,
                      length-take size unread room,
                    ))))
      ]

  pub read_point_inner-Sound : (dims : ℕ) → 2 ≤ dims → Sound 0 (read_point_inner p le dims)
  unfolding read_point_inner swap_remove_first read_coords_batch
  read_point_inner-Sound dims h unread =
      let size = 1 * (dims * 8) in
      elim (Bool-cases (ltb (length unread) size)) [
        | inl short ↦ refuses unexpected_eof (λ pos extra. rw (
            lt→ltb (pos + length unread) (pos + size)
              (omega (arith, ltb→lt (length unread) size short))))
        | inr long ↦
            let room : size ≤ length unread = ltb→le (length unread) size long in
            let (c, vs, loops) = coord_loop_one dims unread h room in
            takes c (take size unread) (drop size unread) vs (sym (take-append-drop size unread))
              (omega arith)
              (λ pos more extra.
                rw
                  (ltb-false (pos + length (unread ++ more)) (pos + size)
                    (omega (arith, length-append unread more)))
                  (rw (decode_batch-coord_loop p 1 le dims) (
                    rw (
                      loops more extra,
                      drop-append size unread more room,
                      length-take size unread room,
                    ))))
      ]

  pub read_linestring_inner-Sound :
      (dims : ℕ) → 2 ≤ dims → Sound 4 (read_linestring_inner p le dims)
  unfolding read_linestring_inner
  read_linestring_inner-Sound dims h =
      Sound-bind (read_u32 p le) (λ n. read_coords_batch p n le dims) 4 0 (read_u32-Sound p le)
        (λ n. read_coords_batch-Sound n dims h)

  check_ring-Sound : (ring : LineString) → Sound 0 (check_ring ring)
  unfolding check_ring
  check_ring-Sound ring unread = elim (Bool-cases (length ring == 1 || length ring == 2)) [
    | inl bad ↦ rw bad (Sound-fail (invalid_ring (length ring)) unread)
    | inr good ↦ rw good (Sound-pure ring unread)
  ]

  read_ring-Sound : (dims : ℕ) → 2 ≤ dims → Sound 4 (read_ring p le dims)
  unfolding read_ring
  read_ring-Sound dims h =
      Sound-bind (read_linestring_inner p le dims) check_ring 4 0
        (read_linestring_inner-Sound dims h) check_ring-Sound

  read_rings-Sound : (dims n : ℕ) → 2 ≤ dims → Sound 0 (read_rings p le dims n)
  unfolding read_rings
  read_rings-Sound dims n h unread = elim (Bool-cases (n == 0)) [
    | inl none' ↦ rw none' (Sound-pure (polygon_new p [] []) unread)
    | inr some' ↦ rw some' (
        let ring = read_ring p le dims in
        let any = Sound-le ring 4 0 (omega arith) (read_ring-Sound dims h) in
        Sound-bind ring (λ e. repeat (n - 1) ring >>= λ hs. pure (polygon_new p e hs)) 0 0 any
          (λ e.
            Sound-bind (repeat (n - 1) ring) (λ hs. pure (polygon_new p e hs)) 0 0
              (Sound-repeat ring (n - 1) any) (λ hs. Sound-pure (polygon_new p e hs)))
          unread)
  ]

  pub read_polygon_inner-Sound : (dims : ℕ) → 2 ≤ dims → Sound 4 (read_polygon_inner p le dims)
  unfolding read_polygon_inner
  read_polygon_inner-Sound dims h =
      Sound-bind (read_bounded_count p le 4) (read_rings p le dims) 4 0
        (read_bounded_count-Sound p le 4) (λ n. read_rings-Sound dims n h)
