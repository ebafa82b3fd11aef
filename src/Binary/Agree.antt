-- ===== src/Binary/Agree.antt =====
-- The iterator of io/binary.rs against the loader.
use geo_repair.Prelude.{
  ℕ, zero, suc, ◌+◌, ◌≤◌, ◌<◌, ◌≡◌, refl, sym, ap, ◌∙◌, true, false, none, some, List, [], ◌∷◌,
  arith, length, ltb, leb, ◌==◌, Bool-cases, inl, inr, String,
}
use geo_repair.Words.{Bytes}
use geo_repair.Geo.{LineString, Polygon, Platform, polygon_new}
use geo_repair.Binary.Load
use geo_repair.Binary.Load.{
  Loaded, loaded, failed, and_then, next_read, load_list, read_word, load_polygon, load_bin,
}
use geo_repair.Binary.Stream
use geo_repair.Binary.Stream.{
  LoadBinStream, S, on_some, try_read, stream_list, read_exact, stream_polygon, next_polygon,
  next_header, next, collect, keep, load_bin_stream,
}

-- Where `l` reads a value, `s` reads the same and leaves the same bytes.
abbrev Agrees {ℓ} : {A : Type ℓ} → (Bytes → Loaded (A × Bytes)) → S A → Type ℓ
Agrees {A = A} l s =
    (bytes : Bytes) (a : A) (rest : Bytes) → l bytes ≡ loaded (a, rest) → s bytes ≡ (some a, rest)

-- a value behind `?` comes from a value
and_then-loaded {ℓ κ} :
    {A : Type ℓ} {B : Type κ} (r : Loaded A) (f : A → Loaded B) (b : B)
    → and_then r f ≡ loaded b
    → (a : A) × (r ≡ loaded a) × (f a ≡ loaded b)
and_then-loaded (loaded a) f b h = (a, refl, h)
and_then-loaded (failed e) f b h = absurd (cc)

Agrees-next {ℓ κ} :
    {A : Type ℓ} {B : Type κ} (l : Bytes → Loaded (A × Bytes)) (f : A → Bytes → Loaded (B × Bytes))
    (s : S A) (t : A → S B)
    → Agrees l s
    → ((a : A) → Agrees (f a) (t a))
    → Agrees (next_read l f) (try_read s t)
Agrees-next l f s t h k bytes b rest e =
    let ((a, mid), first, second) = and_then-loaded (l bytes) (λ (a, r). f a r) (b, rest) e in
    rw (h bytes a mid first) (k a mid b rest second)

Agrees-value {ℓ} : {A : Type ℓ} (a : A) → Agrees (λ bytes. loaded (a, bytes)) (λ r. (some a, r))
Agrees-value a bytes b rest e = cc

Agrees-list {ℓ} :
    {A : Type ℓ} (l : Bytes → Loaded (A × Bytes)) (s : S A) (n : ℕ)
    → Agrees l s
    → Agrees (load_list l n) (stream_list s n)
unfolding load_list stream_list
Agrees-list l s zero h = Agrees-value []
Agrees-list l s (suc n) h =
    Agrees-next l (λ a. next_read (load_list l n) λ xs bytes. loaded (a ∷ xs, bytes)) s
      (λ a. try_read (stream_list s n) λ xs r. (some (a ∷ xs), r)) h
      (λ a.
        Agrees-next (load_list l n) (λ xs bytes. loaded (a ∷ xs, bytes)) (stream_list s n)
          (λ xs r. (some (a ∷ xs), r)) (Agrees-list l s n h) (λ xs. Agrees-value (a ∷ xs)))

module _ (left : Bytes → Bytes) where
  read_word-Agrees : (k : ℕ) (message : String) → Agrees (read_word k message) (read_exact left k)
  unfolding read_word read_exact
  read_word-Agrees k message bytes a rest e = elim (Bool-cases (ltb (length bytes) k)) [
    | inl short ↦ absurd (let no = rw short at e in cc)
    | inr long ↦ rw long (let yes = rw long at e in cc)
  ]

  read_u32-Agrees : Agrees Load.read_u32 (Stream.read_u32 left)
  unfolding Load.read_u32 Stream.read_u32
  read_u32-Agrees = read_word-Agrees 4 "unexpected EOF reading u32"

  read_coord-Agrees : Agrees Load.read_coord (Stream.read_coord left)
  unfolding Load.read_coord Stream.read_coord Load.read_f64 Stream.read_f64
  read_coord-Agrees =
      let message : String = "unexpected EOF reading f64" in
      let l = read_word 8 message in
      let s = read_exact left 8 in
      Agrees-next l (λ x. next_read l λ y bytes. loaded (record { x = x; y = y }, bytes)) s
        (λ x. try_read s λ y r. (some (record { x = x; y = y }), r)) (read_word-Agrees 8 message)
        (λ x.
          Agrees-next l (λ y bytes. loaded (record { x = x; y = y }, bytes)) s
            (λ y r. (some (record { x = x; y = y }), r)) (read_word-Agrees 8 message)
            (λ y. Agrees-value (record { x = x; y = y })))

  read_ring-Agrees : Agrees Load.read_ring (Stream.read_ring left)
  unfolding Load.read_ring Stream.read_ring
  read_ring-Agrees =
      Agrees-next Load.read_u32 (load_list Load.read_coord) (Stream.read_u32 left)
        (stream_list (Stream.read_coord left)) read_u32-Agrees
        (λ n. Agrees-list Load.read_coord (Stream.read_coord left) n read_coord-Agrees)

  module _ (p : Platform) where
    load_polygon-Agrees : Agrees (load_polygon p) (stream_polygon p left)
    unfolding load_polygon stream_polygon
    load_polygon-Agrees =
        let l = Load.read_ring in
        let s = Stream.read_ring left in
        Agrees-next l _ s _ read_ring-Agrees (λ (ext : LineString).
          Agrees-next Load.read_u32 _ (Stream.read_u32 left) _ read_u32-Agrees (λ (n : ℕ).
            Agrees-next (load_list l n) (λ holes bytes. loaded (polygon_new p ext holes, bytes))
              (stream_list s n) (λ holes r. (some (polygon_new p ext holes), r))
              (Agrees-list l s n read_ring-Agrees)
              (λ holes. Agrees-value (polygon_new p ext holes))))

    collect-none :
        (fuel : ℕ) (s s' : LoadBinStream)
        → next p left s ≡ (none, s')
        → collect p left (suc fuel) s ≡ []
    unfolding collect
    collect-none fuel s s' h = ap (keep (collect p left fuel)) h

    collect-some :
        (fuel : ℕ) (s s' : LoadBinStream) (g : Polygon)
        → next p left s ≡ (some g, s')
        → collect p left (suc fuel) s ≡ g ∷ collect p left fuel s'
    unfolding collect
    collect-some fuel s s' g h = ap (keep (collect p left fuel)) h

    collect-next :
        (fuel : ℕ) (s s' : LoadBinStream)
        → next p left s ≡ next p left s'
        → collect p left (suc fuel) s ≡ collect p left (suc fuel) s'
    unfolding collect
    collect-next fuel s s' h = ap (keep (collect p left fuel)) h

    -- the iterator behind its header
    abbrev running : Bytes → ℕ → ℕ → LoadBinStream
    running r total yielded = record {
      reader = r;
      header_read = true;
      total_polys = total;
      polys_yielded = yielded;
    }

    next-done :
        (r : Bytes) (total yielded : ℕ)
        → total ≤ yielded
        → next p left (running r total yielded) ≡ (none, running r total yielded)
    unfolding next next_polygon
    next-done r total yielded h = let done : leb total yielded ≡ true = ground arith in rw done refl

    next-more :
        (r rest : Bytes) (total yielded : ℕ) (g : Polygon)
        → yielded < total
        → stream_polygon p left r ≡ (some g, rest)
        → next p left (running r total yielded) ≡ (some g, running rest total (suc yielded))
    unfolding next next_polygon
    next-more r rest total yielded g h e =
        let more : leb total yielded ≡ false = ground arith in rw (more, e) refl

    collect-load_list :
        (fuel n total yielded : ℕ) (r rest : Bytes) (polys : List Polygon)
        → n < fuel
        → total ≡ yielded + n
        → load_list (load_polygon p) n r ≡ loaded (polys, rest)
        → collect p left fuel (running r total yielded) ≡ polys
    unfolding load_list
    collect-load_list zero n total yielded r rest polys h t e = absurd (omega arith)
    collect-load_list (suc fuel) zero total yielded r rest polys h t e =
        let empty : [] ≡ polys = cc in
        collect-none fuel (running r total yielded) (running r total yielded)
          (next-done r total yielded (omega arith))
        ∙ empty
    collect-load_list (suc fuel) (suc n) total yielded r rest polys h t e =
        let ((g, mid), first, second) =
          and_then-loaded (load_polygon p r)
            (λ (a, t).
              next_read (load_list (load_polygon p) n) (λ xs bytes. loaded (a ∷ xs, bytes)) t)
            (polys, rest) e in
        let ((gs, last), list, wrapped) =
          and_then-loaded (load_list (load_polygon p) n mid) (λ (xs, bytes). loaded (g ∷ xs, bytes))
            (polys, rest) second in
        let whole : g ∷ gs ≡ polys = cc in
        collect-some fuel (running r total yielded) (running mid total (suc yielded)) g
          (next-more r mid total yielded g (omega arith) (load_polygon-Agrees r g mid first))
        ∙ ap (◌∷◌ g) (
            collect-load_list fuel n total (suc yielded) mid last gs (omega arith) (omega arith)
              list)
        ∙ whole

    length-load_list :
        (n : ℕ) (r rest : Bytes) (polys : List Polygon)
        → load_list (load_polygon p) n r ≡ loaded (polys, rest)
        → length polys ≡ n
    unfolding load_list
    length-load_list zero r rest polys e = let empty : [] ≡ polys = cc in ap length (sym empty)
    length-load_list (suc n) r rest polys e =
        let ((g, mid), first, second) =
          and_then-loaded (load_polygon p r)
            (λ (a, t).
              next_read (load_list (load_polygon p) n) (λ xs bytes. loaded (a ∷ xs, bytes)) t)
            (polys, rest) e in
        let ((gs, last), list, wrapped) =
          and_then-loaded (load_list (load_polygon p) n mid) (λ (xs, bytes). loaded (g ∷ xs, bytes))
            (polys, rest) second in
        let whole : g ∷ gs ≡ polys = cc in
        ap length (sym whole) ∙ ap suc (length-load_list n mid last gs list)

    -- the first `next` reads the header, and then does what every `next` behind it does
    next-header :
        (buf r : Bytes) (n : ℕ)
        → Stream.read_u32 left buf ≡ (some n, r)
        → next p left (load_bin_stream buf) ≡ next p left (running r n 0)
    unfolding next next_header next_polygon load_bin_stream
    next-header buf r n h = elim (Bool-cases (n == 0)) [
      | inl empty ↦ let done : leb n 0 ≡ true = ground arith in rw (h, empty, done) refl
      | inr some_left ↦ rw (h, some_left) refl
    ]

    -- Where `load_bin` loads a file, a loop over `load_bin_stream` sees the same polygons in the
    -- same order and then its end, whatever a failed `read_exact` leaves.
    pub collect-load_bin :
        (buf : Bytes) (polys : List Polygon) (fuel : ℕ)
        → load_bin p (loaded buf) ≡ loaded polys
        → length polys < fuel
        → collect p left fuel (load_bin_stream buf) ≡ polys
    unfolding load_bin
    collect-load_bin buf polys zero e h = absurd (omega arith)
    collect-load_bin buf polys (suc fuel) e h =
        let ((got, last), read, same_list) =
          and_then-loaded (next_read Load.read_u32 (load_list (load_polygon p)) buf)
            (λ (a, _). loaded a) polys e in
        let ((n, r), header, list) =
          and_then-loaded (Load.read_u32 buf) (λ (a, t). load_list (load_polygon p) a t) (got, last)
            read in
        let eq : got ≡ polys = cc in
        let len : length got ≡ n = length-load_list n r last got list in
        let len' : length polys ≡ n = ap length (sym eq) ∙ len in
        collect-next fuel (load_bin_stream buf) (running r n 0)
          (next-header buf r n (read_u32-Agrees buf n r header))
        ∙ collect-load_list (suc fuel) n n 0 r last got (omega arith) (omega arith) list
        ∙ eq
