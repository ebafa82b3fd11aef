-- ===== src/Wkb/Concat.antt =====
-- `read_wkb_concat`: a buffer of geometries one behind the other.
use mathlib.Core.Path.{subst}
use geo_repair.Prelude.{
  ℕ, zero, suc, ◌+◌, ◌≤◌, ◌<◌, ◌≡◌, refl, ap, sym, ◌∙◌, inl, inr, List, [], ◌∷◌, ◌++◌, Option, ◌*◌,
  arith, length, length-append, append_assoc, lt→ltb, Bool-cases, ◌==◌, if◌then◌else◌,
}
use geo_repair.Words.{Bytes}
use geo_repair.Geo.{Geometry, Platform}
use geo_repair.Wkb.Types.{WkbError, ok, err, bind, trailing_bytes, Dims}
use geo_repair.Wkb.Cursor.{start}
use geo_repair.Wkb.Reads.{cursor}
use geo_repair.Wkb.Reader.{read_top, read_wkb, concat_loop, read_wkb_concat}
use geo_repair.Wkb.Sound.{takes, refuses, takes_here}
use geo_repair.Wkb.Robust.{Settles, read_top-Takes, read_top-start}
use geo_repair.Wkb.Fits.{Fits, as_read}
use geo_repair.Wkb.Inverse.{levels}
use geo_repair.Wkb.Types.{xy, WriteOptions}
use geo_repair.Wkb.Write.{write_wkb_with_opts}
use geo_repair.Wkb.PlainTrip.{read_wkb-write_wkb_with_opts}
use geo_repair.Prelude.{All, map, true}

length-nil : (bytes : Bytes) → length bytes ≡ 0 → bytes ≡ []
length-nil [] h = refl
length-nil (b ∷ t) h = absurd (omega arith)

module _ (p : Platform) where
  concat_loop-nil : (fuel pos : ℕ) (x : List ℕ) → concat_loop p fuel (cursor pos [] x) ≡ ok []
  unfolding concat_loop
  concat_loop-nil zero pos x = refl
  concat_loop-nil (suc fuel) pos x = refl

  -- one round of the loop where a geometry is read
  concat_loop-step :
      (fuel pos : ℕ) (x : List ℕ) (unread used rest : Bytes) (pushed : List ℕ)
      (r : Geometry × Option ℕ × Dims × ℕ)
      → 0 < length unread
      → ((at : ℕ) (more : Bytes) (extra : List ℕ)
          → read_top p (cursor at (unread ++ more) extra)
            ≡ ok (r, cursor (at + length used) (rest ++ more) (extra ++ pushed)))
      → concat_loop p (suc fuel) (cursor pos unread x)
        ≡ bind (concat_loop p fuel (cursor (pos + length used) rest pushed)) (λ gs. ok (r.0 ∷ gs))
  unfolding concat_loop
  concat_loop-step fuel pos x unread used rest pushed r some_left run =
      rw
        (
          lt→ltb 0 (length unread) some_left,
          takes_here (read_top p) r unread used rest pushed run pos [],
        )
        refl

  -- one round of the loop where the read gives an error
  concat_loop-stop :
      (fuel pos : ℕ) (x : List ℕ) (unread : Bytes) (e : WkbError)
      → 0 < length unread
      → ((at : ℕ) (extra : List ℕ) → read_top p (cursor at unread extra) ≡ err e)
      → concat_loop p (suc fuel) (cursor pos unread x) ≡ err e
  unfolding concat_loop
  concat_loop-stop fuel pos x unread e some_left run =
      rw (lt→ltb 0 (length unread) some_left, run pos []) refl

  -- Where the loop stands in its buffer, and more fuel than bytes, do not change what it gives.
  concat_loop-same :
      (f f' pos pos' : ℕ) (x x' : List ℕ) (unread : Bytes)
      → length unread ≤ f
      → length unread ≤ f'
      → concat_loop p f (cursor pos unread x) ≡ concat_loop p f' (cursor pos' unread x')
  concat_loop-same f f' pos pos' x x' [] h h' =
      concat_loop-nil f pos x ∙ sym (concat_loop-nil f' pos' x')
  concat_loop-same zero f' pos pos' x x' (b ∷ t) h h' = absurd (omega arith)
  concat_loop-same (suc f) zero pos pos' x x' (b ∷ t) h h' = absurd (omega arith)
  concat_loop-same (suc f) (suc f') pos pos' x x' (b ∷ t) h h' = elim (read_top-Takes p (b ∷ t)) [
    | takes r used rest pushed e lo run ↦
        let len : length (b ∷ t) ≡ length used + length rest =
          ap length e ∙ length-append used rest in
        concat_loop-step f pos x (b ∷ t) used rest pushed r (omega arith) run
        ∙ ap (λ c. bind c (λ gs. ok (r.0 ∷ gs)))
            (concat_loop-same f f' (pos + length used) (pos' + length used) pushed pushed rest
              (omega arith) (omega arith))
        ∙ sym (concat_loop-step f' pos' x' (b ∷ t) used rest pushed r (omega arith) run)
    | refuses e run ↦
        concat_loop-stop f pos x (b ∷ t) e (omega arith) run
        ∙ sym (concat_loop-stop f' pos' x' (b ∷ t) e (omega arith) run)
  ]

  concat_loop-Settles :
      (f pos : ℕ) (x : List ℕ) (unread : Bytes)
      → length unread ≤ f
      → Settles (λ gs. length gs * 5 ≤ length unread) (concat_loop p f (cursor pos unread x))
  concat_loop-Settles f pos x [] h = inl ([], concat_loop-nil f pos x, omega arith)
  concat_loop-Settles zero pos x (b ∷ t) h = absurd (omega arith)
  concat_loop-Settles (suc f) pos x (b ∷ t) h = elim (read_top-Takes p (b ∷ t)) [
    | takes r used rest pushed e lo run ↦
        let len : length (b ∷ t) ≡ length used + length rest =
          ap length e ∙ length-append used rest in
        let step = concat_loop-step f pos x (b ∷ t) used rest pushed r (omega arith) run in
        elim (concat_loop-Settles f (pos + length used) pushed rest (omega arith)) [
          | inl (gs, some_gs, few) ↦ inl (r.0 ∷ gs, rw (step, some_gs) refl, omega arith)
          | inr (e', stop) ↦ inr (e', rw (step, stop) refl)
        ]
    | refuses e run ↦ inr (e, concat_loop-stop f pos x (b ∷ t) e (omega arith) run)
  ]

  -- On any bytes `read_wkb_concat` comes to its end: it gives an error, or a list of at most one
  -- geometry for each five bytes.
  pub read_wkb_concat-Settles :
      (buf : Bytes) → Settles (λ gs. length gs * 5 ≤ length buf) (read_wkb_concat p buf)
  unfolding read_wkb_concat
  read_wkb_concat-Settles buf = concat_loop-Settles (length buf) 0 [] buf (omega arith)

  -- What `read_wkb` accepts has a run of the reader that ends with the buffer.
  read_wkb-whole :
      (buf : Bytes) (g : Geometry)
      → read_wkb p buf ≡ ok g
      → (used rest : Bytes) (pushed : List ℕ) (r : Geometry × Option ℕ × Dims × ℕ)
      → read_top p (start buf) ≡ ok (r, cursor (length used) rest pushed)
      → (length used ≡ length buf) × (r.0 ≡ g)
  unfolding read_wkb
  read_wkb-whole buf g h used rest pushed r run =
      let now : (if length used == length buf
            then ok r.0
            else err (trailing_bytes (length used) (length buf)))
          ≡ ok g =
        subst
          (λ x.
            bind x (λ ((g, _, _, _), c).
              if c.pos == length buf then ok g else err (trailing_bytes c.pos (length buf)))
            ≡ ok g)
          run h in
      elim (Bool-cases (length used == length buf)) [
        | inl all ↦ (ground arith, cc)
        | inr part ↦ absurd (cc)
      ]

  -- the loop in front of a part that a read takes whole
  concat_loop-front :
      (b1 b2 used : Bytes) (pushed : List ℕ) (r : Geometry × Option ℕ × Dims × ℕ)
      → 0 < length b1
      → ((at : ℕ) (more : Bytes) (extra : List ℕ)
          → read_top p (cursor at (b1 ++ more) extra)
            ≡ ok (r, cursor (at + length used) more (extra ++ pushed)))
      → read_wkb_concat p (b1 ++ b2) ≡ bind (read_wkb_concat p b2) (λ gs. ok (r.0 ∷ gs))
  unfolding read_wkb_concat
  concat_loop-front b1 b2 used pushed r some_left run =
      let n = length (b1 ++ b2) in
      let len : n ≡ length b1 + length b2 = length-append b1 b2 in
      concat_loop-same n (suc n) 0 0 [] [] (b1 ++ b2) (omega arith) (omega arith)
      ∙ concat_loop-step n 0 [] (b1 ++ b2) used b2 pushed r (omega arith) (λ at more extra.
        ap (λ b. read_top p (cursor at b extra)) (append_assoc b1 b2 more)
        ∙ run at (b2 ++ more) extra)
      ∙ ap (λ c. bind c (λ gs. ok (r.0 ∷ gs)))
          (concat_loop-same n (length b2) (0 + length used) 0 pushed [] b2 (omega arith)
            (omega arith))

  read_wkb-refused :
      (buf : Bytes) (x : WkbError) → read_top p (start buf) ≡ err x → read_wkb p buf ≡ err x
  unfolding read_wkb
  read_wkb-refused buf x stop = rw stop

  -- If `read_wkb` reads a geometry from `b1`, then `read_wkb_concat` reads from `b1` with any bytes
  -- behind it that geometry, and then what it reads from those bytes alone.
  pub read_wkb_concat-append :
      (b1 b2 : Bytes) (g : Geometry)
      → read_wkb p b1 ≡ ok g
      → read_wkb_concat p (b1 ++ b2) ≡ bind (read_wkb_concat p b2) (λ gs. ok (g ∷ gs))
  read_wkb_concat-append b1 b2 g h = elim (read_top-Takes p b1) [
    | takes r used rest pushed e lo run ↦
        let len : length b1 ≡ length used + length rest = ap length e ∙ length-append used rest in
        let whole =
          read_wkb-whole b1 g h used rest pushed r (read_top-start p b1 used rest pushed r run) in
        let none_left : rest ≡ [] = length-nil rest (let eq = whole.0 in omega arith) in
        concat_loop-front b1 b2 used pushed r (omega arith) (λ at more extra.
          run at more extra
          ∙ ap (λ t. ok (r, cursor (at + length used) (t ++ more) (extra ++ pushed))) none_left)
        ∙ ap (λ a. bind (read_wkb_concat p b2) (λ gs. ok (a ∷ gs))) whole.1
    | refuses x run ↦ absurd (let no = read_wkb-refused b1 x (run 0 []) in cc)
  ]

  -- the geometries of a list, written one behind the other
  unfoldable pub write_all : List Geometry → WriteOptions → Bytes
  write_all [] opts = []
  write_all (g ∷ gs) opts = write_wkb_with_opts p g opts ++ write_all gs opts

  -- On a little-endian target `read_wkb_concat` gives back the geometries that were written one
  -- behind the other, in either byte order, if each of them fits the format.
  pub read_wkb_concat-write_all :
      (gs : List Geometry) (opts : WriteOptions)
      → p.target_le ≡ true
      → All (Fits p xy levels) gs
      → read_wkb_concat p (write_all gs opts) ≡ ok (map (as_read p) gs)
  unfolding write_all read_wkb_concat
  read_wkb_concat-write_all [] opts little h = concat_loop-nil 0 0 []
  read_wkb_concat-write_all (g ∷ gs) opts little (h, hs) =
      read_wkb_concat-append (write_wkb_with_opts p g opts) (write_all gs opts) (as_read p g)
        (read_wkb-write_wkb_with_opts p g opts little h)
      ∙ ap (λ r. bind r (λ xs. ok (as_read p g ∷ xs))) (read_wkb_concat-write_all gs opts little hs)
