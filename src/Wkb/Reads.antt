-- ===== src/Wkb/Reads.antt =====
-- What it means that a reader takes a value off the front of its input, and the rules by which such
-- facts are put together, for the readers of io/wkb/read.rs.
use geo_repair.Prelude.{
  ℕ, max, ◌+◌, ◌-◌, ◌/◌, ◌^◌, ◌≤◌, ◌<◌, ◌≡◌, refl, sym, ◌∙◌, Bool, true, false, List, [], ◌++◌,
  append-nil, append_assoc, arith, length, length-append, ltb-false, take-length_append,
  drop-length_append,
}
use mathlib.Core.Path.{ap₂, subst}
use geo_repair.Words.{
  Bytes, word_bytes, word_value, to_order, to_order-word_value, length-word_bytes,
  word_bytes-IsByte, word_value-word_bytes, u32_mod, u64_mod,
}
use geo_repair.Geo.{Platform}
use geo_repair.Wkb.Types.{ok}
use geo_repair.Wkb.Cursor.{Cursor, M, pure, ◌>>=◌, peek}
use geo_repair.Wkb.Read.{read_u32, read_bounded_count, check_count, read_byte_order, f64_at}
use geo_repair.Wkb.Write.{order_byte, write_u32, write_f64}

abbrev pub cursor : ℕ → Bytes → List ℕ → Cursor
cursor pos unread extra = record { pos = pos; unread = unread; extra_coords = extra }

-- On any input that begins with `b`, reader `m` gives `a`, moves past `b` and pushes `es`.
abbrev pub Reads {ℓ} : {A : Type ℓ} → M A → A → Bytes → List ℕ → Type ℓ
Reads m a b es =
    (pos : ℕ) (rest : Bytes) (extra : List ℕ)
    → m (cursor pos (b ++ rest) extra) ≡ ok (a, cursor (pos + length b) rest (extra ++ es))

module _ {ℓ κ} {A : Type ℓ} {B : Type κ} where
  pub Reads-bind :
      (m : M A) (f : A → M B) (a : A) (c : B) (b b' : Bytes) (es es' : List ℕ)
      → Reads m a b es
      → Reads (f a) c b' es'
      → Reads (m >>= f) c (b ++ b') (es ++ es')
  Reads-bind m f a c b b' es es' h k pos rest extra = rw (append_assoc b b' rest) (
      rw (h pos (b' ++ rest) extra) (
        k (pos + length b) rest (extra ++ es)
        ∙ ap₂ (λ n e. ok (c, cursor n rest e)) (omega (arith, length-append b b'))
            (append_assoc extra es es')))

  -- the second reader takes no bytes
  pub Reads-then :
      (m : M A) (f : A → M B) (a : A) (c : B) (b : Bytes) (es : List ℕ)
      → Reads m a b es
      → ((cur : Cursor) → f a cur ≡ ok (c, cur))
      → Reads (m >>= f) c b es
  Reads-then m f a c b es h k pos rest extra = rw (h pos rest extra) (k _)

module _ {ℓ} {A : Type ℓ} where
  pub Reads-pure : (a : A) → Reads (pure a) a [] []
  Reads-pure a pos rest extra =
      ap₂ (λ n e. ok (a, cursor n rest e)) (omega arith) (sym (append-nil extra))

  -- the same bytes, grouped otherwise
  pub Reads-bytes :
      (m : M A) (a : A) {b b' : Bytes} (es : List ℕ) → b ≡ b' → Reads m a b es → Reads m a b' es
  Reads-bytes m a es e h = subst (λ b. Reads m a b es) e h

pub peek-append :
    (k n : ℕ) (front b rest : Bytes)
    → length front ≡ k
    → length b ≡ n
    → peek k n (front ++ (b ++ rest)) ≡ ok b
unfolding peek
peek-append k n front b rest h e =
    rw
      (ltb-false (length (front ++ (b ++ rest))) (k + n)
        (omega (arith, length-append front (b ++ rest), length-append b rest)))
      (rw (drop-length_append k front (b ++ rest) h) (rw (take-length_append n b rest e)))

pub to_order_written :
    (target le : Bool) (k v : ℕ)
    → v < 256 ^ k
    → to_order target le k (word_value target (word_bytes le k v)) ≡ v
to_order_written target le k v h =
    to_order-word_value target le k (word_bytes le k v) (word_bytes-IsByte le k v)
      (length-word_bytes le k v)
    ∙ word_value-word_bytes le k v h

pub read_byte_order-Reads : (le : Bool) → Reads read_byte_order le (order_byte le) []
unfolding read_byte_order
read_byte_order-Reads true pos rest extra = rw (append-nil extra)
read_byte_order-Reads false pos rest extra = rw (append-nil extra)

module _ (p : Platform) (le : Bool) where
  pub read_u32-Reads : (v : ℕ) → v < u32_mod → Reads (read_u32 p le) v (write_u32 le v) []
  unfolding read_u32 write_u32
  read_u32-Reads v h pos rest extra =
      let n = length-word_bytes le 4 v in
      rw
        (ltb-false (pos + length (word_bytes le 4 v ++ rest)) (pos + 4)
          (omega (arith, n, length-append (word_bytes le 4 v) rest)))
        (rw (
          peek-append 0 4 [] (word_bytes le 4 v) rest refl n,
          to_order_written p.target_le le 4 v h,
          drop-length_append 4 (word_bytes le 4 v) rest n,
          append-nil extra,
          n,
        ))

  pub f64_at-append :
      (k v : ℕ) (front rest : Bytes)
      → length front ≡ k
      → v < u64_mod
      → f64_at p le k (front ++ (write_f64 le v ++ rest)) ≡ ok v
  unfolding f64_at write_f64
  f64_at-append k v front rest h fits = rw (
    peek-append k 8 front (word_bytes le 8 v) rest h (length-word_bytes le 8 v),
    to_order_written p.target_le le 8 v fits,
  )

  read_bounded_count-eq :
      (min_bytes n pos : ℕ) (rest : Bytes) (extra : List ℕ)
      → n < u32_mod
      → n ≤ length rest / max min_bytes 1
      → read_bounded_count p le min_bytes (cursor pos (write_u32 le n ++ rest) extra)
        ≡ ok (n, cursor (pos + length (write_u32 le n)) rest (extra ++ []))
  unfolding read_bounded_count check_count
  read_bounded_count-eq min_bytes n pos rest extra h room =
      let here = pos + length (write_u32 le n) in
      let left : here + length rest - here ≡ length rest = omega arith in
      rw (read_u32-Reads n h pos rest extra, left, ltb-false (length rest / max min_bytes 1) n room)

  -- A count passes the check where the bytes behind it can hold that many elements.
  pub read_bounded_count-Reads {ℓ} :
      {A : Type ℓ} (min_bytes n : ℕ) (f : ℕ → M A) (a : A) (b : Bytes) (es : List ℕ)
      → n < u32_mod
      → ((total : ℕ) → length b ≤ total → n ≤ total / max min_bytes 1)
      → Reads (f n) a b es
      → Reads (read_bounded_count p le min_bytes >>= f) a (write_u32 le n ++ b) es
  read_bounded_count-Reads min_bytes n f a b es h room k pos rest extra =
      let counted =
        read_bounded_count-eq min_bytes n pos (b ++ rest) extra h
          (room (length (b ++ rest)) (omega (arith, length-append b rest))) in
      rw (append_assoc (write_u32 le n) b rest) (
        rw counted (
          k (pos + length (write_u32 le n)) rest (extra ++ [])
          ∙ ap₂ (λ m e. ok (a, cursor m rest e)) (omega (arith, length-append (write_u32 le n) b))
              (append_assoc extra [] es)))
