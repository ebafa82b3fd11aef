-- ===== src/Wkb/Trips.antt =====
-- Round trips of the EWKB writer and the reader: what it means that a reader takes back what a
-- writer wrote, extra ordinates included, and the rules by which such facts are put together.
use geo_repair.Prelude.{
  ℕ, suc, max, ◌+◌, ◌*◌, ◌/◌, ◌≤◌, ◌<◌, ◌≡◌, refl, ◌∙◌, Bool, List, [], ◌∷◌, ◌++◌, Option,
  append_assoc, arith, length, length-append, take, drop, All, All-take, All-drop, sum_by,
  take-append-drop, length-take, length-drop,
}
use mathlib.Core.Path.{subst}
use geo_repair.Words.{Bytes, u32_mod, u64_mod, length-word_bytes}
use geo_repair.Geo.{Geometry, Platform}
use geo_repair.Wkb.Types.{ok, Dims, coord_count}
use geo_repair.Wkb.Cursor.{Cursor, M, pure, ◌>>=◌}
use geo_repair.Wkb.Read.{Read, read_bounded_count, repeat}
use geo_repair.Wkb.Reader.{read_body, read_geometry_inner}
use geo_repair.Wkb.Write.{write_u32}
use geo_repair.Wkb.WriteEwkb.{
  W, emit, ◌>>>◌, Codec, write_header, write_srid, type_code, is_some, write_each,
}
use geo_repair.Wkb.Reads.{Reads, Reads-bind, Reads-then, Reads-pure, read_bounded_count-Reads}
use geo_repair.Wkb.Header.{SridFits, read_geometry_inner-Reads}

abbrev pub IsF64 : ℕ → Type 0
IsF64 v = v < u64_mod

-- With any `k` extra ordinates in front of what is unused, `w` takes just these and writes at least
-- `lo` bytes, and from those bytes `m` reads `a` and pushes the same ordinates.
abbrev pub RoundTrips {ℓ} : {A : Type ℓ} → W → M A → A → ℕ → ℕ → Type ℓ
RoundTrips w m a k lo =
    (es more : List ℕ)
    → length es ≡ k
    → All IsF64 es
    → (b : Bytes) × (w (es ++ more) ≡ (b, more)) × (lo ≤ length b) × Reads m a b es

pub length-write_u32 : (le : Bool) (v : ℕ) → length (write_u32 le v) ≡ 4
unfolding write_u32
length-write_u32 le v = length-word_bytes le 4 v

pub length-write_header :
    (base : ℕ) (dims : Dims) (srid : Option ℕ) (codec : Codec)
    → 5 ≤ length (write_header base dims srid codec)
unfolding write_header
length-write_header base dims srid codec =
    let raw = type_code base dims (is_some srid) codec.enc in
    omega (
      arith,
      length-append (write_u32 codec.le raw) (write_srid codec.le srid),
      length-write_u32 codec.le raw,
    )

module _ {ℓ} {A : Type ℓ} where
  pub RoundTrips-emit :
      (m : M A) (a : A) (b : Bytes) (lo : ℕ)
      → lo ≤ length b
      → Reads m a b []
      → RoundTrips (emit b) m a 0 lo
  RoundTrips-emit m a b lo h r [] more e f = (b, refl, h, r)
  RoundTrips-emit m a b lo h r (x ∷ es) more e f = absurd (omega arith)

  pub RoundTrips-le :
      (w : W) (m : M A) (a : A) (k lo lo' : ℕ)
      → lo' ≤ lo
      → RoundTrips w m a k lo
      → RoundTrips w m a k lo'
  RoundTrips-le w m a k lo lo' h t es more e f =
      let (b, written, len, reads) = t es more e f in (b, written, omega arith, reads)

  pub RoundTrips-cost :
      (w : W) (m : M A) (a : A) (k k' lo : ℕ)
      → k ≡ k'
      → RoundTrips w m a k lo
      → RoundTrips w m a k' lo
  RoundTrips-cost w m a k k' lo e t = subst (λ n. RoundTrips w m a n lo) e t

  -- a writer in two parts, as one `emit` and the rest, read by one reader
  pub RoundTrips-prefix {κ} :
      {B : Type κ} (w : W) (m : M A) (m' : M B) (a : A) (a' : B) (front : Bytes) (k lo : ℕ)
      → ((b : Bytes) (es : List ℕ) → lo ≤ length b → Reads m a b es → Reads m' a' (front ++ b) es)
      → RoundTrips w m a k lo
      → RoundTrips (emit front >>> w) m' a' k (length front + lo)
  RoundTrips-prefix w m m' a a' front k lo step t es more e f =
      let (b, written, len, reads) = t es more e f in
      (front ++ b, rw written, omega (arith, length-append front b), step b es len reads)

module _ {ℓ κ} {A : Type ℓ} {B : Type κ} where
  pub RoundTrips-seq :
      (w w' : W) (m : M A) (f : A → M B) (a : A) (c : B) (k k' lo lo' : ℕ)
      → RoundTrips w m a k lo
      → RoundTrips w' (f a) c k' lo'
      → RoundTrips (w >>> w') (m >>= f) c (k + k') (lo + lo')
  RoundTrips-seq w w' m f a c k k' lo lo' t t' es more e h =
      let first = take k es in
      let second = drop k es in
      let (b, written, len, reads) =
        t first (second ++ more) (length-take k es (omega arith)) (All-take IsF64 k es h) in
      let (b', written', len', reads') =
        t' second more (omega (arith, length-drop k es)) (All-drop IsF64 k es h) in
      let whole : first ++ second ≡ es = take-append-drop k es in
      (
        b ++ b',
        subst (λ xs. (w >>> w') (xs ++ more) ≡ (b ++ b', more)) whole
            (rw (append_assoc first second more) (rw (written, written'))),
        omega (arith, length-append b b'),
        subst (λ xs. Reads (m >>= f) c (b ++ b') xs) whole
            (Reads-bind m f a c b b' first second reads reads'),
      )

  pub RoundTrips-then :
      (w : W) (m : M A) (f : A → M B) (a : A) (c : B) (k lo : ℕ)
      → ((cur : Cursor) → f a cur ≡ ok (c, cur))
      → RoundTrips w m a k lo
      → RoundTrips w (m >>= f) c k lo
  RoundTrips-then w m f a c k lo h t es more e all =
      let (b, written, len, reads) = t es more e all in
      (b, written, len, Reads-then m f a c b es reads h)

module _ {ℓ} {B : Type ℓ} where
  -- a container writes its header and its count by one `emit`
  pub RoundTrips-emit_append :
      (w : W) (m : M B) (c : B) (front back : Bytes) (k lo : ℕ)
      → RoundTrips (emit front >>> emit back >>> w) m c k lo
      → RoundTrips (emit (front ++ back) >>> w) m c k lo
  RoundTrips-emit_append w m c front back k lo t es more e all =
      let (b, written, len, reads) = t es more e all in (b, regroup ∙ written, len, reads)
    where
      regroup :
          (emit (front ++ back) >>> w) (es ++ more) ≡ (emit front >>> emit back >>> w) (es ++ more)
      regroup = rw append_assoc

module _ {ℓ κ} {A : Type ℓ} (P : A → Type κ) (f : A → W) (m : M A) (cost : A → ℕ) (lo : ℕ) where
  pub RoundTrips-each :
      (xs : List A)
      → ((a : A) → P a → RoundTrips (f a) m a (cost a) lo)
      → All P xs
      → RoundTrips (write_each f xs) (repeat (length xs) m) xs (sum_by cost xs) (length xs * lo)
  unfolding write_each repeat
  RoundTrips-each [] t h = RoundTrips-emit (pure []) [] [] (0 * lo) (omega arith) (Reads-pure [])
  RoundTrips-each (x ∷ xs) t (px, h) =
      let rest =
        RoundTrips-then (write_each f xs) (repeat (length xs) m) (λ as'. pure (x ∷ as')) xs (x ∷ xs)
          (sum_by cost xs) (length xs * lo) (λ cur. refl) (RoundTrips-each xs t h) in
      RoundTrips-le (write_each f (x ∷ xs)) (repeat (suc (length xs)) m) (x ∷ xs)
        (cost x + sum_by cost xs) (lo + length xs * lo) (suc (length xs) * lo) (omega arith)
        (RoundTrips-seq (f x) (write_each f xs) m
          (λ a. repeat (length xs) m >>= λ as'. pure (a ∷ as')) x (x ∷ xs) (cost x) (sum_by cost xs)
          lo (length xs * lo) (t x px) rest)

module _ (p : Platform) (codec : Codec) where
  pub RoundTrips-counted {ℓ} :
      {A : Type ℓ} (min_bytes n : ℕ) (w : W) (f : ℕ → M A) (a : A) (k lo : ℕ)
      → n < u32_mod
      → ((total : ℕ) → lo ≤ total → n ≤ total / max min_bytes 1)
      → RoundTrips w (f n) a k lo
      → RoundTrips
          (emit (write_u32 codec.le n) >>> w)
          (read_bounded_count p codec.le min_bytes >>= f)
          a
          k
          (4 + lo)
  RoundTrips-counted min_bytes n w f a k lo fits room t =
      let front = write_u32 codec.le n in
      let m = read_bounded_count p codec.le min_bytes >>= f in
      RoundTrips-le (emit front >>> w) m a k (length front + lo) (4 + lo)
        (omega (arith, length-write_u32 codec.le n))
        (RoundTrips-prefix w (f n) m a a front k lo
          (λ b es len.
            read_bounded_count-Reads p codec.le min_bytes n f a b es fits
              (λ total h. room total (omega arith)))
          t)

  pub RoundTrips-header :
      (left base : ℕ) (dims : Dims) (srid : Option ℕ) (w : W) (g : Geometry) (k lo : ℕ)
      → base < 1000
      → SridFits codec.enc srid
      → RoundTrips w
          (read_body p (read_geometry_inner p left) codec.le (coord_count dims) base)
          g
          k
          lo
      → RoundTrips
          (emit (write_header base dims srid codec) >>> w)
          (read_geometry_inner p (suc left))
          (g, srid, dims, base)
          k
          5
  RoundTrips-header left base dims srid w g k lo small h t =
      let front = write_header base dims srid codec in
      let body = read_body p (read_geometry_inner p left) codec.le (coord_count dims) base in
      let whole = read_geometry_inner p (suc left) in
      let r : Read = (g, srid, dims, base) in
      RoundTrips-le (emit front >>> w) whole r k (length front + lo) 5
        (omega (arith, length-write_header base dims srid codec))
        (RoundTrips-prefix w body whole g r front k lo
          (λ b es len. read_geometry_inner-Reads p codec left base dims srid g b es small h) t)
