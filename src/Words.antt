-- ===== src/Words.antt =====
-- Fixed-width words and their bytes: the parts of Rust's `core` that the codecs call
-- (`to_le_bytes`, `to_be_bytes`, `swap_bytes`, an unaligned read of a word). A word of `k` bytes is
-- a number below 256 ^ k; an f64 is its bit pattern, a word of 8 bytes.
use mathlib.Core.List.{reverse-cons, reverse-reverse}
use geo_repair.Prelude.{
  ℕ, zero, suc, ◌+◌, ◌*◌, ◌/◌, ◌%◌, ◌^◌, ◌<◌, ◌≡◌, refl, ap, ◌∙◌, Bool, true, false, not, List, [],
  ◌∷◌, reverse, arith, if◌then◌else◌, same, length, length-append, All, All-append,
}

abbrev pub Bytes : Type 0
Bytes = List ℕ

abbrev pub IsByte : ℕ → Type 0
IsByte b = b < 256

abbrev pub u32_mod : ℕ
u32_mod = 2 ^ 32

abbrev pub u64_mod : ℕ
u64_mod = 2 ^ 64

-- `to_le_bytes` of a word of `k` bytes
unfoldable pub le_bytes : ℕ → ℕ → Bytes
le_bytes zero v = []
le_bytes (suc k) v = (v % 256) ∷ le_bytes k (v / 256)

-- `from_le_bytes`
unfoldable pub le_value : Bytes → ℕ
le_value [] = 0
le_value (b ∷ bs) = b + 256 * le_value bs

-- `to_le_bytes` or `to_be_bytes`
unfoldable pub word_bytes : Bool → ℕ → ℕ → Bytes
unfolding le_bytes
word_bytes le k v = if le then le_bytes k v else reverse (le_bytes k v)

-- What a machine of that byte order reads where these bytes stand.
unfoldable pub word_value : Bool → Bytes → ℕ
unfolding le_value
word_value le bs = if le then le_value bs else le_value (reverse bs)

-- `swap_bytes` of a word of `k` bytes
unfoldable pub swap_bytes : ℕ → ℕ → ℕ
unfolding le_bytes le_value
swap_bytes k v = le_value (reverse (le_bytes k v))

pub length-le_bytes : (k v : ℕ) → length (le_bytes k v) ≡ k
unfolding le_bytes
length-le_bytes zero v = refl
length-le_bytes (suc k) v = ap suc (length-le_bytes k (v / 256))

pub length-reverse : (bs : Bytes) → length (reverse bs) ≡ length bs
length-reverse [] = refl
length-reverse (b ∷ bs) =
    rw reverse-cons (omega (arith, length-append (reverse bs) (b ∷ []), length-reverse bs))

pub reverse-IsByte : (bs : Bytes) → All IsByte bs → All IsByte (reverse bs)
reverse-IsByte [] h = tt
reverse-IsByte (b ∷ bs) (p, h) =
    rw reverse-cons (All-append IsByte (reverse bs) (b ∷ []) (reverse-IsByte bs h) (p, tt))

pub le_bytes-IsByte : (k v : ℕ) → All IsByte (le_bytes k v)
unfolding le_bytes
le_bytes-IsByte zero v = tt
le_bytes-IsByte (suc k) v = (omega arith, le_bytes-IsByte k (v / 256))

pub length-word_bytes : (le : Bool) (k v : ℕ) → length (word_bytes le k v) ≡ k
unfolding word_bytes
length-word_bytes true k v = length-le_bytes k v
length-word_bytes false k v = length-reverse (le_bytes k v) ∙ length-le_bytes k v

pub word_bytes-IsByte : (le : Bool) (k v : ℕ) → All IsByte (word_bytes le k v)
unfolding word_bytes
word_bytes-IsByte true k v = le_bytes-IsByte k v
word_bytes-IsByte false k v = reverse-IsByte (le_bytes k v) (le_bytes-IsByte k v)

pub le_value-le_bytes : (k v : ℕ) → v < 256 ^ k → le_value (le_bytes k v) ≡ v
unfolding le_bytes le_value
le_value-le_bytes zero v h = omega arith
le_value-le_bytes (suc k) v h = omega (arith, le_value-le_bytes k (v / 256) (omega arith))

pub le_bytes-le_value :
    (k : ℕ) (bs : Bytes) → All IsByte bs → length bs ≡ k → le_bytes k (le_value bs) ≡ bs
unfolding le_bytes le_value
le_bytes-le_value zero [] h e = refl
le_bytes-le_value zero (b ∷ bs) h e = absurd (omega arith)
le_bytes-le_value (suc k) [] h e = absurd (omega arith)
le_bytes-le_value (suc k) (b ∷ bs) (p, h) e =
    let low : (b + 256 * le_value bs) % 256 ≡ b = omega arith in
    let high : (b + 256 * le_value bs) / 256 ≡ le_value bs = omega arith in
    rw (low, high) (ap (◌∷◌ b) (le_bytes-le_value k bs h (omega arith)))

-- A word read in the byte order that it was written in.
pub word_value-word_bytes :
    (le : Bool) (k v : ℕ) → v < 256 ^ k → word_value le (word_bytes le k v) ≡ v
unfolding word_bytes word_value
word_value-word_bytes true k v h = le_value-le_bytes k v h
word_value-word_bytes false k v h = rw reverse-reverse (le_value-le_bytes k v h)

-- Swapping a word that was read in one byte order gives what the other order reads.
pub swap_bytes-word_value :
    (t : Bool) (k : ℕ) (bs : Bytes)
    → All IsByte bs
    → length bs ≡ k
    → swap_bytes k (word_value t bs) ≡ word_value (not t) bs
unfolding swap_bytes word_value
swap_bytes-word_value true k bs h e = rw (le_bytes-le_value k bs h e)
swap_bytes-word_value false k bs h e =
    rw (le_bytes-le_value k (reverse bs) (reverse-IsByte bs h) (length-reverse bs ∙ e))
      (rw reverse-reverse)

-- `if cfg!(target_endian = "little") == le { v } else { v.swap_bytes() }`
unfoldable pub to_order : Bool → Bool → ℕ → ℕ → ℕ
to_order target le k v = if same target le then v else swap_bytes k v

-- On either target the guarded swap gives the value in the order that the data states.
pub to_order-word_value :
    (target le : Bool) (k : ℕ) (bs : Bytes)
    → All IsByte bs
    → length bs ≡ k
    → to_order target le k (word_value target bs) ≡ word_value le bs
unfolding to_order
to_order-word_value true true k bs h e = refl
to_order-word_value false false k bs h e = refl
to_order-word_value true false k bs h e = swap_bytes-word_value true k bs h e
to_order-word_value false true k bs h e = swap_bytes-word_value false k bs h e
