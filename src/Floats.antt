-- ===== src/Floats.antt =====
-- What the code takes from f64: its operations, as functions on bit patterns, and what is read off
-- the bits.
pub mod Whole
use Prim.Native.Nat.{Ordering}
use geo_repair.Prelude.{ℕ, ◌%◌, ◌^◌, ◌≡◌, Bool, true, false, ◌&&◌, Option, ltb}
use geo_repair.Geo.{Coord}

pub record Floats : Type 0 where
  pub sub : ℕ → ℕ → ℕ
  pub add : ℕ → ℕ → ℕ
  pub mul : ℕ → ℕ → ℕ
  pub div : ℕ → ℕ → ℕ
  pub neg : ℕ → ℕ
  pub abs : ℕ → ℕ
  pub max : ℕ → ℕ → ℕ
  pub min : ℕ → ℕ → ℕ
  pub hypot : ℕ → ℕ → ℕ
  pub lt : ℕ → ℕ → Bool
  pub le : ℕ → ℕ → Bool
  pub eq : ℕ → ℕ → Bool
  pub partial_cmp : ℕ → ℕ → Option Ordering

-- `f64::is_finite`: not all exponent bits set
unfoldable pub is_finite : ℕ → Bool
is_finite bits = ltb (bits % 2 ^ 63) 0x7ff0_0000_0000_0000

-- `c.x.is_finite() && c.y.is_finite()`
unfoldable pub finite_coord : Coord → Bool
unfolding is_finite
finite_coord c = is_finite c.x && is_finite c.y

-- `==` on `Coord<f64>`
unfoldable pub coord_eq : Floats → Coord → Coord → Bool
coord_eq f a b = f.eq a.x b.x && f.eq a.y b.y

-- `<` on f64: no number is below itself, and NaN is not below or above any
pub record IsOrder (lt : ℕ → ℕ → Bool) : Type 0 where
  pub irreflexive : (a : ℕ) → lt a a ≡ false
  pub transitive : (a b c : ℕ) → lt a b ≡ true → lt b c ≡ true → lt a c ≡ true

-- `==` on f64 against `<`: equal numbers, zeros of both signs among them, are below the same ones
pub record Respects (eq lt : ℕ → ℕ → Bool) : Type 0 where
  pub equal : (a b c : ℕ) → eq a b ≡ true → eq b c ≡ true → eq a c ≡ true
  pub before : (a b c : ℕ) → eq a b ≡ true → lt b c ≡ true → lt a c ≡ true
  pub behind : (a b c : ℕ) → lt a b ≡ true → eq b c ≡ true → lt a c ≡ true
