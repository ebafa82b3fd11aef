-- ===== src/Floats/Whole.antt =====
-- The operations on whole numbers in place of those on f64, for samples.
use Prim.Native.Nat.{compare, min}
use geo_repair.Prelude.{◌+◌, ◌-◌, ◌*◌, ◌/◌, max, some, ltb, leb, ◌==◌}
use geo_repair.Floats.{Floats}

abbrev pub whole : Floats
whole = record {
  sub = λ a b. a - b;
  add = λ a b. a + b;
  mul = λ a b. a * b;
  div = λ a b. a / b;
  neg = λ a. a;
  abs = λ a. a;
  max = max;
  min = min;
  hypot = λ a b. a * a + b * b;
  lt = ltb;
  le = leb;
  eq = ◌==◌;
  partial_cmp = λ a b. some (compare a b);
}
