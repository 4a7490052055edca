-- ===== src/Vmware/Mapping/Samples.antt =====
-- Floats for the tests of the mapping and of what calls it.
use v_machine.Prelude.{ℕ, ◌+◌, ◌-◌, ◌*◌, ◌/◌, ltb}
use v_machine.Vmware.Mapping.Flavor.{Floats}

-- Values are thousandths, and the factors of `mul` on its right are tenths.
abbrev pub thousandths : Floats
thousandths = record {
  F = ℕ;
  quotient = λ a b m. ((a - b) + (b - a)) * 1000 / m;
  square = λ x. x * x;
  add = λ x y. x + y;
  mul = λ x y. x * y / 10;
  sqrt = λ x. x / 1000;
  lt = ltb;
  infinity = 1000000000;
  weight_cpu = 4;
  weight_ram = 4;
  weight_disk = 2;
  shortage = 15;
  normalized = λ x. 1000 - x;
}
