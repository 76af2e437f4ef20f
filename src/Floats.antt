-- ===== src/Floats.antt =====
-- The floating-point numbers of Python: a parameter of the development. A law that a theorem rests
-- on is a hypothesis of that theorem.
use agenthedge.Prelude.{Bool, ℤ, pos, ◌+ℤ◌, ◌-ℤ◌, ◌*ℤ◌, div_ℤ, neg_ℤ, abs_ℤ, ltb_ℤ, leb_ℤ, eqb_ℤ}

pub record Floats : Type 1 where
  pub F : Type 0
  pub zero_f : F
  pub one_f : F
  pub add_f : F → F → F
  pub sub_f : F → F → F
  pub mul_f : F → F → F
  pub div_f : F → F → F
  pub neg_f : F → F
  pub abs_f : F → F
  -- `a < b`, `a <= b` and `a == b`
  pub lt_f : F → F → Bool
  pub le_f : F → F → Bool
  pub eq_f : F → F → Bool

-- Whole numbers, at which the tests run: floats that are whole behave so while they are small.
abbrev pub whole_floats : Floats
whole_floats = record {
  F = ℤ;
  zero_f = pos 0;
  one_f = pos 1;
  add_f = ◌+ℤ◌;
  sub_f = ◌-ℤ◌;
  mul_f = ◌*ℤ◌;
  div_f = div_ℤ;
  neg_f = neg_ℤ;
  abs_f = abs_ℤ;
  lt_f = ltb_ℤ;
  le_f = leb_ℤ;
  eq_f = eqb_ℤ;
}
