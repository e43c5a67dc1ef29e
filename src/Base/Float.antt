-- ===== src/Base/Float.antt =====
-- float64 and the functions of package math that the code calls: the type and its operations are a
-- parameter of the modules that use them.
use toolops.Base.{Bool}
use toolops.Base.Int.{ℤ}

pub record Float64 : Type 1 where
  pub F : Type 0
  pub of_int : ℤ → F
  -- The conversion `int64(x)`, which truncates; out of range it is the platform's choice.
  pub to_int : F → ℤ
  -- `d.Seconds()` of a Duration in nanoseconds.
  pub seconds : ℤ → F
  pub add : F → F → F
  pub sub : F → F → F
  pub mul : F → F → F
  pub div : F → F → F
  pub pow : F → F → F
  -- `a <= b` and `a < b`, false at a NaN.
  pub le : F → F → Bool
  pub lt : F → F → Bool
