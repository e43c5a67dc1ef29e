-- ===== src/Resilience/Tests/Doubles.antt =====
-- Stand-ins for what the code takes from the runtime: integers for float64, and a world of a counter.
use toolops.Base.{ℕ, ◌+◌, ◌/◌, ◌^◌, none, some}
use toolops.Base.Int.{ℤ, pos, pos_part, neg_part, sub_ℕ, leb_ℤ, ltb_ℤ, ◌+ℤ◌, ◌*ℤ◌}
use toolops.Base.Float.{Float64}
use toolops.Base.Time.{second}
use toolops.Resilience.Operation.{other, returned, panicked, Operation}
use toolops.Resilience.Retry

abbrev pub whole : Float64
whole = record {
  F = ℤ;
  of_int = λ x. x;
  to_int = λ x. x;
  seconds = λ d. pos (pos_part d / second);
  add = λ x y. x +ℤ y;
  sub = λ x y. sub_ℕ (pos_part x + neg_part y) (neg_part x + pos_part y);
  mul = λ x y. x *ℤ y;
  div = λ x y. pos (pos_part x / pos_part y);
  pow = λ x y. pos (pos_part x ^ pos_part y);
  le = leb_ℤ;
  lt = ltb_ℤ;
}

-- An operation whose end depends on nothing, and that changes nothing.
abbrev pub failing : {W : Type 0} → Operation W
failing w = (returned (some (other 1)), w)

abbrev pub crashing : {W : Type 0} → Operation W
crashing w = (panicked, w)

abbrev pub passing : {W : Type 0} → Operation W
passing w = (returned none, w)

-- rand.Int64N that draws 0, and waits that the context does not end.
abbrev pub calm : Retry.Host ℕ
calm = record {
  int64_n = λ n w. (0, w);
  wait = λ d w. (none, w);
  on_retry = λ n e d w. w;
  int64_n-lt = λ n w h. h;
}
