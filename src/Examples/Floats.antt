-- ===== src/Examples/Floats.antt =====
-- Arithmetic on halves: the number `n` stands for n / 2. Negative numbers become 0.
use native.Mathlib.Nat.{mul-le-mul_left, mul_comm}
use llm_gateway.Base.{
  refl, ◌≤◌, ℕ, ◌+◌, ◌-◌, ◌*◌, ◌/◌, ◌^◌, ◌≡◌, ◌∙◌, ap, false, arith, pos, pos_part, ltb, ◌==◌,
  Arithmetic,
}
use llm_gateway.Provider.Retry.Spread.{Rounding}
use llm_gateway.Router.Strategies.Ranking.{OrdersNumbers}
use llm_gateway.Router.Strategies.Contract.{IsDraw}

abbrev pub halves : Arithmetic
halves = record {
  of_int = λ n. 2 * pos_part n;
  to_int = λ x. pos (x / 2);
  ratio = λ a b. 2 * a / b;
  add = λ x y. x + y;
  sub = λ x y. x - y;
  mul = λ x y. x * y / 2;
  div = λ x y. 2 * x / y;
  pow = λ x y. 2 * (x / 2) ^ (y / 2);
  exp = λ x. x;
  ceil = λ x. 2 * ((x + 1) / 2);
  lt = λ x y. ltb x y;
  eq = λ x y. x == y;
  is_nan = λ x. false;
  is_inf = λ x. false;
}

pub halves-OrdersNumbers : OrdersNumbers halves
halves-OrdersNumbers = record {
  lt_trans = λ x y z _ _ _ h k. ground arith;
  lt_cotrans = λ x y z _ _ _ h k. ground arith;
}

pub halves-IsDraw : IsDraw halves 0
halves-IsDraw n = (0, ap pos (omega arith))

twice_half : (n : ℕ) → 2 * n / 2 ≡ n
twice_half n = omega arith

product_half : (b p : ℕ) → 2 * b * (2 * p) / 2 / 2 ≡ b * p
product_half b p = omega arith

half_mono : (x y : ℕ) → x ≤ y → 1 * x / 2 ≤ 1 * y / 2
half_mono x y h = omega (arith, h)

scaled_mono : (d x y : ℕ) → x ≤ y → 2 * d * x / 2 ≤ 2 * d * y / 2
scaled_mono d x y h = omega (arith, mul-le-mul_left (2 * d) h)

not_less : (x y : ℕ) → x ≤ y → ltb y x ≡ false
not_less x y h = ground (arith, h)

at_most : (x y : ℕ) → ltb y x ≡ false → x ≤ y
at_most x y h = ground (arith, h)

pub halves-Rounding : Rounding halves
halves-Rounding = record {
  doubled = λ b n p h k.
      ap pos (ap (λ e. 2 * b * (2 * 2 ^ e) / 2 / 2) (twice_half n) ∙ product_half b (2 ^ n));
  trans = λ x y z h k. (ground (arith, h.0, k.0), (refl, refl));
  lt_AtMost = λ x y h. (ground (arith, h), (refl, refl));
  lt_irrefl = λ x. ground arith;
  add_mono = λ a x y h _ _ _ _. (ground (arith, h.0), (refl, refl));
  mul_comm = λ x y _ _ _ _. ap (λ n. n / 2) (mul_comm x y);
  mul_mono = λ d x y _ h _ _. (not_less _ _ (scaled_mono d x y (at_most x y h.0)), (refl, refl));
  half_mono = λ x y h _ _. (not_less _ _ (half_mono x y (at_most x y h.0)), (refl, refl));
  to_int_mono = λ d x y _ _ h _. ground (arith, h.0);
  zero_half = (refl, (refl, refl));
  half_one = (refl, (refl, refl));
  half_zero = refl;
  half_whole = refl;
  add_zero = refl;
  two_halves = refl;
  times_zero = λ d _. omega arith;
  times_half = λ d _. ap pos (omega arith);
  times_one = λ d _. omega arith;
  to_int_of = λ d _. ap pos (omega arith);
}
