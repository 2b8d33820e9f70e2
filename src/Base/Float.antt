-- ===== src/Base/Float.antt =====
-- float64: a bit pattern, and the operations of IEEE 754 that the program uses, as an interface.
-- What a proof needs of them stands in a record of laws beside that proof.
use Prim.Native.Nat.{ℕ}
use mathlib.Core.Bool.{Bool}
use llm_gateway.Base.Int.{ℤ}

abbrev pub Float64 : Type 0
Float64 = ℕ

pub record Arithmetic : Type 0 where
  -- float64(n) and int64(x); the second is whatever the machine gives where x is out of range
  pub of_int : ℤ → Float64
  pub to_int : Float64 → ℤ
  -- the literal n / d
  pub ratio : ℕ → ℕ → Float64
  pub add : Float64 → Float64 → Float64
  pub sub : Float64 → Float64 → Float64
  pub mul : Float64 → Float64 → Float64
  pub div : Float64 → Float64 → Float64
  pub pow : Float64 → Float64 → Float64
  pub exp : Float64 → Float64
  pub ceil : Float64 → Float64
  pub lt : Float64 → Float64 → Bool
  pub eq : Float64 → Float64 → Bool
  pub is_nan : Float64 → Bool
  pub is_inf : Float64 → Bool
