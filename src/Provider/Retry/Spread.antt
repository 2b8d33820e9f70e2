-- ===== src/Provider/Retry/Spread.antt =====
-- The jitter of a wait before a retry, internal/provider/health_decorator.go.
use llm_gateway.Base.{
  ℕ, ◌*◌, ◌/◌, ◌^◌, ◌≤◌, ◌<◌, ◌≡◌, true, false, ℤ, pos, ◌≤ℤ◌, max_int, sym, Float64, Arithmetic, ap,
}
use mathlib.Core.Path.{subst}
use llm_gateway.Provider.Retry.{max_backoff}

-- What the waits need of float64, on numbers from 0 to 1 and durations up to the cap: rounding keeps
-- the order of sums, products and int64s; some results are exact; comparisons order the numbers.
module _ (f : Arithmetic) where
  abbrev pub float_zero : Float64
  float_zero = f.of_int (pos 0)

  abbrev pub float_one : Float64
  float_one = f.of_int (pos 1)

  abbrev pub float_half : Float64
  float_half = f.ratio 1 2

  -- Two numbers, the first not above the second.
  abbrev pub AtMost : Float64 → Float64 → Type 0
  AtMost x y = (f.lt y x ≡ false) × ((f.is_nan x ≡ false) × (f.is_nan y ≡ false))

  pub record Rounding : Type 0 where
    pub doubled :
        (b n : ℕ)
        → 0 < b
        → b ≤ 2 ^ 53
        → b * 2 ^ n ≤ max_int
        → f.to_int (f.mul (f.of_int (pos b)) (f.pow (f.of_int (pos 2)) (f.of_int (pos n))))
          ≡ pos (b * 2 ^ n)
    pub trans : (x y z : Float64) → AtMost x y → AtMost y z → AtMost x z
    pub lt_AtMost : (x y : Float64) → f.lt x y ≡ true → AtMost x y
    pub lt_irrefl : (x : Float64) → f.lt x x ≡ false
    pub add_mono :
        (a x y : Float64)
        → AtMost x y
        → AtMost y float_one
        → AtMost float_zero x
        → AtMost float_zero a
        → AtMost a float_one
        → AtMost (f.add a x) (f.add a y)
    pub mul_comm :
        (x y : Float64)
        → AtMost float_zero x
        → AtMost x float_one
        → AtMost float_zero y
        → AtMost y float_one
        → f.mul x y ≡ f.mul y x
    pub mul_mono :
        (d : ℕ) (x y : Float64)
        → d ≤ max_backoff
        → AtMost x y
        → AtMost y float_one
        → AtMost float_zero x
        → AtMost (f.mul (f.of_int (pos d)) x) (f.mul (f.of_int (pos d)) y)
    pub half_mono :
        (x y : Float64)
        → AtMost x y
        → AtMost y float_one
        → AtMost float_zero x
        → AtMost (f.mul float_half x) (f.mul float_half y)
    pub to_int_mono :
        (d : ℕ) (x y : Float64)
        → d ≤ max_backoff
        → AtMost float_zero x
        → AtMost x y
        → AtMost y (f.of_int (pos d))
        → f.to_int x ≤ℤ f.to_int y
    pub zero_half : AtMost float_zero float_half
    pub half_one : AtMost float_half float_one
    pub half_zero : f.mul float_half float_zero ≡ float_zero
    pub half_whole : f.mul float_half float_one ≡ float_half
    pub add_zero : f.add float_half float_zero ≡ float_half
    pub two_halves : f.add float_half float_half ≡ float_one
    pub times_zero : (d : ℕ) → d ≤ max_backoff → f.mul (f.of_int (pos d)) float_zero ≡ float_zero
    pub times_half :
        (d : ℕ) → d ≤ max_backoff → f.to_int (f.mul (f.of_int (pos d)) float_half) ≡ pos (d / 2)
    pub times_one :
        (d : ℕ) → d ≤ max_backoff → f.mul (f.of_int (pos d)) float_one ≡ f.of_int (pos d)
    pub to_int_of : (d : ℕ) → d ≤ max_backoff → f.to_int (f.of_int (pos d)) ≡ pos d

-- A jitter of 0.5 + r * 0.5, with r from 0 to 1, spreads a duration between its half and itself.
module _ (f : Arithmetic) (laws : Rounding f) (d : ℕ) (r : Float64) (small : d ≤ max_backoff)
    (from_zero : AtMost f (float_zero f) r) (to_one : AtMost f r (float_one f)) where
  one_one : AtMost f (float_one f) (float_one f)
  one_one = (laws.lt_irrefl (float_one f), (to_one.1.1, to_one.1.1))

  zero_zero : AtMost f (float_zero f) (float_zero f)
  zero_zero = (laws.lt_irrefl (float_zero f), (from_zero.1.0, from_zero.1.0))

  abbrev rest : Float64
  rest = f.mul (float_half f) r

  abbrev jitter : Float64
  jitter = f.add (float_half f) rest

  zero_rest : AtMost f (float_zero f) rest
  zero_rest =
      subst (λ x. AtMost f x rest) laws.half_zero
        (laws.half_mono (float_zero f) r from_zero to_one zero_zero)

  rest_half : AtMost f rest (float_half f)
  rest_half =
      subst (AtMost f rest) laws.half_whole
        (laws.half_mono r (float_one f) to_one one_one from_zero)

  half_jitter : AtMost f (float_half f) jitter
  half_jitter =
      subst (λ x. AtMost f x jitter) laws.add_zero
        (laws.add_mono (float_half f) (float_zero f) rest zero_rest
          (laws.trans rest (float_half f) (float_one f) rest_half laws.half_one) zero_zero
          laws.zero_half laws.half_one)

  jitter_one : AtMost f jitter (float_one f)
  jitter_one = subst (AtMost f jitter) laws.two_halves (
      laws.add_mono (float_half f) rest (float_half f) rest_half laws.half_one zero_rest
        laws.zero_half laws.half_one)

  abbrev whole : Float64
  whole = f.of_int (pos d)

  spread-half : AtMost f (f.mul whole (float_half f)) (f.mul whole jitter)
  spread-half = laws.mul_mono d (float_half f) jitter small half_jitter jitter_one laws.zero_half

  spread-whole : AtMost f (f.mul whole jitter) whole
  spread-whole = subst (AtMost f (f.mul whole jitter)) (laws.times_one d small) (
      laws.mul_mono d jitter (float_one f) small jitter_one one_one
        (laws.trans (float_zero f) (float_half f) jitter laws.zero_half half_jitter))

  zero_spread : AtMost f (float_zero f) (f.mul whole (float_half f))
  zero_spread =
      subst (λ x. AtMost f x (f.mul whole (float_half f))) (laws.times_zero d small)
        (laws.mul_mono d (float_zero f) (float_half f) small laws.zero_half laws.half_one zero_zero)

  abbrev pub waited : ℤ
  waited = f.to_int (f.mul whole (f.add (float_half f) (f.mul r (float_half f))))

  reordered : f.to_int (f.mul whole jitter) ≡ waited
  reordered =
      ap (λ x. f.to_int (f.mul whole (f.add (float_half f) x)))
        (sym (laws.mul_comm r (float_half f) from_zero to_one laws.zero_half laws.half_one))

  pub spread_low : pos (d / 2) ≤ℤ waited
  spread_low =
      subst (λ n. n ≤ℤ waited) (laws.times_half d small)
        (subst (λ n. f.to_int (f.mul whole (float_half f)) ≤ℤ n) reordered
          (laws.to_int_mono d (f.mul whole (float_half f)) (f.mul whole jitter) small zero_spread
            spread-half spread-whole))

  pub spread_high : waited ≤ℤ pos d
  spread_high =
      subst (λ n. waited ≤ℤ n) (laws.to_int_of d small)
        (subst (λ n. n ≤ℤ f.to_int whole) reordered
          (laws.to_int_mono d (f.mul whole jitter) whole small
            (laws.trans (float_zero f) (f.mul whole (float_half f)) (f.mul whole jitter) zero_spread
              spread-half)
            spread-whole (laws.lt_irrefl whole, (spread-whole.1.1, spread-whole.1.1))))
