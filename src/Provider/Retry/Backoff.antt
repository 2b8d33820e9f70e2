-- ===== src/Provider/Retry/Backoff.antt =====
-- The length of the wait before a retry, internal/provider/health_decorator.go.
use llm_gateway.Base.{
  ℕ, ◌-◌, ◌*◌, ◌/◌, ◌^◌, ◌≤◌, ◌<◌, ◌≡◌, ◌⊎◌, inl, inr, true, false, Option, none, some, arith, ℤ,
  pos, ◌≤ℤ◌, max_int, ltb, ltb_ℤ, eqb_ℤ, negsuc, ◌<ℤ◌, ◌&&◌, refl, sym, Bool-cases, Float64,
  Arithmetic, if◌then◌else◌, ap, ◌∙◌, Option-cases,
}
use llm_gateway.Model.Errors.{Error, ProviderError}
use llm_gateway.Provider.Retry.{
  RetryConfig, max_backoff, too_many_requests, err_of, computed_backoff, backoff_duration,
}
use llm_gateway.Provider.Retry.Spread.{
  AtMost, Rounding, float_zero, float_one, waited, spread_low, spread_high,
}

-- base * 2 ^ (attempt - 1), at most 30 seconds
abbrev pub exponential : ℕ → ℕ → ℕ
exponential b attempt =
    let d = b * 2 ^ (attempt - 1) in if ltb max_backoff d then max_backoff else d

exponential-le : (b attempt : ℕ) → exponential b attempt ≤ max_backoff
exponential-le b attempt = ground arith

-- The error of the last attempt is a 429 that says how long to wait.
abbrev pub Asks : Option Error → ℤ → Type 0
Asks last wait =
    (e : ProviderError) × (err_of last ≡ some e)
    × (e.status_code ≡ pos 429)
    × (pos 0 <ℤ e.retry_after)
    × (wait ≡ e.retry_after)

too_many-Asks :
    (o : Option ProviderError) (ra : ℤ)
    → too_many_requests o ≡ some ra
    → (e : ProviderError) × (o ≡ some e)
      × (e.status_code ≡ pos 429)
      × (pos 0 <ℤ e.retry_after)
      × (ra ≡ e.retry_after)
too_many-Asks none ra h = ground (arith, h)
too_many-Asks (some e) ra h =
    elim (Bool-cases (eqb_ℤ e.status_code (pos 429) && ltb_ℤ (pos 0) e.retry_after)) [
      | inl asked ↦
          let same : some e.retry_after ≡ some ra =
            sym (ap (λ b. if b then some e.retry_after else none) asked) ∙ h in
          (
            e,
            refl,
            is_429 e.status_code (ground (arith, asked)),
            ground (arith, asked),
            ground (arith, same),
          )
      | inr other ↦ ground (arith, sym (ap (λ b. if b then some e.retry_after else none) other) ∙ h)
    ]
  where
    is_429 : (n : ℤ) → eqb_ℤ n (pos 429) ≡ true → n ≡ pos 429
    is_429 (pos n) e = ground (arith, e)
    is_429 (negsuc n) e = ground (arith, e)

too_many-none :
    (o : Option ProviderError) (e : ProviderError)
    → too_many_requests o ≡ none
    → o ≡ some e
    → e.status_code ≡ pos 429
    → e.retry_after ≤ℤ pos 0
too_many-none none e h there c = ground (arith, there)
too_many-none (some x) e h there c =
    quiet e.status_code e.retry_after c (ap too_many_requests (sym there) ∙ h)
  where
    quiet :
        (status ra : ℤ)
        → status ≡ pos 429
        → (if eqb_ℤ status (pos 429) && ltb_ℤ (pos 0) ra then some ra else none) ≡ none
        → ra ≤ℤ pos 0
    quiet status ra c h = ground (
      arith,
      sym (ap (λ n. if eqb_ℤ n (pos 429) && ltb_ℤ (pos 0) ra then some ra else none) c) ∙ h,
    )

module _ (f : Arithmetic) (laws : Rounding f) (retry : RetryConfig) (b attempt : ℕ)
    (last : Option Error) (r : Float64) where
  computed-eq :
      b ≤ 2 ^ 53
      → 0 < b
      → b * 2 ^ (attempt - 1) ≤ max_int
      → computed_backoff f (pos b) attempt r
        ≡ f.to_int (
            f.mul
              (f.of_int (pos (exponential b attempt)))
              (f.add (f.ratio 1 2) (f.mul r (f.ratio 1 2))))
  unfolding computed_backoff
  computed-eq small p fits = ground (arith, laws.doubled b (attempt - 1) p)

  -- The wait before a retry: exactly the Retry-After of an error with status 429 that carries a
  -- positive one; else, with a positive configured base of at most 2^53 ns whose doubling fits an
  -- int64, between half of the capped exponential backoff and the whole of it, so never above 30
  -- seconds.
  pub backoff_bounds :
      retry.retry_backoff ≡ pos b
      → 0 < b
      → b ≤ 2 ^ 53
      → b * 2 ^ (attempt - 1) ≤ max_int
      → f.lt r (f.of_int (pos 1)) ≡ true
      → f.lt r (f.of_int (pos 0)) ≡ false
      → let w = backoff_duration f retry attempt last r in
        Asks last w
        ⊎ (((e : ProviderError)
              → err_of last ≡ some e
              → e.status_code ≡ pos 429
              → e.retry_after ≤ℤ pos 0)
            × (pos (exponential b attempt / 2) ≤ℤ w)
            × (w ≤ℤ pos (exponential b attempt))
            × (w ≤ℤ pos max_backoff))
  unfolding backoff_duration
  backoff_bounds e p small fits r1 r0 = elim (Option-cases (too_many_requests (err_of last))) [
    | inl free ↦
        let d = exponential b attempt in
        let w : backoff_duration f retry attempt last r
            ≡ waited f laws d r capped from_zero to_one =
          rw (free, backoff_duration)
            (ap (λ (x : ℤ). computed_backoff f x attempt r) e ∙ computed-eq small p fits) in
        let low = spread_low f laws d r capped from_zero to_one in
        let high = spread_high f laws d r capped from_zero to_one in
        inr (
          λ x there c. too_many-none (err_of last) x free there c,
          rw w low,
          rw w high,
          rw w (below _ high capped),
        )
    | inr (ra, e') ↦
        let (x, there, code, positive, same) = too_many-Asks (err_of last) ra e' in
        inl (x, there, code, positive, rw (e', backoff_duration) same)
  ]
    where
      capped : exponential b attempt ≤ max_backoff
      capped = exponential-le b attempt

      to_one : AtMost f r (float_one f)
      to_one = laws.lt_AtMost r (float_one f) r1

      from_zero : AtMost f (float_zero f) r
      from_zero = (r0, (laws.zero_half.1.0, to_one.1.0))

      below : (n : ℤ) {d m : ℕ} → n ≤ℤ pos d → d ≤ m → n ≤ℤ pos m
      below n h k = omega (arith, h, k)
