-- ===== src/Provider/Retry/Loop.antt =====
-- The loop over the attempts in internal/provider/health_decorator.go, attempt by attempt.
use llm_gateway.Base.{
  ℕ, zero, suc, ◌+◌, ◌≤◌, ◌<◌, ◌≡◌, refl, ◌⊎◌, inl, inr, true, false, Option, none, some, List, [],
  ◌∷◌, arith, ap, ◌∙◌,
}
use llm_gateway.Base.{Arithmetic}
use llm_gateway.Model.Errors.{Error, context_error}
use llm_gateway.Provider.Health.{ProviderHealth}
use llm_gateway.Provider.Retry.{
  RetryConfig, Outcome, ok, err, Effect, waits, calls, sets_gauge, records_request, Surroundings,
  failed, Run, is_retryable, record_health_failure, give_up, attempts,
}

-- The attempts that reach the provider.
abbrev pub count_calls : List Effect → ℕ
count_calls [] = 0
count_calls (calls ∷ es) = suc (count_calls es)
count_calls (waits d ∷ es) = count_calls es
count_calls (sets_gauge b ∷ es) = count_calls es
count_calls (records_request c d ∷ es) = count_calls es

pub Outcome-cases :
    {A : Type 0} (o : Outcome A) → ((r : A) × (o ≡ ok r)) ⊎ ((e : Error) × (o ≡ err e))
Outcome-cases (ok r) = inl (r, refl)
Outcome-cases (err e) = inr (e, refl)

-- An attempt whose error is worth another try, and whose wait (none before the first) is not cut.
pub record Retries {A : Type 0} (s : Surroundings A) (i : ℕ) : Type 0 where
  pub error : Error
  pub answer : s.call i ≡ err error
  pub retryable : is_retryable error ≡ true
  pub uncut : (i ≡ 0) ⊎ (s.cancelled i ≡ false)

abbrev pub IsReached : {A : Type 0} → Surroundings A → ℕ → Type 0
IsReached s n = (n ≡ 0) ⊎ (s.cancelled n ≡ false)

-- The same reply and health, after `n` more calls.
abbrev pub SameEnd : {A : Type 0} → ℕ → Run A → Run A → Type 0
SameEnd n r r' =
    (r.result ≡ r'.result)
    × (r.health ≡ r'.health)
    × (count_calls r.effects ≡ n + count_calls r'.effects)

module _ {A : Type 0} (f : Arithmetic) (retry : RetryConfig) (s : Surroundings A)
    (h : ProviderHealth) (finish : A → Run A) where
  pub attempts-calls-le :
      (fc : (r : A) → count_calls (finish r).effects ≡ 0) (left attempt : ℕ) (last : Option Error)
      → count_calls (attempts f retry s h finish left attempt last).effects ≤ left
  unfolding attempts give_up record_health_failure
  attempts-calls-le fc zero attempt none = omega arith
  attempts-calls-le fc zero attempt (some e) = omega arith
  attempts-calls-le fc (suc left) attempt last = elim (Outcome-cases (s.call attempt)) [
    | inl (r, a) ↦ ground (arith, fc r)
    | inr (e, a) ↦ ground (arith, attempts-calls-le fc left (suc attempt) (some e))
  ]

  -- One failing attempt adds one call and hands its error on.
  pub attempts-step :
      (left attempt : ℕ) (last : Option Error) (t : Retries s attempt)
      → let r = attempts f retry s h finish (suc left) attempt last in
        let r' = attempts f retry s h finish left (suc attempt) (some t.error) in
        (r.result ≡ r'.result)
        × (r.health ≡ r'.health)
        × (count_calls r.effects ≡ suc (count_calls r'.effects))
  unfolding attempts
  attempts-step left attempt last t = ground arith

  abbrev error_at : Outcome A → Option Error
  error_at (ok r) = none
  error_at (err e) = some e

  -- The error at hand after `n` failing attempts from `attempt` on.
  abbrev pub last_after : ℕ → ℕ → Option Error → Option Error
  last_after zero attempt last = last
  last_after (suc n) attempt last = error_at (s.call (attempt + n))

  pub last_after-step :
      (n attempt : ℕ) (last : Option Error) (t : Retries s attempt)
      → last_after n (suc attempt) (some t.error) ≡ last_after (suc n) attempt last
  last_after-step zero attempt last t =
      let e : attempt + 0 ≡ attempt = omega arith in rw e (ground (arith, t.answer))
  last_after-step (suc n) attempt last t =
      let e : suc attempt + n ≡ attempt + suc n = omega arith in
      ap (λ (i : ℕ). error_at (s.call i)) e

  pub attempts-many :
      (n left m attempt : ℕ) (last : Option Error)
      → m ≡ n + left
      → ((i : ℕ) → attempt ≤ i → i < attempt + n → Retries s i)
      → SameEnd n
          (attempts f retry s h finish m attempt last)
          (attempts f retry s h finish left (attempt + n) (last_after n attempt last))
  attempts-many zero left m attempt last e t =
      let e' : m ≡ left = omega arith in
      let a : attempt + 0 ≡ attempt = omega arith in rw (e', a) (refl, refl, omega arith)
  attempts-many (suc n) left zero attempt last e t = absurd (omega arith)
  attempts-many (suc n) left (suc m) attempt last e t =
      let now : Retries s attempt = t attempt (omega arith) (omega arith) in
      let one = attempts-step m attempt last now in
      let rest =
        attempts-many n left m (suc attempt) (some now.error) (omega arith)
          (λ i lo hi. t i (omega arith) (omega arith)) in
      let a : suc attempt + n ≡ attempt + suc n = omega arith in
      rw (← last_after-step n attempt last now, ← a)
        (one.0 ∙ rest.0, one.1 ∙ rest.1, omega (arith, one.2, rest.2))

  -- The attempt after `n` failing ones, `left` more being allowed.
  pub attempts-at :
      (n left m : ℕ)
      → m ≡ n + left
      → ((i : ℕ) → i < n → Retries s i)
      → (last : Option Error) × SameEnd n
          (attempts f retry s h finish m 0 none)
          (attempts f retry s h finish left n last)
  attempts-at n left m e t =
      let z : 0 + n ≡ n = omega arith in
      (
        last_after n 0 none,
        rw z at (attempts-many n left m 0 none e (λ i lo hi. t i (omega arith))),
      )

  pub attempts-answered :
      (left n : ℕ) (last : Option Error) {r : A}
      → IsReached s n
      → s.call n ≡ ok r
      → SameEnd 1 (attempts f retry s h finish (suc left) n last) (finish r)
  unfolding attempts
  attempts-answered left n last go a = ground arith

  pub attempts-failed :
      (left n : ℕ) (last : Option Error) {e : Error}
      → IsReached s n
      → s.call n ≡ err e
      → (is_retryable e ≡ false) ⊎ (left ≡ 0)
      → SameEnd 1
          (attempts f retry s h finish (suc left) n last)
          (record_health_failure s h (some e) (failed e))
  unfolding attempts give_up
  attempts-failed zero n last go a stop = ground arith
  attempts-failed (suc left) n last go a stop = ground arith

  pub attempts-cut :
      (left n : ℕ) (last : Option Error)
      → s.cancelled n ≡ true
      → 0 < n
      → SameEnd 0
          (attempts f retry s h finish (suc left) n last)
          (record { result = failed context_error; health = h; effects = [] })
  unfolding attempts
  attempts-cut left n last cut p = ground arith
