-- ===== src/Provider/Retry.antt =====
-- internal/provider/health_decorator.go: one call of a provider with its retries, and the health
-- and metrics that it leaves behind.
pub mod Loop
pub mod Outcomes
pub mod Backoff
pub mod Spread
pub mod Stream
use llm_gateway.Base.{
  ℕ, zero, suc, ◌+◌, ◌-◌, ◌*◌, Bool, true, false, ◌&&◌, Option, none, some, List, [], ◌∷◌, ◌++◌, ℤ,
  pos, negsuc, leb_ℤ, ltb_ℤ, eqb_ℤ, sub_time, second, String, if◌then◌else◌, ◌==◌, Float64,
  Arithmetic,
}
use llm_gateway.Model.Errors.{
  ProviderError, Error, provider_error, context_error, wrapped, as_provider_error,
}
use llm_gateway.Provider.Health.{ProviderHealth, record_success, record_failure}

pub record RetryConfig : Type 0 where
  pub max_retries : ℤ
  pub retry_backoff : ℤ

-- The result of a fallible call.
pub data Outcome (A : Type 0) : Type 0 where
  ok : A → Outcome A
  err : Error → Outcome A

-- What a call leaves outside the tracker, in order.
pub data Effect : Type 0 where
  waits : ℤ → Effect
  calls : Effect
  sets_gauge : Bool → Effect
  records_request : ℤ → ℤ → Effect

-- What the environment does during one call. `call i` is the provider's answer to attempt `i`,
-- `cancelled i` tells whether the context ends the wait before it, `rand i` is the random number
-- for that wait.
pub record Surroundings (A : Type 0) : Type 0 where
  pub call : ℕ → Outcome A
  pub cancelled : ℕ → Bool
  pub rand : ℕ → Float64
  pub start : ℕ
  pub recorded_at : ℕ
  pub observed_at : ℕ

-- `nothing` is the pair of nil and nil.
pub data Reply (A : Type 0) : Type 0 where
  replied : A → Reply A
  failed : Error → Reply A
  nothing : Reply A

pub record Run (A : Type 0) : Type 0 where
  pub result : Reply A
  pub health : ProviderHealth
  pub effects : List Effect

abbrev pub max_backoff : ℕ
max_backoff = 30 * second

unfoldable pub is_retryable : Error → Bool
is_retryable (provider_error e) = e.retryable
is_retryable (wrapped prefix e) = is_retryable e
is_retryable _ = false

abbrev pub too_many_requests : Option ProviderError → Option ℤ
too_many_requests none = none
too_many_requests (some e) =
    if eqb_ℤ e.status_code (pos 429) && ltb_ℤ (pos 0) e.retry_after
    then some e.retry_after
    else none

abbrev pub err_of : Option Error → Option ProviderError
err_of none = none
err_of (some e) = as_provider_error e

-- The wait that is computed where the server names none.
unfoldable pub computed_backoff : Arithmetic → ℤ → ℕ → Float64 → ℤ
computed_backoff f retry_backoff attempt r =
    let base = if leb_ℤ retry_backoff (pos 0) then pos second else retry_backoff in
    let multiplier = f.pow (f.of_int (pos 2)) (f.of_int (pos (attempt - 1))) in
    let d = f.to_int (f.mul (f.of_int base) multiplier) in
    let d' = if ltb_ℤ (pos max_backoff) d then pos max_backoff else d in
    let jitter = f.add (f.ratio 1 2) (f.mul r (f.ratio 1 2)) in
    f.to_int (f.mul (f.of_int d') jitter)

unfoldable pub backoff_duration : Arithmetic → RetryConfig → ℕ → Option Error → Float64 → ℤ
backoff_duration f retry attempt last r = elim (too_many_requests (err_of last)) [
  | some ra ↦ ra
  | none ↦ computed_backoff f retry.retry_backoff attempt r
]

-- The status code that the failure metric carries.
unfoldable pub failure_status : Option ProviderError → ℤ
failure_status none = pos 500
failure_status (some e) = if ltb_ℤ (pos 0) e.status_code then e.status_code else pos 500

module _ {A : Type 0} where
  unfoldable pub record_health_success : Surroundings A → ProviderHealth → Reply A → Run A
  record_health_success s h r = record {
    result = r;
    health = record_success h s.recorded_at;
    effects = sets_gauge true ∷ records_request (pos 200) (sub_time s.observed_at s.start) ∷ [];
  }

  unfoldable pub record_health_failure :
      Surroundings A → ProviderHealth → Option Error → Reply A → Run A
  record_health_failure s h e r = record {
    result = r;
    health = (record_failure h e s.recorded_at).0;
    effects =
        sets_gauge (record_failure h e s.recorded_at).1
        ∷ records_request (failure_status (err_of e)) (sub_time s.observed_at s.start)
        ∷ [];
  }

  abbrev pub prepend : List Effect → Run A → Run A
  prepend es r = record r { effects = es ++ r.effects }

  -- The end of the loop: `lastErr` is nil only where no attempt was made.
  unfoldable pub give_up : Surroundings A → ProviderHealth → Option Error → Run A
  unfolding record_health_failure
  give_up s h none = record_health_failure s h none nothing
  give_up s h (some e) = record_health_failure s h (some e) (failed e)

module _ {A : Type 0} (f : Arithmetic) (retry : RetryConfig) (s : Surroundings A)
    (h : ProviderHealth) (finish : A → Run A) where
  -- The loop, with the iterations left; the `break` at the last attempt is the first clause.
  unfoldable pub attempts : ℕ → ℕ → Option Error → Run A
  attempts zero attempt last = give_up s h last
  attempts (suc left) attempt last =
      let go : Run A = prepend (calls ∷ []) (elim (s.call attempt) [
        | ok r ↦ finish r
        | err e ↦ elim (is_retryable e) [
          | true ↦ attempts left (suc attempt) (some e)
          | false ↦ record_health_failure s h (some e) (failed e)
        ]
      ]) in
      if attempt == 0
      then go
      else prepend (waits (backoff_duration f retry attempt last (s.rand attempt)) ∷ [])
          (elim (s.cancelled attempt) [
            | true ↦ record { result = failed context_error; health = h; effects = [] }
            | false ↦ go
          ])

-- The iterations that `attempt <= MaxRetries` allows.
abbrev pub rounds : ℤ → ℕ
rounds (pos n) = suc n
rounds (negsuc n) = 0

module _ {A : Type 0} (f : Arithmetic) (retry : RetryConfig) (s : Surroundings A)
    (h : ProviderHealth) where
  unfoldable pub chat_completion : Run A
  chat_completion =
      attempts f retry s h (λ r. record_health_success s h (replied r)) (rounds retry.max_retries) 0
        none

  -- The stream that is opened is watched by `track_stream_health`.
  unfoldable pub chat_completion_stream : Run A
  chat_completion_stream =
      attempts f retry s h (λ ch. record { result = replied ch; health = h; effects = [] })
        (rounds retry.max_retries) 0 none
