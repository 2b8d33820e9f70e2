-- ===== src/Examples/Health.antt =====
-- Runs of the retry decorator.
use llm_gateway.Base.{
  ℕ, ◌/◌, ◌≤◌, ◌≡◌, ◌⊎◌, refl, true, false, none, some, [], ◌∷◌, ◌++◌, arith, pos, ◌≤ℤ◌, ltb,
  String, if◌then◌else◌,
}
use llm_gateway.Model.Errors.{Error, ProviderError, provider_error}
use llm_gateway.Provider.Health.{ProviderHealth}
use llm_gateway.Provider.Retry.{
  RetryConfig, Surroundings, ok, err, Outcome, chat_completion, backoff_duration, max_backoff,
  err_of,
}
use llm_gateway.Provider.Retry.Loop.{count_calls}
use llm_gateway.Provider.Retry.Outcomes.{Ending, Leaves, chat_completion_total}
use llm_gateway.Provider.Retry.Backoff.{Asks, exponential, backoff_bounds}
use llm_gateway.Provider.Retry.Stream.{
  StreamEvent, track_stream_health, track_stream_health-sent, all_taken, verdict, errors, last_or,
}
use llm_gateway.Examples.Floats.{halves, halves-Rounding}

abbrev overloaded : Error
overloaded = provider_error (record {
  status_code = pos 503;
  type = "server_error";
  message = "overloaded";
  retryable = true;
  retry_after = pos 0;
})

-- The provider is overloaded twice, then answers.
abbrev third_time : ℕ → Outcome String
third_time i = if ltb i 2 then err overloaded else ok "hello"

abbrev setting : Surroundings String
setting = record {
  call = third_time;
  cancelled = λ i. false;
  rand = λ i. 1;
  start = 10;
  recorded_at = 50;
  observed_at = 60;
}

abbrev retries : RetryConfig
retries = record { max_retries = pos 2; retry_backoff = pos 1000 }

abbrev tracker : ProviderHealth
tracker = record {
  consecutive_fails = pos 1;
  last_success = 0;
  last_failure = 5;
  last_error = "timeout";
  healthy = true;
  failure_threshold = pos 3;
  cooldown_period = pos 1000;
}

chat_completion_total_example :
    (e : Ending setting 2) × Leaves setting tracker 2 e
      (chat_completion halves retries setting tracker)
    × (count_calls (chat_completion halves retries setting tracker).effects ≤ 3)
chat_completion_total_example = chat_completion_total halves retries setting tracker 2 refl

abbrev first_part : StreamEvent String
first_part = record { chunk = some "he"; err = none }

abbrev last_part : StreamEvent String
last_part = record { chunk = none; err = some overloaded }

track_stream_health-sent_example :
    let whole = track_stream_health setting tracker none (all_taken (first_part ∷ [])) in
    let left =
      track_stream_health setting tracker none
        (all_taken (first_part ∷ []) ++ ((last_part, false) ∷ [])) in
    (whole.sent ≡ (first_part ∷ []))
    × (whole.health ≡ verdict setting tracker (last_or none (errors (first_part ∷ []))))
    × (left.sent ≡ (first_part ∷ []))
    × (left.health ≡ tracker)
    × (left.effects ≡ [])
track_stream_health-sent_example =
    track_stream_health-sent setting tracker (first_part ∷ []) last_part []

backoff_bounds_example :
    let w = backoff_duration halves retries 3 (some overloaded) 1 in
    Asks (some overloaded) w
    ⊎ (((e : ProviderError)
          → err_of (some overloaded) ≡ some e
          → e.status_code ≡ pos 429
          → e.retry_after ≤ℤ pos 0)
        × (pos (exponential 1000 3 / 2) ≤ℤ w)
        × (w ≤ℤ pos (exponential 1000 3))
        × (w ≤ℤ pos max_backoff))
backoff_bounds_example =
    backoff_bounds halves halves-Rounding retries 1000 3 (some overloaded) 1 refl (omega arith)
      (omega arith) (omega arith) refl refl
