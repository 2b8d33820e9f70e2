-- ===== src/Provider/Health/Breaker.antt =====
-- What the circuit breaker of internal/provider/health.go promises over a history of calls.
use llm_gateway.Base.{
  ℕ, suc, ◌+◌, ◌≤◌, ◌<◌, ◌≡◌, ◌⊎◌, ◌↔◌, true, Option, List, [], ◌∷◌, arith, ℤ, pos, ◌<ℤ◌, ltb_ℤ,
  leb, ap, ◌∙◌, inc_int, max_int, sub_time-ge, length, if◌then◌else◌,
}
use llm_gateway.Model.Errors.{Error}
use llm_gateway.Provider.Health.{
  HealthConfig, ProviderHealth, new_provider_health, record_success, record_failure, is_healthy,
  healthy_strict, status,
}

-- One recorded call: its time, and the error when it failed.
pub data Call : Type 0 where
  succeeds : ℕ → Call
  fails : ℕ → Option Error → Call

pub record_call : ProviderHealth → Call → ProviderHealth
record_call h (succeeds now) = record_success h now
record_call h (fails now err) = (record_failure h err now).0

-- The health after a history, whose head is the latest call.
pub after : ProviderHealth → List Call → ProviderHealth
after h [] = h
after h (c ∷ cs) = record_call (after h cs) c

-- The failures since the latest success.
abbrev pub recent_fails : List Call → ℕ
recent_fails [] = 0
recent_fails (succeeds now ∷ cs) = 0
recent_fails (fails now err ∷ cs) = suc (recent_fails cs)

-- The time of the latest failure.
abbrev pub latest_failure : List Call → ℕ
latest_failure [] = 0
latest_failure (succeeds now ∷ cs) = latest_failure cs
latest_failure (fails now err ∷ cs) = now

abbrev threshold_of : HealthConfig → ℤ
threshold_of cfg = (new_provider_health cfg).failure_threshold

pub recent_fails-le : (cs : List Call) → recent_fails cs ≤ length cs
recent_fails-le [] = omega arith
recent_fails-le (succeeds now ∷ cs) = omega arith
recent_fails-le (fails now err ∷ cs) = omega (arith, recent_fails-le cs)

inc_int-pos : (n : ℕ) → n < max_int → inc_int (pos n) ≡ pos (n + 1)
unfolding inc_int
inc_int-pos n h = ground arith

threshold_pos : (cfg : HealthConfig) → pos 0 <ℤ (new_provider_health cfg).failure_threshold
unfolding new_provider_health
threshold_pos cfg = ground arith

-- The tracker as a function of the history alone.
pub record Tracks (cfg : HealthConfig) (cs : List Call) (h : ProviderHealth) : Type 0 where
  pub counts : h.consecutive_fails ≡ pos (recent_fails cs)
  pub trips : h.healthy ≡ ltb_ℤ (pos (recent_fails cs)) (new_provider_health cfg).failure_threshold
  pub failed_at : h.last_failure ≡ latest_failure cs
  pub threshold_kept : h.failure_threshold ≡ (new_provider_health cfg).failure_threshold
  pub cooldown_kept : h.cooldown_period ≡ (new_provider_health cfg).cooldown_period

new-Tracks : (cfg : HealthConfig) → Tracks cfg [] (new_provider_health cfg)
unfolding new_provider_health
new-Tracks cfg = ground arith

record_call-Tracks :
    (cfg : HealthConfig) (cs : List Call) (c : Call) (h : ProviderHealth)
    → length cs < max_int
    → Tracks cfg cs h
    → Tracks cfg (c ∷ cs) (record_call h c)
unfolding record_call record_success record_failure
record_call-Tracks cfg cs (succeeds now) h b t = ground (arith, threshold_pos cfg)
record_call-Tracks cfg cs (fails now err) h b t =
    ground (arith, threshold_pos cfg, inc_int-pos (recent_fails cs), recent_fails-le cs)

-- After any history of at most 2^63 - 1 recorded calls the tracker holds the number of failures
-- since the latest success and the time of the latest failure, it is marked healthy exactly when
-- that number is below the threshold, and the configuration is as it was built.
pub after-Tracks :
    (cfg : HealthConfig) (cs : List Call)
    → length cs ≤ max_int
    → Tracks cfg cs (after (new_provider_health cfg) cs)
unfolding after
after-Tracks cfg [] b = new-Tracks cfg
after-Tracks cfg (c ∷ cs) b =
    record_call-Tracks cfg cs c (after (new_provider_health cfg) cs) (omega arith)
      (after-Tracks cfg cs (omega arith))

cooldown_pos : (cfg : HealthConfig) → pos 0 <ℤ (new_provider_health cfg).cooldown_period
unfolding new_provider_health
cooldown_pos cfg = ground arith

is_healthy-le :
    (h : ProviderHealth) (now c : ℕ)
    → h.cooldown_period ≡ pos c
    → c ≤ max_int
    → is_healthy h now ≡ (if h.healthy then true else leb (h.last_failure + c) now)
unfolding is_healthy
is_healthy-le h now c e b = rw e (ground (arith, sub_time-ge now h.last_failure c))

-- After any history of at most 2^63 - 1 recorded calls, a provider is offered at time `now`
-- exactly when fewer calls than the threshold failed since the latest success, or the cooldown
-- (a positive int64 number of nanoseconds) has passed since the latest failure.
pub is_healthy-after :
    (cfg : HealthConfig) (cs : List Call) (now c t : ℕ)
    → length cs ≤ max_int
    → (new_provider_health cfg).cooldown_period ≡ pos c
    → (new_provider_health cfg).failure_threshold ≡ pos t
    → c ≤ max_int
    → (is_healthy (after (new_provider_health cfg) cs) now ≡ true)
      ↔ ((recent_fails cs < t) ⊎ (latest_failure cs + c ≤ now))
is_healthy-after cfg cs now c t b ec et bc =
    let h : ProviderHealth = after (new_provider_health cfg) cs in
    let k : Tracks cfg cs h = after-Tracks cfg cs b in
    let e : is_healthy h now ≡ (if h.healthy then true else leb (h.last_failure + c) now) =
      is_healthy-le h now c (k.cooldown_kept ∙ ec) bc in
    let tr : h.healthy ≡ ltb_ℤ (pos (recent_fails cs)) (pos t) =
      k.trips ∙ ap (ltb_ℤ (pos (recent_fails cs))) et in
    (λ p. ground (arith, k.failed_at), λ p. ground (arith, k.failed_at))

-- The three views of a tracker agree: the snapshot's flag is the permissive view at the same
-- time, and a provider whose strict flag is set is offered at every time.
pub views_agree :
    (h : ProviderHealth) (now : ℕ)
    → ((status h now).healthy ≡ is_healthy h now)
      × (healthy_strict h ≡ true → is_healthy h now ≡ true)
unfolding status is_healthy healthy_strict
views_agree h now = (ground arith, λ e. ground arith)
