-- ===== src/Provider/Health.antt =====
-- internal/provider/health.go. `h.now()` is an argument of each call; the mutex makes each method
-- one step.
pub mod Breaker
use llm_gateway.Base.{
  ℕ, ◌+◌, ◌*◌, Bool, true, false, not, ◌&&◌, Option, none, some, List, [], ◌∷◌, ℤ, pos, leb_ℤ,
  inc_int, sub_time, second, String, if◌then◌else◌, ◌==◌,
}
use llm_gateway.Model.Errors.{Error, error_text}

pub record HealthConfig : Type 0 where
  pub failure_threshold : ℤ
  pub cooldown_period : ℤ

pub record HealthStatus : Type 0 where
  pub healthy : Bool
  pub consecutive_fails : ℤ
  pub last_success : Option ℕ
  pub last_failure : Option ℕ
  pub last_error : String

pub record ProviderHealth : Type 0 where
  pub consecutive_fails : ℤ
  pub last_success : ℕ
  pub last_failure : ℕ
  pub last_error : String
  pub healthy : Bool
  pub failure_threshold : ℤ
  pub cooldown_period : ℤ

unfoldable pub new_provider_health : HealthConfig → ProviderHealth
new_provider_health cfg = record {
  consecutive_fails = pos 0;
  last_success = 0;
  last_failure = 0;
  last_error = "";
  healthy = true;
  failure_threshold = if leb_ℤ cfg.failure_threshold (pos 0) then pos 5 else cfg.failure_threshold;
  cooldown_period =
      if leb_ℤ cfg.cooldown_period (pos 0) then pos (30 * second) else cfg.cooldown_period;
}

unfoldable pub record_success : ProviderHealth → ℕ → ProviderHealth
record_success h now = record h { consecutive_fails = pos 0; last_success = now; healthy = true }

abbrev error_or : Option Error → String → String
error_or none s = s
error_or (some e) s = error_text e

-- The `Bool` is the flag that the call returns.
unfoldable pub record_failure : ProviderHealth → Option Error → ℕ → ProviderHealth × Bool
record_failure h err now =
    let fails = inc_int h.consecutive_fails in
    let flag = if leb_ℤ h.failure_threshold fails then false else h.healthy in
    (
      record h {
        consecutive_fails = fails;
        last_failure = now;
        last_error = error_or err h.last_error;
        healthy = flag;
      },
      flag,
    )

unfoldable pub is_healthy : ProviderHealth → ℕ → Bool
is_healthy h now = if h.healthy then true else leb_ℤ h.cooldown_period (sub_time now h.last_failure)

unfoldable pub healthy_strict : ProviderHealth → Bool
healthy_strict h = h.healthy

-- A zero time.Time is left out of the snapshot.
abbrev unless_zero : ℕ → Option ℕ
unless_zero t = if t == 0 then none else some t

unfoldable pub status : ProviderHealth → ℕ → HealthStatus
status h now = record {
  healthy =
      if not h.healthy && leb_ℤ h.cooldown_period (sub_time now h.last_failure)
      then true
      else h.healthy;
  consecutive_fails = h.consecutive_fails;
  last_success = unless_zero h.last_success;
  last_failure = unless_zero h.last_failure;
  last_error = h.last_error;
}
