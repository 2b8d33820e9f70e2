-- ===== src/Examples/Settings.antt =====
-- Runs of the health tracker, the registry and the configuration.
use llm_gateway.Base.{
  ℕ, ◌≤◌, ◌<◌, ◌+◌, ◌≡◌, ◌≢◌, ◌↔◌, ◌⊎◌, inl, inr, refl, sym, ap, Bool, true, false, Option, none,
  some, List, [], ◌∷◌, arith, ℤ, pos, ltb_ℤ, String, str_eq, str_eq_iff, Dict, In, lookup, second,
}
use llm_gateway.Config.{Config, ProviderConfig, validate}
use llm_gateway.Config.Checks.{validate_iff}
use llm_gateway.Model.Errors.{context_error}
use llm_gateway.Provider.Health.{
  HealthConfig, new_provider_health, is_healthy, healthy_strict, status,
}
use llm_gateway.Provider.Health.Breaker.{
  Call, succeeds, fails, after, Tracks, recent_fails, latest_failure, after-Tracks,
  is_healthy-after, views_agree,
}
use llm_gateway.Provider.Registry.{Provider, Registry, register_alias, added, canonical_model}
use llm_gateway.Provider.Registry.Resolution.{
  Registration, models, alias, registered, IsClosed, registered-IsClosed, register_alias_lem,
  alias_chain,
}

abbrev two_strikes : HealthConfig
two_strikes = record { failure_threshold = pos 2; cooldown_period = pos 1000 }

abbrev history : List Call
history = fails 700 none ∷ fails 500 (some context_error) ∷ succeeds 300 ∷ fails 100 none ∷ []

after-Tracks_example : Tracks two_strikes history (after (new_provider_health two_strikes) history)
after-Tracks_example = after-Tracks two_strikes history (omega arith)

cooldown_of : (new_provider_health two_strikes).cooldown_period ≡ pos 1000
unfolding new_provider_health
cooldown_of = refl

threshold_of : (new_provider_health two_strikes).failure_threshold ≡ pos 2
unfolding new_provider_health
threshold_of = refl

is_healthy-after_example :
    (is_healthy (after (new_provider_health two_strikes) history) 1200 ≡ true)
    ↔ ((recent_fails history < 2) ⊎ (latest_failure history + 1000 ≤ 1200))
is_healthy-after_example =
    is_healthy-after two_strikes history 1200 1000 2 (omega arith) cooldown_of threshold_of
      (omega arith)

views_agree_example :
    ((status (after (new_provider_health two_strikes) history) 1200).healthy
      ≡ is_healthy (after (new_provider_health two_strikes) history) 1200)
    × (healthy_strict (after (new_provider_health two_strikes) history) ≡ true
        → is_healthy (after (new_provider_health two_strikes) history) 1200 ≡ true)
views_agree_example = views_agree (after (new_provider_health two_strikes) history) 1200

abbrev vendor : Provider
vendor = record { name = "openai"; health = some 0 }

abbrev registrations : List Registration
registrations = alias "fast" "gpt-4o" ∷ models vendor ("gpt-4o" ∷ "gpt-4" ∷ []) ∷ []

registered-IsClosed_example : IsClosed (registered registrations)
registered-IsClosed_example = registered-IsClosed registrations

register_alias_lem_example :
    ((r' : Registry) × (register_alias (registered registrations) "quick" "gpt-4" ≡ added r')) ↔ (
      (lookup "quick" (registered registrations).models ≡ none)
      × (lookup "gpt-4" (registered registrations).models ≢ none))
register_alias_lem_example = register_alias_lem (registered registrations) "quick" "gpt-4"

abbrev with_alias : Registry
with_alias = record {
  models = ("gpt-4o", vendor) ∷ ("fast", vendor) ∷ [];
  aliases = ("fast", "gpt-4o") ∷ [];
}

abbrev with_two : Registry
with_two = record {
  models = ("gpt-4o", vendor) ∷ ("fast", vendor) ∷ ("faster", vendor) ∷ [];
  aliases = ("fast", "gpt-4o") ∷ ("faster", "fast") ∷ [];
}

fast_is : canonical_model with_alias "fast" ≡ "gpt-4o"
unfolding canonical_model lookup str_eq
fast_is = refl

faster_added : register_alias with_alias "faster" "fast" ≡ added with_two
unfolding register_alias lookup str_eq llm_gateway.Base.insert
faster_added = refl

names_apart : (s t : String) → str_eq s t ≡ false → s ≢ t
names_apart s t h e = ground (arith, h, (str_eq_iff s t).1 e)

gpt_fast : str_eq "gpt-4o" "fast" ≡ false
unfolding str_eq
gpt_fast = refl

faster_fast : str_eq "faster" "fast" ≡ false
unfolding str_eq
faster_fast = refl

alias_chain_example :
    canonical_model with_two (canonical_model with_two "faster") ≢ canonical_model with_two "faster"
alias_chain_example =
    alias_chain with_alias with_two "faster" "fast" "gpt-4o" fast_is
      (names_apart "gpt-4o" "fast" gpt_fast) faster_added (names_apart "faster" "fast" faster_fast)

abbrev key_only : ProviderConfig
key_only = record {
  api_key = "sk";
  base_url = "";
  timeout = pos 0;
  models = [];
  max_retries = pos 0;
  retry_backoff = pos 0;
}

-- A file that names one provider's key and asks for rate limits without a Redis address.
abbrev sparse : Config
sparse = record {
  server = record { port = pos 0; read_timeout = pos 0; write_timeout = pos 5 };
  providers = ("openai", key_only) ∷ [];
  model_aliases = [];
  health = record { failure_threshold = pos 0; cooldown_period = pos 0 };
  log = record { level = ""; format = "text"; debug_bodies = false };
  database = record {
    postgres = record { dsn = ""; auto_migrate = false; max_connections = pos 0 };
    redis = record { dsn = "" };
  };
  auth = record { enabled = false; admin_token = ""; cache_ttl = pos 0; cache_size = pos 0 };
  rate_limit = record { enabled = true; default_rpm = pos 0; default_tpm = pos 0 };
  metrics = record { enabled = false; port = pos 0 };
  routing = record { default_strategy = ""; max_attempts = pos 0; model_groups = []; pricing = [] };
}

validate_iff_example : (validate sparse ≡ none) ↔ (
    ((e : String × ProviderConfig) × In e sparse.providers × (e.1.api_key ≢ ""))
    × (sparse.auth.enabled ≡ true
        → (sparse.database.postgres.dsn ≢ "") × (sparse.auth.admin_token ≢ ""))
    × (sparse.rate_limit.enabled ≡ true → sparse.database.redis.dsn ≢ ""))
validate_iff_example = validate_iff sparse
