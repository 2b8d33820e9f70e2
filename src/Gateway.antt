-- ===== src/Gateway.antt =====
-- cmd/gateway/main.go: what the entry point builds from the configuration. Postgres, Redis and the
-- HTTP servers are libraries'; whether they fail is an argument.
pub mod Providers
use llm_gateway.Base.{
  ℕ, Bool, true, false, Option, none, some, List, [], ◌∷◌, map, length, Dict, lookup, insert, ℤ,
  pos, negsuc, String, str_eq, if◌then◌else◌,
}
use llm_gateway.Config.{Config, ProviderConfig, LogConfig, MetricsConfig}
use llm_gateway.Config
use llm_gateway.Provider.Adapters
use llm_gateway.Provider.Adapters.Anthropic
use llm_gateway.Provider.Adapters.Google
use llm_gateway.Provider.Adapters.Openai
use llm_gateway.Provider.Health.{HealthConfig, ProviderHealth, new_provider_health}
use llm_gateway.Provider.Registry.{
  Provider, Registry, new_registry, register, or_keep, register_alias, sort_on,
}
use llm_gateway.Provider.Retry.{RetryConfig}

-- A provider.Provider of one of the three adapters.
pub data Base : Type 0 where
  openai anthropic google : Adapters.Provider → Base

-- Name and Models
unfoldable pub base_name : Base → String
base_name (openai p) = "openai"
base_name (anthropic p) = "anthropic"
base_name (google p) = "google"

unfoldable pub base_models : Base → List String
base_models (openai p) = p.models
base_models (anthropic p) = p.models
base_models (google p) = p.models

unfoldable pub base_of : String → Adapters.Config → Option Base
base_of name cfg =
    if str_eq name "openai"
    then some (openai (Openai.new cfg))
    else if str_eq name "anthropic"
    then some (anthropic (Anthropic.new cfg))
    else if str_eq name "google"
    then some (google (Google.new cfg))
    else none

abbrev pub adapter_config : ProviderConfig → Adapters.Config
adapter_config c = record {
  api_key = c.api_key;
  base_url = c.base_url;
  timeout = c.timeout;
  models = c.models;
}

pub record HealthTrackingProvider : Type 0 where
  pub wrapped : Base
  pub health : ProviderHealth
  pub retry : RetryConfig

unfoldable pub new_health_tracking_provider :
    Base → HealthConfig → RetryConfig → HealthTrackingProvider
new_health_tracking_provider base cfg retry = record {
  wrapped = base;
  health = new_provider_health cfg;
  retry = retry;
}

-- What buildProviders returns, and the health gauges that it sets. The registry knows a provider by
-- the place of its health among `health_providers`.
pub record Built : Type 0 where
  pub registry : Registry
  pub health_providers : Dict HealthTrackingProvider
  pub gauges : Dict Bool

-- One provider of the configuration, with the adapter for its name.
unfoldable pub add_base : HealthConfig → Built → String → ProviderConfig → Option Base → Built
unfolding base_name base_models new_health_tracking_provider
add_base cfg b name c none = b
add_base cfg b name c (some base) =
    let retry : RetryConfig = record {
      max_retries = c.max_retries;
      retry_backoff = c.retry_backoff;
    } in
    let place = length b.health_providers in
    record {
      registry =
          register b.registry (record { name = base_name base; health = some place })
            (base_models base);
      health_providers =
          insert name (new_health_tracking_provider base cfg retry) b.health_providers;
      gauges = insert name true b.gauges;
    }

unfoldable pub add_provider : HealthConfig → Built → String → ProviderConfig → Built
unfolding add_base base_of
add_provider cfg b name c =
    if str_eq c.api_key "" then b else add_base cfg b name c (base_of name (adapter_config c))

-- The loop over the providers, in the order of the map's iteration.
unfoldable pub add_providers : HealthConfig → Built → Dict ProviderConfig → Built
unfolding add_provider
add_providers cfg b [] = b
add_providers cfg b ((name, c) ∷ cs) = add_providers cfg (add_provider cfg b name c) cs

-- The target of an alias; a missing entry of a map is the empty text.
unfoldable pub target_of : Dict String → String → String
target_of targets name = elim (lookup name targets) [ none ↦ "" | some target ↦ target ]

-- The loop over the sorted aliases; one that is refused is skipped.
unfoldable pub add_aliases : Registry → List String → Dict String → Registry
unfolding target_of
add_aliases r [] targets = r
add_aliases r (name ∷ names) targets =
    add_aliases (or_keep r (register_alias r name (target_of targets name))) names targets

abbrev pub health_config : Config → HealthConfig
health_config cfg = record {
  failure_threshold = cfg.health.failure_threshold;
  cooldown_period = cfg.health.cooldown_period;
}

abbrev pub no_providers : Built
no_providers = record { registry = new_registry; health_providers = []; gauges = [] }

-- The sorted names of the aliases.
abbrev pub alias_names : Config → List String
alias_names cfg = sort_on (λ s. s) (map (λ e. e.0) cfg.model_aliases)

unfoldable pub build_providers : Config → Built
unfolding add_providers add_aliases
build_providers cfg =
    let b = add_providers (health_config cfg) no_providers cfg.providers in
    record b { registry = add_aliases b.registry (alias_names cfg) cfg.model_aliases }

-- setupLogger: the level and whether the format is text.
pub data Level : Type 0 where
  debug info warn error : Level

unfoldable pub level_of : String → Level
level_of name =
    if str_eq name "debug"
    then debug
    else if str_eq name "warn"
    then warn
    else if str_eq name "error"
    then error
    else info

unfoldable pub setup_logger : LogConfig → Level × Bool
unfolding level_of
setup_logger cfg = (level_of cfg.level, str_eq cfg.format "text")

-- The event that ends the wait of main: a server that stops, with its error, or the signal.
pub data Stop : Type 0 where
  server_stopped metrics_stopped : Option String → Stop
  signalled : Stop

unfoldable pub exit_code : Stop → ℕ
exit_code (server_stopped e) = elim e [ none ↦ 0 | some _ ↦ 1 ]
exit_code (metrics_stopped e) = elim e [ none ↦ 0 | some _ ↦ 1 ]
exit_code signalled = 0
