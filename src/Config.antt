-- ===== src/Config.antt =====
-- internal/config: the configuration, its defaults and its validation. Durations are int64
-- nanoseconds. The merge of file and environment is the koanf library's.
pub mod Checks
use llm_gateway.Base.{
  ℕ, ◌*◌, Bool, true, false, not, ◌&&◌, ◌||◌, Option, none, some, List, [], ◌∷◌, map, Dict, ℤ, pos,
  eqb_ℤ, String, str_eq, second, Float64, if◌then◌else◌,
}

pub record ServerConfig : Type 0 where
  pub port : ℤ
  pub read_timeout : ℤ
  pub write_timeout : ℤ

pub record ProviderConfig : Type 0 where
  pub api_key : String
  pub base_url : String
  pub timeout : ℤ
  pub models : List String
  pub max_retries : ℤ
  pub retry_backoff : ℤ

pub record HealthConfig : Type 0 where
  pub failure_threshold : ℤ
  pub cooldown_period : ℤ

pub record LogConfig : Type 0 where
  pub level : String
  pub format : String
  pub debug_bodies : Bool

pub record RedisConfig : Type 0 where
  pub dsn : String

pub record PostgresConfig : Type 0 where
  pub dsn : String
  pub auto_migrate : Bool
  pub max_connections : ℤ

pub record DatabaseConfig : Type 0 where
  pub postgres : PostgresConfig
  pub redis : RedisConfig

pub record AuthConfig : Type 0 where
  pub enabled : Bool
  pub admin_token : String
  pub cache_ttl : ℤ
  pub cache_size : ℤ

pub record RateLimitConfig : Type 0 where
  pub enabled : Bool
  pub default_rpm : ℤ
  pub default_tpm : ℤ

pub record MetricsConfig : Type 0 where
  pub enabled : Bool
  pub port : ℤ

pub record CandidateConfig : Type 0 where
  pub provider : String
  pub model : String
  pub cost_per_1k_input_usd : Float64
  pub cost_per_1k_output_usd : Float64
  pub priority : ℤ
  pub weight : ℤ

pub record CandidatePricing : Type 0 where
  pub cost_per_1k_input_usd : Float64
  pub cost_per_1k_output_usd : Float64

pub record ModelGroupConfig : Type 0 where
  pub strategy : String
  pub candidates : List CandidateConfig

pub record RoutingConfig : Type 0 where
  pub default_strategy : String
  pub max_attempts : ℤ
  pub model_groups : Dict ModelGroupConfig
  pub pricing : Dict CandidatePricing

pub record Config : Type 0 where
  pub server : ServerConfig
  pub providers : Dict ProviderConfig
  pub model_aliases : Dict String
  pub health : HealthConfig
  pub log : LogConfig
  pub database : DatabaseConfig
  pub auth : AuthConfig
  pub rate_limit : RateLimitConfig
  pub metrics : MetricsConfig
  pub routing : RoutingConfig

-- `if x == 0 { x = d }` and `if s == "" { s = d }`
unfoldable pub or_int : ℤ → ℤ → ℤ
or_int x d = if eqb_ℤ x (pos 0) then d else x

unfoldable pub or_text : String → String → String
or_text s d = if str_eq s "" then d else s

default_server : ServerConfig → ServerConfig
default_server s = record {
  port = or_int s.port (pos 8080);
  read_timeout = or_int s.read_timeout (pos (30 * second));
  write_timeout = or_int s.write_timeout (pos (120 * second));
}

default_routing : RoutingConfig → RoutingConfig
default_routing r = record r {
  default_strategy = or_text r.default_strategy "priority";
  max_attempts = or_int r.max_attempts (pos 3);
}

default_provider : String × ProviderConfig → String × ProviderConfig
default_provider (name, p) = (name, record p { timeout = or_int p.timeout (pos (30 * second)) })

default_database : DatabaseConfig → DatabaseConfig
default_database d = record {
  postgres = record {
    dsn = d.postgres.dsn;
    auto_migrate = d.postgres.auto_migrate;
    max_connections = or_int d.postgres.max_connections (pos 20);
  };
  redis = d.redis;
}

default_auth : AuthConfig → AuthConfig
default_auth a = record a {
  cache_ttl = or_int a.cache_ttl (pos (300 * second));
  cache_size = or_int a.cache_size (pos 10000);
}

default_rate_limit : RateLimitConfig → RateLimitConfig
default_rate_limit r = record r {
  default_rpm = or_int r.default_rpm (pos 60);
  default_tpm = or_int r.default_tpm (pos 100000);
}

unfoldable pub apply_defaults : Config → Config
unfolding default_server default_routing default_provider default_database default_auth
    default_rate_limit
apply_defaults cfg = record {
  server = default_server cfg.server;
  providers = map default_provider cfg.providers;
  model_aliases = cfg.model_aliases;
  health = cfg.health;
  log = record cfg.log {
    level = or_text cfg.log.level "info";
    format = or_text cfg.log.format "json";
  };
  database = default_database cfg.database;
  auth = default_auth cfg.auth;
  rate_limit = default_rate_limit cfg.rate_limit;
  metrics = record cfg.metrics { port = or_int cfg.metrics.port (pos 9090) };
  routing = default_routing cfg.routing;
}

pub data ConfigError : Type 0 where
  no_provider no_postgres_dsn no_admin_token no_redis_dsn : ConfigError

unfoldable pub has_provider : Dict ProviderConfig → Bool
has_provider [] = false
has_provider ((name, p) ∷ ps) = not (str_eq p.api_key "") || has_provider ps

unfoldable pub validate : Config → Option ConfigError
validate cfg =
    if not (has_provider cfg.providers)
    then some no_provider
    else if cfg.auth.enabled && str_eq cfg.database.postgres.dsn ""
    then some no_postgres_dsn
    else if cfg.auth.enabled && str_eq cfg.auth.admin_token ""
    then some no_admin_token
    else if cfg.rate_limit.enabled && str_eq cfg.database.redis.dsn ""
    then some no_redis_dsn
    else none
