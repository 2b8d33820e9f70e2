-- ===== src/Examples/Gateways.antt =====
-- Runs of the entry point, the server and the handlers of keys.
use Prim.Native.String.{char_at}
use llm_gateway.Base.{
  ◌%◌, ◌≡◌, ◌↔◌, refl, inl, inr, ℕ, ◌≤◌, ◌<◌, Bool, true, false, Option, none, some, List, [], ◌∷◌,
  ℤ, pos, String, str_eq, lookup, In, is_some, arith, countb, ltb, if◌then◌else◌,
}
use llm_gateway.Auth.{KeyInfo, Authentication, known, invalid_key}
use llm_gateway.Config.{Config, ProviderConfig}
use llm_gateway.Gateway.{build_providers, base_of}
use llm_gateway.Gateway.Providers.{Backed, IsUsable, build_providers_serves}
use llm_gateway.Handler.AdminKeys.{generate_plaintext_key, draw_letters, key_alphabet}
use llm_gateway.Handler.AdminKeys.Generation.{
  IsUsable as IsUsableKey, chances, generate_plaintext_key_lem,
}
use llm_gateway.Middleware.Bodies.{
  unexpected_eof, Body, debug_request_bodies, expected, capture_limit, debug_request_bodies_lem,
}
use llm_gateway.Provider.Registry.Holders.{Holds}
use llm_gateway.Provider.Registry.Resolution.{IsClosed}
use llm_gateway.Server.{Options, chat_completions, revoke_key}
use llm_gateway.Server.Admin.{IsAdministrator}
use llm_gateway.Server.Api.{guarded, IsAdmitted}
use llm_gateway.Server.Reached.{reached_iff}
use llm_gateway.Server.Routes.{Reaches}

abbrev openai_config : ProviderConfig
openai_config = record {
  api_key = "k";
  base_url = "";
  timeout = pos 0;
  models = "gpt-4o" ∷ [];
  max_retries = pos 2;
  retry_backoff = pos 0;
}

abbrev config : Config
config = record {
  server = record { port = pos 8080; read_timeout = pos 0; write_timeout = pos 0 };
  providers =
      ("google", record openai_config { api_key = ""; models = "gemini" ∷ [] })
      ∷ ("openai", openai_config)
      ∷ [];
  model_aliases = ("gpt4", "gpt-4o") ∷ ("flash", "gemini") ∷ [];
  health = record { failure_threshold = pos 3; cooldown_period = pos 0 };
  log = record { level = "info"; format = "text"; debug_bodies = false };
  database = record {
    postgres = record { dsn = ""; auto_migrate = false; max_connections = pos 0 };
    redis = record { dsn = "" };
  };
  auth = record { enabled = true; admin_token = "t"; cache_ttl = pos 0; cache_size = pos 0 };
  rate_limit = record { enabled = false; default_rpm = pos 0; default_tpm = pos 0 };
  metrics = record { enabled = false; port = pos 0 };
  routing = record {
    default_strategy = "priority";
    max_attempts = pos 1;
    model_groups = [];
    pricing = [];
  };
}

usable : IsUsable "openai" openai_config
unfolding base_of str_eq
usable = (refl, refl)

build_providers_serves_example :
    let r = (build_providers config).registry in
    IsClosed r × Holds (Backed config.providers) r × (is_some (lookup "gpt-4o" r.models) ≡ true)
build_providers_serves_example =
    build_providers_serves config "openai" openai_config "gpt-4o" (inr (inl refl)) usable (inl refl)

-- The provider without a key is not there, nor an alias of its model.
aliases_built : (build_providers config).registry.aliases ≡ ("gpt4", "gpt-4o") ∷ []
unfolding build_providers llm_gateway.Provider.Registry.sort_on
    llm_gateway.Provider.Registry.register_alias lookup str_eq
    llm_gateway.Provider.Registry.register llm_gateway.Provider.Adapters.new_provider
    llm_gateway.Base.insert llm_gateway.Provider.Registry.new_registry
aliases_built = refl

abbrev tenant : KeyInfo
tenant = record {
  key_id = "k";
  org_id = "o";
  name = "tenant";
  rpm = pos 0;
  tpm = pos 0;
  scopes = [];
  expires_at = none;
}

abbrev knows : String → Authentication
knows token = if str_eq token "sk-gw-1" then known tenant else invalid_key

abbrev options : Options
options = record {
  health_providers = [];
  authenticator = none;
  admin_token = "t";
  admin_keys = true;
  rate_limiter = none;
  debug_bodies = true;
}

abbrev within : KeyInfo → Bool
within info = true

reached_iff_example :
    let server = guarded options knows within "Bearer sk-gw-1" (some tenant) in
    (Reaches server chat_completions "Bearer sk-gw-1" (some tenant)
      ↔ IsAdmitted options knows within "Bearer sk-gw-1" (some tenant))
    × (Reaches server revoke_key "Bearer sk-gw-1" (some tenant)
        ↔ IsAdministrator server "Bearer sk-gw-1" (some tenant))
reached_iff_example =
    reached_iff options knows within "Bearer sk-gw-1" (some tenant) chat_completions revoke_key tt
      tt

abbrev cut_off : Body
cut_off = record { bytes = 1 ∷ 2 ∷ []; failure = some unexpected_eof }

debug_request_bodies_lem_example : debug_request_bodies (pos 2) true (some cut_off) ≡ (
    if true
    then expected (capture_limit (pos 2)) cut_off
    else record { body = some cut_off; lines = [] })
debug_request_bodies_lem_example = debug_request_bodies_lem (pos 2) true cut_off

abbrev repeat : ℕ → ℕ → List ℕ
repeat Prim.Native.Nat.zero b = []
repeat (Prim.Native.Nat.suc n) b = b ∷ repeat n b

-- A byte that is rejected and 32 that are not.
abbrev random : List ℕ
random = 250 ∷ repeat 32 61

enough : 32 ≤ countb (λ b. ltb b 248) random
enough = omega arith

generate_plaintext_key_lem_example :
    ((key : String) × (generate_plaintext_key random ≡ some key) × IsUsableKey key)
    × (chances 61 ≡ 4)
    × (draw_letters (61 ∷ []) 1
        ≡ (if ltb 61 248 then some (String.◌∷◌ (char_at key_alphabet (61 % 62)) "") else none))
generate_plaintext_key_lem_example = generate_plaintext_key_lem random 61 61 enough (omega arith)
