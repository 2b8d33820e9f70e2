-- ===== src/Server.antt =====
-- internal/server/server.go: the routes that the server mounts, and the middleware in front of each.
pub mod Routes
pub mod Gates
pub mod Api
pub mod Admin
pub mod Reached
use llm_gateway.Base.{
  Bool, true, false, ◌&&◌, not, Option, none, some, List, [], ◌∷◌, ◌++◌, Dict, String, str_eq,
  if◌then◌else◌,
}
use llm_gateway.Auth.{KeyInfo, Authentication}
use llm_gateway.Gateway.{HealthTrackingProvider}
use llm_gateway.Middleware.Auth.{Gate, passes, rejects, require_api_key, require_admin_token}

-- The optional collaborators. `rate_limiter` tells whether a reserver lets a key's request through,
-- also where it fails open; `admin_keys` tells whether there is a handler of keys.
pub record Options : Type 0 where
  pub health_providers : Dict HealthTrackingProvider
  pub authenticator : Option (String → Authentication)
  pub admin_token : String
  pub admin_keys : Bool
  pub rate_limiter : Option (KeyInfo → Bool)
  pub debug_bodies : Bool

-- The middleware, the outer first; the libraries' and the observers' let every request through.
pub data Layer : Type 0 where
  request_id observe recoverer request_logger debug_request_bodies : Layer
  api_key : (String → Authentication) → Layer
  rate_limit : (KeyInfo → Bool) → Layer
  admin : String → Layer

pub data Endpoint : Type 0 where
  health internal_health chat_completions list_models create_key revoke_key : Endpoint

pub record Route : Type 0 where
  pub method : String
  pub pattern : String
  pub layers : List Layer
  pub endpoint : Endpoint

abbrev pub common : List Layer
common = request_id ∷ observe ∷ recoverer ∷ request_logger ∷ []

abbrev pub auth_layer : Option (String → Authentication) → List Layer
auth_layer none = []
auth_layer (some a) = api_key a ∷ []

abbrev pub limit_layer : Option (KeyInfo → Bool) → List Layer
limit_layer none = []
limit_layer (some f) = rate_limit f ∷ []

abbrev pub debug_layer : Bool → List Layer
debug_layer debug = if debug then debug_request_bodies ∷ [] else []

-- The middleware of the group of /v1 routes, in the order of its `Use` calls.
unfoldable pub api_layers : Options → List Layer
api_layers opts =
    common
    ++ (auth_layer opts.authenticator
        ++ (limit_layer opts.rate_limiter ++ debug_layer opts.debug_bodies))

abbrev pub is_empty : Dict HealthTrackingProvider → Bool
is_empty [] = true
is_empty (p ∷ ps) = false

abbrev pub route_of : String → String → List Layer → Endpoint → Route
route_of method pattern layers endpoint = record {
  method = method;
  pattern = pattern;
  layers = layers;
  endpoint = endpoint;
}

unfoldable pub admin_routes : String → Bool → List Route
admin_routes token admin_keys =
    if not (str_eq token "") && admin_keys
    then route_of "POST" "/internal/admin/keys" (common ++ (admin token ∷ [])) create_key
      ∷ route_of "DELETE" "/internal/admin/keys/{id}" (common ++ (admin token ∷ [])) revoke_key
      ∷ []
    else []

unfoldable pub new : Options → List Route
unfolding api_layers admin_routes
new opts =
    (route_of "GET" "/health" common health ∷ [])
    ++ ((if is_empty opts.health_providers
          then []
          else (route_of "GET" "/internal/health" common internal_health ∷ []))
        ++ ((route_of "POST" "/v1/chat/completions" (api_layers opts) chat_completions
              ∷ route_of "GET" "/v1/models" (api_layers opts) list_models
              ∷ [])
            ++ admin_routes opts.admin_token opts.admin_keys))

-- What a request brings to the next layer: the key in its context, or nothing where a layer has
-- answered it.
abbrev pub gate_result : Option KeyInfo → Gate → Option (Option KeyInfo)
gate_result key (passes none) = some key
gate_result key (passes (some info)) = some (some info)
gate_result key (rejects status type code message counted) = none

abbrev limit_result : (KeyInfo → Bool) → Option KeyInfo → Option (Option KeyInfo)
limit_result f none = some none
limit_result f (some info) = if f info then some (some info) else none

unfoldable pub enter : Layer → String → Option KeyInfo → Option (Option KeyInfo)
enter (api_key a) header key = gate_result key (require_api_key a header)
enter (admin token) header key = gate_result key (require_admin_token token header)
enter (rate_limit f) header key = limit_result f key
enter request_id header key = some key
enter observe header key = some key
enter recoverer header key = some key
enter request_logger header key = some key
enter debug_request_bodies header key = some key

-- A layer that has answered the request ends it.
abbrev pub and_next :
    (Option KeyInfo → Option (Option KeyInfo)) → Option (Option KeyInfo) → Option (Option KeyInfo)
and_next next none = none
and_next next (some key) = next key

-- The key with which a request with this Authorization header comes to the handler.
unfoldable pub pass_through : List Layer → String → Option KeyInfo → Option (Option KeyInfo)
unfolding enter
pass_through [] header key = some key
pass_through (l ∷ ls) header key =
    and_next (λ key'. pass_through ls header key') (enter l header key)
