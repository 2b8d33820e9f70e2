-- ===== src/Server/Routes.antt =====
-- The routes of internal/server/server.go, one by one.
use llm_gateway.Base.{
  ◌≡◌, ◌≢◌, inl, inr, Bool, true, false, Option, none, some, List, [], ◌∷◌, ◌++◌, String, str_eq,
  str_eq_iff, Bool-cases, In, All, All-append, arith, if◌then◌else◌,
}
use llm_gateway.Auth.{KeyInfo}
use llm_gateway.Server.{
  Options, Layer, admin, common, Route, Endpoint, create_key, revoke_key, chat_completions,
  list_models, health, internal_health, new, pass_through, api_layers, admin_routes, is_empty,
  route_of,
}

pub is_empty-some : (key : Option KeyInfo) → none ≡ some key → ⊥
is_empty-some key e = ground (arith, e)

pub nonempty : (s : String) → s ≢ "" → str_eq s "" ≡ false
nonempty s n = elim (Bool-cases (str_eq s "")) [
  | inl e ↦ absurd (n ((str_eq_iff s "").0 e))
  | inr e ↦ e
]

-- Some route of the endpoint lets a request with this header through, with the key in its context.
abbrev pub Reaches : Options → Endpoint → String → Option KeyInfo → Type 0
Reaches opts e header key =
    (r : Route) × In r (new opts)
    × (r.endpoint ≡ e)
    × (pass_through r.layers header none ≡ some key)

abbrev pub IsApi : Endpoint → Type 0
IsApi chat_completions = Unit
IsApi list_models = Unit
IsApi _ = ⊥

abbrev pub IsAdmin : Endpoint → Type 0
IsAdmin create_key = Unit
IsAdmin revoke_key = Unit
IsAdmin _ = ⊥

-- The routes of an endpoint have these layers.
abbrev pub Layered : Endpoint → List Layer → Route → Type 0
Layered e ls r = r.endpoint ≡ e → r.layers ≡ ls

-- The optional route of the health report serves no other endpoint.
abbrev pub internal_routes : Options → List Route
internal_routes opts =
    if is_empty opts.health_providers
    then []
    else (route_of "GET" "/internal/health" common internal_health ∷ [])

pub internal-All :
    (P : Route → Type 0) (opts : Options)
    → P (route_of "GET" "/internal/health" common internal_health)
    → All P (internal_routes opts)
internal-All P opts h = if-All (is_empty opts.health_providers)
  where
    if-All :
        (b : Bool)
        → All P (if b then [] else (route_of "GET" "/internal/health" common internal_health ∷ []))
    if-All true = tt
    if-All false = (h, tt)

pub admin-All :
    (P : Route → Type 0) (token : String) (b : Bool)
    → (str_eq token "" ≡ false
        → b ≡ true
        → P (route_of "POST" "/internal/admin/keys" (common ++ (admin token ∷ [])) create_key)
          × P (
              route_of "DELETE" "/internal/admin/keys/{id}"
                (common ++ (admin token ∷ []))
                revoke_key))
    → All P (admin_routes token b)
unfolding admin_routes
admin-All P token b h = elim (Bool-cases (str_eq token "")) [
  | inl e ↦ rw (admin_routes, e) tt
  | inr e ↦ elim (Bool-cases b) [
    | inl t ↦ rw (admin_routes, e, t) ((h e t).0, ((h e t).1, tt))
    | inr f ↦ rw (admin_routes, e, f) tt
  ]
]

pub new-All :
    (P : Route → Type 0) (opts : Options)
    → P (route_of "GET" "/health" common health)
    → P (route_of "GET" "/internal/health" common internal_health)
    → P (route_of "POST" "/v1/chat/completions" (api_layers opts) chat_completions)
    → P (route_of "GET" "/v1/models" (api_layers opts) list_models)
    → All P (admin_routes opts.admin_token opts.admin_keys)
    → All P (new opts)
unfolding new
new-All P opts h i c m a =
    (h, All-append P (internal_routes opts) _ (internal-All P opts i) (c, (m, a)))
