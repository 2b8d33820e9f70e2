-- ===== src/Server/Admin.antt =====
-- Who comes to the administrator's handlers in internal/server/server.go.
use mathlib.Core.Path.{subst}
use llm_gateway.Base.{
  ◌≡◌, ◌≢◌, ◌↔◌, inl, inr, refl, sym, ap, ap₂, ◌∙◌, true, false, not, ◌&&◌, Option, none, some,
  List, [], ◌∷◌, ◌++◌, String, str_eq, In, All, All-In, In-append_right, if◌then◌else◌,
}
use llm_gateway.Auth.{KeyInfo}
use llm_gateway.Middleware.Auth.{Gate, passes, rejects, bearer_token, require_admin_token}
use llm_gateway.Middleware.Access.{require_admin_token_iff}
use llm_gateway.Server.{
  Options, Layer, admin, common, Route, Endpoint, create_key, revoke_key, chat_completions,
  list_models, health, internal_health, new, pass_through, admin_routes, route_of, gate_result,
  and_next, enter,
}
use llm_gateway.Server.Routes.{
  is_empty-some, nonempty, Reaches, IsAdmin, internal_routes, admin-All, new-All,
}
use llm_gateway.Server.Gates.{unwrap, require_admin_token-none}

-- The routes of the administrator.
module _ (opts : Options) (header : String) (key : Option KeyInfo) where
  abbrev guards : List Layer
  guards = common ++ (admin opts.admin_token ∷ [])

  -- There is a token and a handler of keys, and the token guards the route.
  abbrev Mounted : List Layer → Type 0
  Mounted ls = (str_eq opts.admin_token "" ≡ false) × (opts.admin_keys ≡ true) × (ls ≡ guards)

  admin-Mounted :
      (e : Endpoint) → IsAdmin e → All (λ r. r.endpoint ≡ e → Mounted r.layers) (new opts)
  admin-Mounted e is_admin =
      let no : (d : Endpoint) → (IsAdmin d → ⊥) → (ls : List Layer) → d ≡ e → Mounted ls =
        λ d out ls x. absurd (out (subst IsAdmin (sym x) is_admin)) in
      new-All (λ r. r.endpoint ≡ e → Mounted r.layers) opts (no health (λ b. b) _)
        (no internal_health (λ b. b) _) (no chat_completions (λ b. b) _) (no list_models (λ b. b) _)
        (admin-All (λ r. r.endpoint ≡ e → Mounted r.layers) opts.admin_token opts.admin_keys
          (λ t b. ((λ x. (t, b, refl)), (λ x. (t, b, refl)))))

  abbrev pub IsAdministrator : Type 0
  IsAdministrator =
      (opts.admin_keys ≡ true)
      × (opts.admin_token ≢ "")
      × (bearer_token header ≡ some opts.admin_token)
      × (key ≡ none)

  -- The administrator's gate brings no key.
  admin-key :
      (g : Gate)
      → ((info : KeyInfo) → g ≢ passes (some info))
      → and_next (λ k. some k) (gate_result none g) ≡ some key
      → (g ≡ passes none) × (key ≡ none)
  admin-key (passes none) n e = (refl, sym (ap (λ o. unwrap o none) e))
  admin-key (passes (some info)) n e = absurd (n info refl)
  admin-key (rejects status type code message counted) n e = absurd (is_empty-some key e)

  pass-administrator :
      pass_through guards header none ≡ some key
      → (opts.admin_token ≢ "") × (bearer_token header ≡ some opts.admin_token) × (key ≡ none)
  unfolding pass_through enter
  pass-administrator e =
      let (gate, same) =
        admin-key (require_admin_token opts.admin_token header)
          (require_admin_token-none opts.admin_token header) e in
      let h = (require_admin_token_iff opts.admin_token header).0 gate in (h.0, h.1, same)

  administrator-pass : IsAdministrator → pass_through guards header none ≡ some key
  unfolding pass_through enter
  administrator-pass (mounted, some_token, parsed, same) =
      ap (λ g. and_next (λ k. some k) (gate_result none g))
        ((require_admin_token_iff opts.admin_token header).1 (some_token, parsed))
      ∙ ap some (sym same)

  abbrev create_route : Route
  create_route = route_of "POST" "/internal/admin/keys" guards create_key

  abbrev revoke_route : Route
  revoke_route = route_of "DELETE" "/internal/admin/keys/{id}" guards revoke_key

  routes-mounted :
      (r : Route)
      → str_eq opts.admin_token "" ≡ false
      → opts.admin_keys ≡ true
      → In r (create_route ∷ revoke_route ∷ [])
      → In r (admin_routes opts.admin_token opts.admin_keys)
  unfolding admin_routes
  routes-mounted r t b m =
      subst (In r)
        (sym (ap₂ (λ x y. if not x && y then create_route ∷ (revoke_route ∷ []) else []) t b)) m

  In-new : (r : Route) → In r (admin_routes opts.admin_token opts.admin_keys) → In r (new opts)
  unfolding new
  In-new r m = inr (In-append_right (internal_routes opts) _ r (inr (inr m)))

  admin-route :
      (e : Endpoint)
      → IsAdmin e
      → str_eq opts.admin_token "" ≡ false
      → opts.admin_keys ≡ true
      → (r : Route) × In r (new opts) × (r.endpoint ≡ e) × (r.layers ≡ guards)
  unfolding new admin_routes
  admin-route health u t b = absurd u
  admin-route internal_health u t b = absurd u
  admin-route chat_completions u t b = absurd u
  admin-route list_models u t b = absurd u
  admin-route create_key u t b =
      (create_route, In-new create_route (routes-mounted create_route t b (inl refl)), refl, refl)
  admin-route revoke_key u t b = (
    revoke_route,
    In-new revoke_route (routes-mounted revoke_route t b (inr (inl refl))),
    refl,
    refl,
  )

  -- A request reaches a handler of keys exactly where the server has one and an administrator's
  -- token that is not empty, and the request's header is that token's bearer token; it brings no key.
  pub admin_reached_iff : (e : Endpoint) → IsAdmin e → Reaches opts e header key ↔ IsAdministrator
  admin_reached_iff e is_admin = (
    λ x.
        let (r, there, at, through) = x in
        let m =
          All-In (λ r. r.endpoint ≡ e → Mounted r.layers) (new opts) r (admin-Mounted e is_admin)
            there at in
        let (some_token, parsed, same) =
          pass-administrator (sym (ap (λ ls. pass_through ls header none) m.2) ∙ through) in
        (m.1, some_token, parsed, same),
    λ x.
        let token : str_eq opts.admin_token "" ≡ false = nonempty opts.admin_token x.1 in
        let (r, there, at, same) = admin-route e is_admin token x.0 in
        (r, there, at, ap (λ ls. pass_through ls header none) same ∙ administrator-pass x),
  )
