-- ===== src/Server/Api.antt =====
-- Who comes to the handlers of /v1 in internal/server/server.go.
use mathlib.Core.Path.{subst}
use llm_gateway.Base.{
  ◌≡◌, ◌↔◌, inl, inr, refl, sym, ap, ◌∙◌, Bool, true, Option, none, some, List, String, In, All,
  All-In, In-append_right, if◌then◌else◌,
}
use llm_gateway.Auth.{KeyInfo, Authentication, known}
use llm_gateway.Middleware.Auth.{bearer_token, require_api_key}
use llm_gateway.Middleware.Access.{require_api_key_iff}
use llm_gateway.Server.{
  Options, Layer, common, Route, Endpoint, create_key, revoke_key, chat_completions, list_models,
  health, internal_health, new, pass_through, api_layers, gate_result, and_next, enter,
}
use llm_gateway.Server.Routes.{Reaches, IsApi, Layered, internal_routes, admin-All, new-All}
use llm_gateway.Server.Gates.{
  debug-passes, behind_limit, behind_key, gate-key, require_api_key-some,
}

-- The routes of /v1, with an authenticator and a limiter.
module _ (opts : Options) (a : String → Authentication) (f : KeyInfo → Bool) (header : String)
    (key : Option KeyInfo) where
  abbrev pub guarded : Options
  guarded = record opts { authenticator = some a; rate_limiter = some f }

  -- The header carries a known key that is within its limits, which is the key in the context.
  abbrev pub IsAdmitted : Type 0
  IsAdmitted =
      (info : KeyInfo) × (token : String) × (bearer_token header ≡ some token)
      × (a token ≡ known info)
      × (f info ≡ true)
      × (key ≡ some info)

  pass-admitted : pass_through (api_layers guarded) header none ≡ some key → IsAdmitted
  unfolding api_layers pass_through enter
  pass-admitted e =
      let (info, gate, within, same) =
        gate-key a f opts.debug_bodies header (require_api_key a header) key
          (require_api_key-some a header) e in
      let (token, parsed, ok) = (require_api_key_iff a header info).0 gate in
      (info, token, parsed, ok, within, same)

  admitted-pass : IsAdmitted → pass_through (api_layers guarded) header none ≡ some key
  unfolding api_layers pass_through enter
  admitted-pass (info, token, parsed, ok, within, same) =
      let debug = opts.debug_bodies in
      ap (λ g. and_next (behind_key a f debug header) (gate_result none g))
        ((require_api_key_iff a header info).1 (token, parsed, ok))
      ∙ (ap (λ b. and_next (behind_limit a f debug header) (if b then some (some info) else none))
            within
          ∙ (debug-passes debug header (some info) ∙ ap some (sym same)))

  api-Layered : (e : Endpoint) → IsApi e → All (Layered e (api_layers guarded)) (new guarded)
  api-Layered e is_api =
      let no : (d : Endpoint)
          → (IsApi d → ⊥)
          → (ls : List Layer) → d ≡ e
          → ls ≡ api_layers guarded =
        λ d out ls x. absurd (out (subst IsApi (sym x) is_api)) in
      new-All (Layered e (api_layers guarded)) guarded (no health (λ b. b) common)
        (no internal_health (λ b. b) common) (λ x. refl) (λ x. refl)
        (admin-All _ opts.admin_token opts.admin_keys
          (λ t b. (no create_key (λ b. b) _, no revoke_key (λ b. b) _)))

  api-route :
      (e : Endpoint)
      → IsApi e
      → (r : Route) × In r (new guarded) × (r.endpoint ≡ e) × (r.layers ≡ api_layers guarded)
  unfolding new
  api-route health u = absurd u
  api-route internal_health u = absurd u
  api-route create_key u = absurd u
  api-route revoke_key u = absurd u
  api-route chat_completions u =
      (_, inr (In-append_right (internal_routes guarded) _ _ (inl refl)), refl, refl)
  api-route list_models u =
      (_, inr (In-append_right (internal_routes guarded) _ _ (inr (inl refl))), refl, refl)

  -- With an authenticator and a limiter, a request reaches a handler of /v1 exactly where its header
  -- is a bearer token that the authenticator knows as a key and the limiter lets that key through;
  -- the key is then the one in the request's context.
  pub api_reached_iff : (e : Endpoint) → IsApi e → Reaches guarded e header key ↔ IsAdmitted
  api_reached_iff e is_api = (
    λ x.
        let (r, there, at, through) = x in
        let same =
          All-In (Layered e (api_layers guarded)) (new guarded) r (api-Layered e is_api) there at in
        pass-admitted (sym (ap (λ ls. pass_through ls header none) same) ∙ through),
    λ x.
        let (r, there, at, same) = api-route e is_api in
        (r, there, at, ap (λ ls. pass_through ls header none) same ∙ admitted-pass x),
  )
