-- ===== src/Config/Checks.antt =====
-- What a configuration that passes internal/config/load.go is known to hold.
use llm_gateway.Base.{
  ◌≡◌, refl, ◌≢◌, ◌↔◌, true, none, [], ◌∷◌, map, arith, Dict, String, str_eq, str_eq_iff, In, sym,
  ◌∙◌, ap, Bool-cases, inl, inr,
}
use llm_gateway.Config.{
  Config, ProviderConfig, apply_defaults, has_provider, validate, default_provider,
}

has_provider-defaults :
    (ps : Dict ProviderConfig) → has_provider (map default_provider ps) ≡ has_provider ps
unfolding has_provider default_provider
has_provider-defaults [] = refl
has_provider-defaults ((name, p) ∷ ps) = rw (has_provider-defaults ps)

-- The defaults do not change whether a configuration is valid.
pub validate-apply_defaults : (cfg : Config) → validate (apply_defaults cfg) ≡ validate cfg
unfolding validate apply_defaults
validate-apply_defaults cfg = rw (has_provider-defaults cfg.providers)

has_provider_iff :
    (ps : Dict ProviderConfig)
    → (has_provider ps ≡ true) ↔ ((e : String × ProviderConfig) × In e ps × (e.1.api_key ≢ ""))
unfolding has_provider
has_provider_iff [] = (λ h. cc, λ x. absurd x.1)
has_provider_iff ((name, p) ∷ ps) = elim (Bool-cases (str_eq p.api_key "")) [
  | inr keyed ↦
      (λ h. ((name, p), inl refl, λ e. ground (arith, str_eq_iff p.api_key "")), λ x. ground arith)
  | inl blank ↦ (
    λ h. let (e, m, k) = (has_provider_iff ps).0 (ground arith) in (e, inr m, k),
    λ x. elim x.1 [
      | inl e ↦ absurd (
          x.2 (
            ap (λ (y : String × ProviderConfig). y.1.api_key) (sym e)
            ∙ (str_eq_iff p.api_key "").0 blank))
      | inr m ↦ let ih = (has_provider_iff ps).1 (x.0, m, x.2) in ground arith
    ],
  )
]

-- A configuration passes validation exactly when some provider has an API key, authentication
-- comes with a database and an admin token, and rate limiting with a Redis address.
pub validate_iff :
    (cfg : Config)
    → (validate cfg ≡ none) ↔ (
        ((e : String × ProviderConfig) × In e cfg.providers × (e.1.api_key ≢ ""))
        × (cfg.auth.enabled ≡ true → (cfg.database.postgres.dsn ≢ "") × (cfg.auth.admin_token ≢ ""))
        × (cfg.rate_limit.enabled ≡ true → cfg.database.redis.dsn ≢ ""))
unfolding validate
validate_iff cfg =
    let some_key = has_provider_iff cfg.providers in
    let dsn = str_eq_iff cfg.database.postgres.dsn "" in
    let token = str_eq_iff cfg.auth.admin_token "" in
    let redis = str_eq_iff cfg.database.redis.dsn "" in
    (
      λ h. (
        some_key.0 (ground arith),
        λ a. (λ e. ground arith, λ e. ground arith),
        λ a e. ground arith,
      ),
      λ x. let k = some_key.1 x.0 in ground arith,
    )
