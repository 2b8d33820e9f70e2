-- ===== src/Gateway/Providers.antt =====
-- What buildProviders of cmd/gateway/main.go makes resolvable.
use mathlib.Core.Path.{subst}
use llm_gateway.Base.{
  length, ◌≡◌, refl, sym, inl, inr, true, false, Option, none, some, List, [], ◌∷◌, arith, Dict,
  lookup, String, str_eq, str_eq_iff, is_some, Bool-cases, In,
}
use llm_gateway.Provider.Adapters.{new_provider}
use llm_gateway.Config.{Config, ProviderConfig}
use llm_gateway.Provider.Health.{HealthConfig}
use llm_gateway.Provider.Registry.{Provider, Registry, new_registry, or_keep, register_alias}
use llm_gateway.Provider.Registry.Holders.{
  Holds, new-Holds, register-Holds, register_alias-Holds, register-found, register-keeps,
  register_alias-keeps,
}
use llm_gateway.Provider.Registry.Resolution.{
  IsClosed, new-IsClosed, register-IsClosed, register_alias-IsClosed,
}
use llm_gateway.Gateway.{
  Base, base_name, base_models, base_of, adapter_config, Built, add_base, add_provider,
  add_providers, target_of, add_aliases, health_config, no_providers, alias_names, build_providers,
}

-- A provider of the configuration that has a key and one of the three names.
abbrev pub IsUsable : String → ProviderConfig → Type 0
IsUsable name c = (str_eq c.api_key "" ≡ false) × (is_some (base_of name (adapter_config c)) ≡ true)

-- The provider stands behind a usable one of the configuration.
abbrev pub Backed : Dict ProviderConfig → Provider → Type 0
Backed cs p = (c : ProviderConfig) × In (p.name, c) cs × IsUsable p.name c

-- What an adapter that may be there says of itself.
abbrev Named : String → ProviderConfig → Option Base → Type 0
Named name c none = Unit
Named name c (some base) = (base_name base ≡ name) × (base_models base ≡ c.models)

base_of-Named :
    (name : String) (c : ProviderConfig) → Named name c (base_of name (adapter_config c))
unfolding base_of base_name base_models new_provider
base_of-Named name c = elim (Bool-cases (str_eq name "openai")) [
  | inl o ↦ rw o (sym ((str_eq_iff name "openai").0 o), refl)
  | inr o ↦ elim (Bool-cases (str_eq name "anthropic")) [
    | inl a ↦ rw (o, a) (sym ((str_eq_iff name "anthropic").0 a), refl)
    | inr a ↦ elim (Bool-cases (str_eq name "google")) [
      | inl g ↦ rw (o, a, g) (sym ((str_eq_iff name "google").0 g), refl)
      | inr g ↦ rw (o, a, g) tt
    ]
  ]
]

-- What the loop keeps: the registry is closed, and every provider in it is backed.
abbrev Sound : Dict ProviderConfig → Registry → Type 0
Sound cs r = IsClosed r × Holds (Backed cs) r

module _ (cfg : HealthConfig) where
  add_base-Sound :
      (cs : Dict ProviderConfig) (b : Built) (name : String) (c : ProviderConfig) (o : Option Base)
      → Named name c o
      → (is_some o ≡ true → Backed cs (record { name = name; health = none }))
      → Sound cs b.registry
      → Sound cs (add_base cfg b name c o).registry
  unfolding add_base
  add_base-Sound cs b name c none n good h = h
  add_base-Sound cs b name c (some base) n good h =
      let p : Provider = record {
        name = base_name base;
        health = some (length b.health_providers);
      } in
      (
        register-IsClosed b.registry p (base_models base) h.0,
        register-Holds (Backed cs) b.registry p (base_models base)
            (subst (λ x. Backed cs (record { name = x; health = p.health })) (sym n.0) (good refl))
            h.1,
      )

  add_provider-Sound :
      (cs : Dict ProviderConfig) (b : Built) (name : String) (c : ProviderConfig)
      → In (name, c) cs
      → Sound cs b.registry
      → Sound cs (add_provider cfg b name c).registry
  unfolding add_provider
  add_provider-Sound cs b name c there h = elim (Bool-cases (str_eq c.api_key "")) [
    | inl e ↦ rw (add_provider, e) h
    | inr e ↦
        rw (add_provider, e)
          (add_base-Sound cs b name c (base_of name (adapter_config c)) (base_of-Named name c)
            (λ known. (c, there, (e, known))) h)
  ]

  -- `cs` is what is left of `all_of`.
  add_providers-Sound :
      (cs all_of : Dict ProviderConfig) (b : Built)
      → ((x : String × ProviderConfig) → In x cs → In x all_of)
      → Sound all_of b.registry
      → Sound all_of (add_providers cfg b cs).registry
  unfolding add_providers
  add_providers-Sound [] all_of b sub h = h
  add_providers-Sound ((name, c) ∷ cs) all_of b sub h =
      add_providers-Sound cs all_of (add_provider cfg b name c) (λ x m. sub x (inr m))
        (add_provider-Sound all_of b name c (sub (name, c) (inl refl)) h)

  -- A model that is found stays found.
  add_base-keeps :
      (b : Built) (name : String) (c : ProviderConfig) (m : String) (o : Option Base)
      → is_some (lookup m b.registry.models) ≡ true
      → is_some (lookup m (add_base cfg b name c o).registry.models) ≡ true
  unfolding add_base
  add_base-keeps b name c m none h = h
  add_base-keeps b name c m (some base) h =
      register-keeps b.registry
        (record { name = base_name base; health = some (length b.health_providers) })
        (base_models base) m h

  add_provider-keeps :
      (b : Built) (name : String) (c : ProviderConfig) (m : String)
      → is_some (lookup m b.registry.models) ≡ true
      → is_some (lookup m (add_provider cfg b name c).registry.models) ≡ true
  unfolding add_provider
  add_provider-keeps b name c m h = elim (Bool-cases (str_eq c.api_key "")) [
    | inl e ↦ rw (add_provider, e) h
    | inr e ↦ rw (add_provider, e) (add_base-keeps b name c m (base_of name (adapter_config c)) h)
  ]

  add_providers-keeps :
      (cs : Dict ProviderConfig) (b : Built) (m : String)
      → is_some (lookup m b.registry.models) ≡ true
      → is_some (lookup m (add_providers cfg b cs).registry.models) ≡ true
  unfolding add_providers
  add_providers-keeps [] b m h = h
  add_providers-keeps ((name, c) ∷ cs) b m h =
      add_providers-keeps cs (add_provider cfg b name c) m (add_provider-keeps b name c m h)

  add_base-found :
      (b : Built) (name : String) (c : ProviderConfig) (m : String) (o : Option Base)
      → Named name c o
      → is_some o ≡ true
      → In m c.models
      → is_some (lookup m (add_base cfg b name c o).registry.models) ≡ true
  unfolding add_base
  add_base-found b name c m none n known there = ground (arith, known)
  add_base-found b name c m (some base) n known there =
      register-found b.registry
        (record { name = base_name base; health = some (length b.health_providers) })
        (base_models base) m (subst (λ ms. In m ms) (sym n.1) there)

  add_providers-found :
      (cs : Dict ProviderConfig) (b : Built) (name : String) (c : ProviderConfig) (m : String)
      → In (name, c) cs
      → IsUsable name c
      → In m c.models
      → is_some (lookup m (add_providers cfg b cs).registry.models) ≡ true
  unfolding add_providers
  add_providers-found [] b name c m listed usable there = absurd listed
  add_providers-found ((n, d) ∷ cs) b name c m (inr listed) usable there =
      add_providers-found cs (add_provider cfg b n d) name c m listed usable there
  add_providers-found ((n, d) ∷ cs) b name c m (inl same) usable there =
      add_providers-keeps cs (add_provider cfg b n d) m (
        subst (λ x. is_some (lookup m (add_provider cfg b x.0 x.1).registry.models) ≡ true)
          (sym same)
          (rw (add_provider, usable.0)
            (add_base-found b name c m (base_of name (adapter_config c)) (base_of-Named name c)
              usable.1 there)))

add_aliases-Sound :
    (cs : Dict ProviderConfig) (names : List String) (targets : Dict String) (r : Registry)
    → Sound cs r
    → Sound cs (add_aliases r names targets)
unfolding add_aliases
add_aliases-Sound cs [] targets r h = h
add_aliases-Sound cs (n ∷ ns) targets r h =
    let t = target_of targets n in
    add_aliases-Sound cs ns targets (or_keep r (register_alias r n t))
      (register_alias-IsClosed r n t h.0, register_alias-Holds (Backed cs) r n t h.1)

add_aliases-keeps :
    (names : List String) (targets : Dict String) (r : Registry) (m : String)
    → is_some (lookup m r.models) ≡ true
    → is_some (lookup m (add_aliases r names targets).models) ≡ true
unfolding add_aliases
add_aliases-keeps [] targets r m h = h
add_aliases-keeps (n ∷ ns) targets r m h =
    let t = target_of targets n in
    add_aliases-keeps ns targets (or_keep r (register_alias r n t)) m
      (register_alias-keeps r n t m h)

-- Whatever the configuration, the registry that is built resolves every alias in it and its target;
-- every model in it is served by a provider that is configured with a key and has one of the three
-- names; and a model that such a provider lists is found.
pub build_providers_serves :
    (cfg : Config) (name : String) (c : ProviderConfig) (m : String)
    → In (name, c) cfg.providers
    → IsUsable name c
    → In m c.models
    → let r = (build_providers cfg).registry in
      IsClosed r × Holds (Backed cfg.providers) r × (is_some (lookup m r.models) ≡ true)
unfolding build_providers
build_providers_serves cfg name c m listed usable there =
    let cs = cfg.providers in
    let names = alias_names cfg in
    let b = add_providers (health_config cfg) no_providers cs in
    let empty : Sound cs new_registry = (new-IsClosed, new-Holds (Backed cs)) in
    let all =
      add_aliases-Sound cs names cfg.model_aliases b.registry
        (add_providers-Sound (health_config cfg) cs cs no_providers (λ x m. m) empty) in
    (
      all.0,
      all.1,
      add_aliases-keeps names cfg.model_aliases b.registry m
          (add_providers-found (health_config cfg) cs no_providers name c m listed usable there),
    )
