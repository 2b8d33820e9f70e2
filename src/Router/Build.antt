-- ===== src/Router/Build.antt =====
-- NewRouter of internal/router/router.go: the routing configuration is checked at startup.
use llm_gateway.Base.{
  ℕ, suc, Option, none, some, List, [], ◌∷◌, Dict, lookup, insert, String, str_eq, Arithmetic,
  if◌then◌else◌, is_some,
}
use llm_gateway.Config.{CandidateConfig, ModelGroupConfig, ProviderConfig, RoutingConfig}
use llm_gateway.Provider.Registry.{Registry}
use llm_gateway.Router.{DefaultRouter}
use llm_gateway.Router.Strategies.Builder.{Strategy, build}

pub data BuildError : Type 0 where
  registry_required : BuildError
  unknown_strategy : String → BuildError
  provider_empty model_empty : String → ℕ → BuildError
  provider_not_configured : String → ℕ → String → BuildError

pub data Built (A : Type 0) : Type 0 where
  ok : A → Built A
  refused : BuildError → Built A

infixl 5 ◌>>=◌
abbrev pub ◌>>=◌ : {A B : Type 0} → Built A → (A → Built B) → Built B
ok a >>= k = k a
refused e >>= k = refused e

unfoldable pub check_candidate :
    Dict ProviderConfig → String → ℕ → CandidateConfig → Built (Unit {0})
check_candidate providers group i c =
    if str_eq c.provider ""
    then refused (provider_empty group i)
    else if str_eq c.model ""
    then refused (model_empty group i)
    else if is_some (lookup c.provider providers)
    then ok tt
    else refused (provider_not_configured group i c.provider)

unfoldable pub check_candidates :
    Dict ProviderConfig → String → ℕ → List CandidateConfig → Built (Unit {0})
unfolding check_candidate
check_candidates providers group i [] = ok tt
check_candidates providers group i (c ∷ cs) = do
  _ ← check_candidate providers group i c
  check_candidates providers group (suc i) cs

module _ (f : Arithmetic) where
  unfoldable pub build_or_refuse : Dict Strategy → String → Built (Dict Strategy)
  build_or_refuse by name = elim (build f by name) [
    | some by' ↦ ok by'
    | none ↦ refused (unknown_strategy name)
  ]

  -- The loop over the groups: the Builder's map and the overrides so far. Its order is the map's.
  unfoldable pub check_groups :
      Dict ProviderConfig
      → Dict ModelGroupConfig
      → Dict Strategy
      → Dict String
      → Built (Dict Strategy × Dict String)
  check_groups providers [] by over = ok (by, over)
  check_groups providers ((group, g) ∷ gs) by over = do
    _ ← check_candidates providers group 0 g.candidates
    let rest = λ (by' : Dict Strategy). check_groups providers gs by' (insert group g.strategy over)
    let skip = check_groups providers gs by over
    if str_eq g.strategy "" then skip else build_or_refuse by g.strategy >>= rest

  unfoldable pub new_router :
      Option Registry → RoutingConfig → Dict ProviderConfig → Built DefaultRouter
  new_router none cfg providers = refused registry_required
  new_router (some reg) cfg providers = do
    by ← build_or_refuse [] cfg.default_strategy
    made ← check_groups providers cfg.model_groups by []
    ok (record {
      registry = reg;
      groups = cfg.model_groups;
      pricing = cfg.pricing;
      strategies = made.0;
      default_strategy = cfg.default_strategy;
      group_strategies = made.1;
      skip_warned = [];
    })
