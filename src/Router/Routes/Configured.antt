-- ===== src/Router/Routes/Configured.antt =====
-- The strategies of a router that NewRouter of internal/router/router.go accepts, group by group.
use llm_gateway.Base.{
  ◌≡◌, refl, sym, ap, ◌∙◌, inl, inr, Bool, true, false, not, ◌&&◌, Option, none, some, [], ◌∷◌,
  Dict, lookup, insert, lookup-insert, String, str_eq, Arithmetic, if◌then◌else◌, is_some,
  Bool-cases, arith,
}
use llm_gateway.Config.{ModelGroupConfig, ProviderConfig, RoutingConfig}
use llm_gateway.Provider.Registry.{Registry}
use llm_gateway.Router.{DefaultRouter, strategy_for}
use llm_gateway.Router.Build.{ok, build_or_refuse, check_candidates, check_groups, new_router}
use llm_gateway.Router.Strategies.Builder.{Strategy}
use llm_gateway.Router.Routes.{bind_ok, new_router-HasStrategies}

-- The strategy that a configuration names for a group: that of the last group of the name that names
-- one.
abbrev pub named_for : String → Option String → Dict ModelGroupConfig → Option String
named_for group so_far [] = so_far
named_for group so_far ((name, g) ∷ gs) =
    named_for group
      (if str_eq name group && not (str_eq g.strategy "") then some g.strategy else so_far) gs

abbrev or_default : String → Option String → String
or_default d none = d
or_default d (some s) = s

-- The strategy of a group by the configuration, the default where there is none.
abbrev pub configured_for : RoutingConfig → String → String
configured_for cfg group =
    if str_eq group ""
    then cfg.default_strategy
    else or_default cfg.default_strategy (named_for group none cfg.model_groups)

check_groups-named :
    (f : Arithmetic) (providers : Dict ProviderConfig) (group : String) (gs : Dict ModelGroupConfig)
    (by by' : Dict Strategy) (over over' : Dict String)
    → check_groups f providers gs by over ≡ ok (by', over')
    → lookup group over' ≡ named_for group (lookup group over) gs
unfolding check_groups
check_groups-named f providers group [] by by' over over' e =
    let eo : over ≡ over' = ground arith in ap (λ (o : Dict String). lookup group o) (sym eo)
check_groups-named f providers group ((name, g) ∷ gs) by by' over over' e =
    let (u, _, e') = bind_ok (check_candidates providers name 0 g.candidates) _ e in
    elim (Bool-cases (str_eq g.strategy "")) [
      | inl blank ↦
          check_groups-named f providers group gs by by' over over' (rw blank at e')
          ∙ ap (λ o. named_for group o gs)
              (sym (
                ap (λ b. if str_eq name group && not b then some g.strategy else lookup group over)
                  blank
                ∙ never (str_eq name group) _ _))
      | inr named ↦
          let (by1, eb, e3) = bind_ok (build_or_refuse f by g.strategy) _ (rw named at e') in
          check_groups-named f providers group gs by1 by' (insert name g.strategy over) over' e3
          ∙ ap (λ o. named_for group o gs)
              (lookup-insert name group g.strategy over
                ∙ sym (
                    ap
                      (λ b.
                        if str_eq name group && not b then some g.strategy else lookup group over)
                      named
                    ∙ always (str_eq name group) _ _))
    ]
  where
    never : (b : Bool) (x y : Option String) → (if b && false then x else y) ≡ y
    never true x y = refl
    never false x y = refl

    always : (b : Bool) (x y : Option String) → (if b && true then x else y) ≡ (if b then x else y)
    always true x y = refl
    always false x y = refl

-- A router that NewRouter accepts uses for every group the strategy that the configuration names for
-- it, or else the default one, and holds that strategy.
pub new_router-strategies :
    (f : Arithmetic) (reg : Registry) (cfg : RoutingConfig) (providers : Dict ProviderConfig)
    {r : DefaultRouter} (group : String)
    → new_router f (some reg) cfg providers ≡ ok r
    → (strategy_for r group ≡ configured_for cfg group)
      × (is_some (lookup (configured_for cfg group) r.strategies) ≡ true)
unfolding new_router lookup
new_router-strategies f reg cfg providers {r} group e =
    let (by, eb, e1) = bind_ok (build_or_refuse f [] cfg.default_strategy) _ e in
    let (made, eg, e2) = bind_ok (check_groups f providers cfg.model_groups by []) _ e1 in
    let ed : cfg.default_strategy ≡ r.default_strategy = ground arith in
    let eo : made.1 ≡ r.group_strategies = ground arith in
    let same : strategy_for r group ≡ configured_for cfg group = chosen r cfg group ed (
      ap (λ (x : Dict String). lookup group x) (sym eo)
      ∙ check_groups-named f providers group cfg.model_groups by made.0 [] made.1 eg) in
    (
      same,
      ap (λ name. is_some (lookup name r.strategies)) (sym same)
          ∙ new_router-HasStrategies f reg cfg providers e group,
    )
  where
    pick : (d : String) (o : Option String) → (elim o [ some s ↦ s | none ↦ d ]) ≡ or_default d o
    pick d none = refl
    pick d (some s) = refl

    chosen :
        (r : DefaultRouter) (cfg : RoutingConfig) (group : String)
        → cfg.default_strategy ≡ r.default_strategy
        → lookup group r.group_strategies ≡ named_for group none cfg.model_groups
        → strategy_for r group ≡ configured_for cfg group
    chosen r cfg group d o = elim (Bool-cases (str_eq group "")) [
      | inl blank ↦ rw blank (sym d)
      | inr given ↦
          rw (given, o, d) (pick r.default_strategy (named_for group none cfg.model_groups))
    ]
