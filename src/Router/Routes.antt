-- ===== src/Router/Routes.antt =====
-- What Route of internal/router/router.go answers, and that a router that NewRouter has checked
-- never lacks a strategy.
pub mod Configured
use llm_gateway.Base.{
  ℕ, suc, ◌≡◌, refl, sym, ◌∙◌, ap, ◌⊎◌, inl, inr, true, none, some, List, [], ◌∷◌, arith, Dict,
  lookup, insert, lookup-insert, String, str_eq, str_eq_iff, In, Float64, Arithmetic, Option-cases,
  Bool-cases, is_some,
}
use mathlib.Core.Path.{subst}
use llm_gateway.Config.{ModelGroupConfig, ProviderConfig, RoutingConfig}
use llm_gateway.Model.Chat.{ChatCompletionRequest}
use llm_gateway.Provider.Health.{ProviderHealth}
use llm_gateway.Provider.Registry.{Provider, Registry}
use llm_gateway.Router.Types.{Candidate, RequestMeta, Decision}
use llm_gateway.Router.Strategies.Builder.{Strategy, strategy_name, build, build_new}
use llm_gateway.Router.Strategies.Contract.{IsDraw, select-Picks}
use llm_gateway.Router.{
  DefaultRouter, routed, route_error, unknown_model, no_healthy_providers, resolve_candidates,
  is_offered, filter_healthy, strategy_for, decision_of, decide, choose, route,
}
use llm_gateway.Router.Build.{
  Built, ok, refused, check_candidates, build_or_refuse, check_groups, new_router, ◌>>=◌,
}

-- The default strategy and every override are in the Builder's map.
abbrev pub HasStrategies : DefaultRouter → Type 0
HasStrategies r = (group : String) → is_some (lookup (strategy_for r group) r.strategies) ≡ true

filter_healthy-In :
    (store : ℕ → ProviderHealth) (clock : ℕ → ℕ) (i : ℕ) (cs : List Candidate) (c : Candidate)
    → In c (filter_healthy store clock i cs)
    → In c cs × ((k : ℕ) × (is_offered store (clock k) c ≡ true))
unfolding filter_healthy
filter_healthy-In store clock i [] c m = absurd m
filter_healthy-In store clock i (d ∷ ds) c m = elim (Bool-cases (is_offered store (clock i) d)) [
  | inr down ↦ let (n, k) = filter_healthy-In store clock (suc i) ds c (rw down at m) in (inr n, k)
  | inl up ↦ elim (cons_cases (rw up at m)) [
    | inl e ↦ (inl e, (i, subst (λ x. is_offered store (clock i) x ≡ true) e up))
    | inr m' ↦ let (n, k) = filter_healthy-In store clock (suc i) ds c m' in (inr n, k)
  ]
]
  where
    cons_cases :
        In c (d ∷ filter_healthy store clock (suc i) ds)
        → (d ≡ c) ⊎ In c (filter_healthy store clock (suc i) ds)
    cons_cases x = x

module _ (f : Arithmetic) (store : ℕ → ProviderHealth) (clock : ℕ → ℕ) (draw : Float64) where
  -- What a routed request went through.
  pub record Serves (by : Dict Strategy) (name group : String) (cs : List Candidate) (p : Provider)
      (d : Decision) : Type 0 where
    pub candidate : Candidate
    pub listed : In candidate cs
    pub asked_at : ℕ
    pub offered : is_offered store (clock asked_at) candidate ≡ true
    pub ranked_by : Strategy
    pub held : lookup name by ≡ some ranked_by
    pub provider : p ≡ candidate.provider
    pub decision : d ≡ record {
      provider = candidate.provider.name;
      model = candidate.model;
      strategy = strategy_name ranked_by;
      group = group;
      experiment_name = "";
      variant = "";
    }

  choose-Serves :
      (r : DefaultRouter) (group : String) (cs whole : List Candidate) (req : ChatCompletionRequest)
      (meta : RequestMeta)
      → IsDraw f draw
      → is_some (lookup (strategy_for r group) r.strategies) ≡ true
      → ((c : Candidate) → In c cs → In c whole × ((k : ℕ) × (is_offered store (clock k) c ≡ true)))
      → ((cs ≡ [])
          × ((choose f store clock draw r group cs req meta).0 ≡ route_error no_healthy_providers))
        ⊎ ((p : Provider) × (d : Decision) × ((choose f store clock draw r group cs req meta).0
              ≡ routed p d)
            × Serves r.strategies (strategy_for r group) group whole p d)
  unfolding choose decide
  choose-Serves r group [] whole req meta dr has h = inl (refl, refl)
  choose-Serves r group (c ∷ cs) whole req meta dr has h =
      elim (Option-cases (lookup (strategy_for r group) r.strategies)) [
        | inl e ↦ absurd (ground arith)
        | inr (s, e) ↦
            let (b, pick, m) = select-Picks f draw s c cs req (record meta { group = group }) dr in
            let (there, k) = h b m in
            inr (
              b.provider,
              decision_of s group b,
              rw (e, choose) (rw (pick, decide)),
              record {
                candidate = b;
                listed = there;
                asked_at = k.0;
                offered = k.1;
                ranked_by = s;
                held = e;
                provider = refl;
                decision = refl;
              },
            )
      ]

  -- Route answers a request whose model no group and no registration knows by ErrUnknownModel, one
  -- whose candidates are all held back by their health by ErrNoHealthyProviders, and any other by
  -- the provider of one of its candidates that was offered when it was asked, with the decision
  -- that names that candidate and the strategy of the group. So it never panics and no strategy
  -- fails, where the Builder holds the strategies and the draw is from [0, 1).
  pub route_cases :
      (r : DefaultRouter) (req : ChatCompletionRequest) (meta : RequestMeta)
      → IsDraw f draw
      → HasStrategies r
      → ((resolve_candidates f r req.model ≡ none)
          × ((route f store clock draw r (some req) meta).0 ≡ route_error unknown_model))
        ⊎ ((group : String) × (cs : List Candidate) × (warned : List String) × (resolve_candidates f
                r req.model
              ≡ some (group, cs, warned))
            × (((filter_healthy store clock 0 cs ≡ [])
                  × ((route f store clock draw r (some req) meta).0
                      ≡ route_error no_healthy_providers))
                ⊎ ((p : Provider) × (d : Decision) × ((route f store clock draw r (some req) meta).0
                      ≡ routed p d)
                    × Serves r.strategies (strategy_for r group) group cs p d)))
  unfolding route
  route_cases r req meta dr has = elim (Option-cases (resolve_candidates f r req.model)) [
    | inl e ↦ inl (e, rw (e, route))
    | inr (x, e) ↦ inr (
      x.0,
      x.1,
      x.2,
      e,
      rw (e, route)
          (choose-Serves (record r { skip_warned = x.2 }) x.0 (filter_healthy store clock 0 x.1) x.1
            req meta dr (has x.0) (filter_healthy-In store clock 0 x.1)),
    )
  ]

-- Startup.
Holds : Dict Strategy → String → Type 0
Holds by name = is_some (lookup name by) ≡ true

is_some-insert :
    (k j : String) (s : Strategy) (by : Dict Strategy)
    → (Holds by j ⊎ (k ≡ j))
    → Holds (insert k s by) j
unfolding Holds
is_some-insert k j s by (inl h) = rw (lookup-insert k j s by) (ground arith)
is_some-insert k j s by (inr e) = rw (lookup-insert k j s by) (ground (arith, str_eq_iff k j))

build_or_refuse-Holds :
    (f : Arithmetic) (by by' : Dict Strategy) (name : String)
    → build_or_refuse f by name ≡ ok by'
    → Holds by' name × ((j : String) → Holds by j → Holds by' j)
unfolding build_or_refuse build Holds
build_or_refuse-Holds f by by' name e = elim (Option-cases (lookup name by)) [
  | inr (s, there) ↦
      let same : by ≡ by' = ground arith in (rw (← same) (ground arith), λ j h. rw (← same) h)
  | inl missing ↦ elim (Option-cases (build_new f name)) [
    | inl bad ↦ absurd (ground arith)
    | inr (s, made) ↦
        let new : insert name s by ≡ by' = ground arith in
        (
          rw (← new) (is_some-insert name name s by (inr refl)),
          λ j h. rw (← new) (is_some-insert name j s by (inl h)),
        )
  ]
]

-- Every override so far is held.
AllHeld : Dict Strategy → Dict String → Type 0
AllHeld by over = (group name : String) → lookup group over ≡ some name → Holds by name

no_overrides : (by : Dict Strategy) → AllHeld by []
unfolding AllHeld lookup
no_overrides by group name e = cc

pub bind_ok :
    {A B : Type 0} (m : Built A) (k : A → Built B) {b : B}
    → (m >>= k) ≡ ok b
    → (a : A) × (m ≡ ok a) × (k a ≡ ok b)
bind_ok (ok a) k e = (a, refl, e)
bind_ok (refused x) k e = cc

insert-AllHeld :
    (by by' : Dict Strategy) (over : Dict String) (group name : String)
    → AllHeld by over
    → Holds by' name
    → ((j : String) → Holds by j → Holds by' j)
    → AllHeld by' (insert group name over)
unfolding AllHeld
insert-AllHeld by by' over group name h here mono k n e =
    let e' = sym (lookup-insert group k name over) ∙ e in
    elim (Bool-cases (str_eq group k)) [
      | inl same ↦ let en : name ≡ n = ground arith in rw (← en) here
      | inr other ↦ mono n (h k n (ground arith))
    ]

check_groups-AllHeld :
    (f : Arithmetic) (providers : Dict ProviderConfig) (gs : Dict ModelGroupConfig)
    (by by' : Dict Strategy) (over over' : Dict String)
    → check_groups f providers gs by over ≡ ok (by', over')
    → AllHeld by over
    → AllHeld by' over' × ((j : String) → Holds by j → Holds by' j)
unfolding check_groups
check_groups-AllHeld f providers [] by by' over over' e h =
    let eb : by ≡ by' = ground arith in
    let eo : over ≡ over' = ground arith in rw (← eb, ← eo) (h, λ j x. x)
check_groups-AllHeld f providers ((group, g) ∷ gs) by by' over over' e h =
    let (u, _, e') = bind_ok (check_candidates providers group 0 g.candidates) _ e in
    elim (Bool-cases (str_eq g.strategy "")) [
      | inl blank ↦ check_groups-AllHeld f providers gs by by' over over' (rw blank at e') h
      | inr named ↦
          let (by1, eb, e3) = bind_ok (build_or_refuse f by g.strategy) _ (rw named at e') in
          let (here, mono) = build_or_refuse-Holds f by by1 g.strategy eb in
          let (all, mono') =
            check_groups-AllHeld f providers gs by1 by' (insert group g.strategy over) over' e3
              (insert-AllHeld by by1 over group g.strategy h here mono) in
          (all, λ j x. mono' j (mono j x))
    ]

strategy_for-cases :
    (r : DefaultRouter) (group : String)
    → (strategy_for r group ≡ r.default_strategy)
      ⊎ (lookup group r.group_strategies ≡ some (strategy_for r group))
strategy_for-cases r group = ground arith

-- A router that NewRouter accepts holds the default strategy and the strategy of every group that
-- overrides it.
pub new_router-HasStrategies :
    (f : Arithmetic) (reg : Registry) (cfg : RoutingConfig) (providers : Dict ProviderConfig)
    {r : DefaultRouter}
    → new_router f (some reg) cfg providers ≡ ok r
    → HasStrategies r
unfolding new_router Holds AllHeld
new_router-HasStrategies f reg cfg providers {r} e group =
    let (by, eb, e1) = bind_ok (build_or_refuse f [] cfg.default_strategy) _ e in
    let (made, eg, e2) = bind_ok (check_groups f providers cfg.model_groups by []) _ e1 in
    let (here, _) = build_or_refuse-Holds f [] by cfg.default_strategy eb in
    let (all, mono) =
      check_groups-AllHeld f providers cfg.model_groups by made.0 [] made.1 eg (no_overrides by) in
    let es : made.0 ≡ r.strategies = ground arith in
    let ed : cfg.default_strategy ≡ r.default_strategy = ground arith in
    let eo : made.1 ≡ r.group_strategies = ground arith in
    elim (strategy_for-cases r group) [
      | inl d ↦ rw d (rw (← es, ← ed) (mono cfg.default_strategy here))
      | inr o ↦
          rw (← es)
            (all group (strategy_for r group) (ap (λ (x : Dict String). lookup group x) eo ∙ o))
    ]
