-- ===== src/Router.antt =====
-- internal/router/router.go and candidates.go: which provider serves a request.
pub mod Types
pub mod Strategies
pub mod Build
pub mod Routes
use Prim.Native.String.{◌++◌}
use llm_gateway.Base.{
  ℕ, suc, Bool, true, false, not, ◌&&◌, ◌||◌, Option, none, some, List, [], ◌∷◌, Dict, lookup,
  insert, ℤ, pos, String, str_eq, Float64, Arithmetic, if◌then◌else◌,
}
use llm_gateway.Config.{
  CandidateConfig, CandidatePricing, ModelGroupConfig, ProviderConfig, RoutingConfig,
}
use llm_gateway.Model.Chat.{ChatCompletionRequest}
use llm_gateway.Provider.Health.{ProviderHealth, is_healthy}
use llm_gateway.Provider.Registry.{
  Provider, Registry, resolve, found, unknown, canonical_model, health_for,
}
use Types.{Candidate, RequestMeta, Decision, Selected, picked, select_error, panics}
use Strategies.Builder.{Strategy, strategy_name, build, select}

-- `strategies` is the Builder's map: the default strategy and the overrides of the groups are
-- pointers into it, by name. `skip_warned` holds the keys of the sync.Map whose Once has run.
pub record DefaultRouter : Type 0 where
  pub registry : Registry
  pub groups : Dict ModelGroupConfig
  pub pricing : Dict CandidatePricing
  pub strategies : Dict Strategy
  pub default_strategy : String
  pub group_strategies : Dict String
  pub skip_warned : List String

pub data RouteError : Type 0 where
  nil_request unknown_model no_healthy_providers : RouteError
  strategy_error : String → String → RouteError

-- `crashed` is a panic in a strategy.
pub data Routed : Type 0 where
  routed : Provider → Decision → Routed
  route_error : RouteError → Routed
  crashed : Routed

contains : List String → String → Bool
contains [] s = false
contains (t ∷ ts) s = str_eq t s || contains ts s

-- The keys warned about, and whether this call warns.
unfoldable pub warn_skip_once : List String → String → String → List String × Bool
unfolding contains
warn_skip_once warned provider model =
    let key = provider ++ ("\0" ++ model) in
    if contains warned key then (warned, false) else (key ∷ warned, true)

abbrev pub candidate_of : Provider → CandidateConfig → Candidate
candidate_of p c = record {
  provider = p;
  model = c.model;
  cost_per_1k_input_usd = c.cost_per_1k_input_usd;
  cost_per_1k_output_usd = c.cost_per_1k_output_usd;
  priority = c.priority;
  weight = c.weight;
}

-- The candidates of a group, and the keys warned about after them.
unfoldable pub expand_group :
    Registry → List String → List CandidateConfig → List Candidate × List String
expand_group reg warned [] = ([], warned)
expand_group reg warned (c ∷ cs) = elim (resolve reg c.model) [
  | unknown names ↦ expand_group reg (warn_skip_once warned c.provider c.model).0 cs
  | found p ↦ let (rest, warned') = expand_group reg warned cs in (candidate_of p c ∷ rest, warned')
]

module _ (f : Arithmetic) where
  abbrev price_of : Option CandidatePricing → CandidatePricing
  price_of none = record {
    cost_per_1k_input_usd = f.of_int (pos 0);
    cost_per_1k_output_usd = f.of_int (pos 0);
  }
  price_of (some p) = p

  -- The one candidate of a concrete model or an alias.
  unfoldable pub concrete_candidate : DefaultRouter → Provider → String → Candidate
  concrete_candidate r p name =
      let canonical = canonical_model r.registry name in
      let price = price_of (lookup canonical r.pricing) in
      record {
        provider = p;
        model = canonical;
        cost_per_1k_input_usd = price.cost_per_1k_input_usd;
        cost_per_1k_output_usd = price.cost_per_1k_output_usd;
        priority = pos 0;
        weight = pos 1;
      }

  -- The group name, the candidates and the keys warned about; none is ErrUnknownModel.
  unfoldable pub resolve_candidates :
      DefaultRouter → String → Option (String × List Candidate × List String)
  resolve_candidates r name = elim (lookup name r.groups) [
    | some g ↦
        let (cs, warned) = expand_group r.registry r.skip_warned g.candidates in
        some (name, cs, warned)
    | none ↦ elim (resolve r.registry name) [
      | unknown names ↦ none
      | found p ↦ some ("", concrete_candidate r p name ∷ [], r.skip_warned)
    ]
  ]

abbrev pub is_offered : (ℕ → ProviderHealth) → ℕ → Candidate → Bool
is_offered store now c = elim (health_for store c.provider) [
  | none ↦ true
  | some h ↦ is_healthy h now
]

-- `clock i` is the time at which the i-th candidate is asked.
unfoldable pub filter_healthy : (ℕ → ProviderHealth) → (ℕ → ℕ) → ℕ → List Candidate → List Candidate
filter_healthy store clock i [] = []
filter_healthy store clock i (c ∷ cs) =
    let rest = filter_healthy store clock (suc i) cs in
    if is_offered store (clock i) c then c ∷ rest else rest

-- The override of the group, where there is one.
abbrev pub strategy_for : DefaultRouter → String → String
strategy_for r group =
    if not (str_eq group "")
    then (elim (lookup group r.group_strategies) [ some s ↦ s | none ↦ r.default_strategy ])
    else r.default_strategy

abbrev pub decision_of : Strategy → String → Candidate → Decision
decision_of s group c = record {
  provider = c.provider.name;
  model = c.model;
  strategy = strategy_name s;
  group = group;
  experiment_name = "";
  variant = "";
}

unfoldable pub decide : Strategy → String → Selected → Routed
decide s group (picked c) = routed c.provider (decision_of s group c)
decide s group (select_error e) = route_error (strategy_error (strategy_name s) e)
decide s group panics = crashed

module _ (f : Arithmetic) (store : ℕ → ProviderHealth) (clock : ℕ → ℕ) (draw : Float64) where
  -- The part of Route behind the health filter. A name that the Builder does not hold is a nil
  -- Strategy, whose call panics.
  unfoldable pub choose :
      DefaultRouter
      → String
      → List Candidate
      → ChatCompletionRequest
      → RequestMeta
      → Routed × DefaultRouter
  unfolding decide
  choose r group [] req meta = (route_error no_healthy_providers, r)
  choose r group (c ∷ cs) req meta = elim (lookup (strategy_for r group) r.strategies) [
    | none ↦ (crashed, r)
    | some s ↦
        let (p, s') = select f s draw (c ∷ cs) req (record meta { group = group }) in
        (decide s group p, record r { strategies = insert (strategy_for r group) s' r.strategies })
  ]

  unfoldable pub route :
      DefaultRouter → Option ChatCompletionRequest → RequestMeta → Routed × DefaultRouter
  unfolding choose
  route r none meta = (route_error nil_request, r)
  route r (some req) meta = elim (resolve_candidates f r req.model) [
    | none ↦ (route_error unknown_model, r)
    | some (group, cs, warned) ↦
        choose (record r { skip_warned = warned }) group (filter_healthy store clock 0 cs) req meta
  ]
