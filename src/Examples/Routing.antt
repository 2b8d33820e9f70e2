-- ===== src/Examples/Routing.antt =====
-- Runs of the strategies and of the router.
use llm_gateway.Base.{
  ℕ, ◌+◌, ◌<◌, ◌≤◌, ◌≡◌, ◌⊎◌, refl, Bool, true, false, Option, none, some, List, [], ◌∷◌, arith, ℤ,
  pos, ◌<ℤ◌, String, str_eq, Dict, lookup, All, In, is_some,
}
use llm_gateway.Model.Chat.{ChatCompletionRequest}
use llm_gateway.Config.{CandidateConfig, ModelGroupConfig, ProviderConfig, RoutingConfig}
use llm_gateway.Provider.Health.{ProviderHealth}
use llm_gateway.Provider.Registry.{Provider, Registry}
use llm_gateway.Router.Types.{Candidate, RequestMeta, Decision, picked}
use llm_gateway.Router.Strategies.{select_priority, select_weighted, select_round_robin}
use llm_gateway.Router.Strategies.Scan.{FirstBest}
use llm_gateway.Router.Strategies.Cost.{CostOptimized, select_cost}
use llm_gateway.Router.Strategies.Ranking.{
  costs_less, any_candidate, comes_first, is_priced, select_priority-FirstBest,
  select_cost-FirstBest,
}
use llm_gateway.Router.Strategies.Contract.{Picks, select_weighted_positive, select-Picks}
use llm_gateway.Router.Strategies.Builder.{Strategy, select, priority, weighted}
use llm_gateway.Router.{
  DefaultRouter, Routed, routed, route_error, unknown_model, no_healthy_providers,
  resolve_candidates, filter_healthy, strategy_for, route,
}
use llm_gateway.Router.Build.{new_router, ok}
use llm_gateway.Router.Routes.Configured.{configured_for, new_router-strategies}
use llm_gateway.Router.Routes.{Serves, route_cases, new_router-HasStrategies}
use llm_gateway.Examples.Floats.{halves, halves-OrdersNumbers, halves-IsDraw}

abbrev vendor : Provider
vendor = record { name = "openai"; health = none }

abbrev offer : String → ℕ → ℤ → Candidate
offer name cost rank = record {
  provider = vendor;
  model = name;
  cost_per_1k_input_usd = cost;
  cost_per_1k_output_usd = cost;
  priority = rank;
  weight = rank;
}

abbrev one : Candidate
one = offer "gpt-4o" 60 (pos 2)

abbrev two : Candidate
two = offer "gpt-4" 20 (pos 1)

abbrev meta : RequestMeta
meta = record { org_id = "o"; key_id = "k"; attempt = pos 0; tried_names = []; group = "smart" }

abbrev request : ChatCompletionRequest
request = record {
  model = "smart";
  messages = record { role = "user"; content = "hello"; name = "" } ∷ [];
  temperature = none;
  top_p = none;
  n = none;
  stream = false;
  stop = [];
  max_tokens = some (pos 100);
  presence_penalty = none;
  frequency_penalty = none;
  user = "";
}

select_priority-FirstBest_example :
    (b : Candidate) × (select_priority (one ∷ two ∷ []) ≡ picked b)
    × FirstBest any_candidate comes_first b (one ∷ two ∷ [])
select_priority-FirstBest_example = select_priority-FirstBest one (two ∷ [])

select_weighted_positive_example :
    (b : Candidate) × (select_weighted halves 0 (one ∷ two ∷ []) ≡ picked b)
    × In b (one ∷ two ∷ [])
    × (pos 0 <ℤ b.weight)
select_weighted_positive_example =
    select_weighted_positive halves 0 one (two ∷ []) (omega arith) (omega arith)

select-Picks_example :
    Picks (select halves priority 0 (one ∷ two ∷ []) request meta).0 (one ∷ two ∷ [])
select-Picks_example = select-Picks halves 0 priority one (two ∷ []) request meta halves-IsDraw

abbrev fresh_state : CostOptimized
fresh_state = record { fallback = record { counters = [] }; warned = [] }

select_cost-FirstBest_example :
    ((b : Candidate) × (select_cost halves fresh_state (one ∷ two ∷ []) request meta
        ≡ (picked b, fresh_state))
      × FirstBest (is_priced halves request) (costs_less halves request) b (one ∷ two ∷ []))
    ⊎ (All (λ d. is_priced halves request d ≡ false) (one ∷ two ∷ [])
        × ((select_cost halves fresh_state (one ∷ two ∷ []) request meta).0
            ≡ (select_round_robin fresh_state.fallback (one ∷ two ∷ []) meta).0)
        × ((select_cost halves fresh_state (one ∷ two ∷ []) request meta).1.fallback
            ≡ (select_round_robin fresh_state.fallback (one ∷ two ∷ []) meta).1))
select_cost-FirstBest_example =
    select_cost-FirstBest halves request halves-OrdersNumbers fresh_state one (two ∷ []) meta
      (refl, (refl, tt))

abbrev registry : Registry
registry = record { models = ("gpt-4o", vendor) ∷ ("gpt-4", vendor) ∷ []; aliases = [] }

abbrev choice_of : String → CandidateConfig
choice_of name = record {
  provider = "openai";
  model = name;
  cost_per_1k_input_usd = 60;
  cost_per_1k_output_usd = 60;
  priority = pos 1;
  weight = pos 1;
}

abbrev groups : Dict ModelGroupConfig
groups =
    (
      "smart",
      record { strategy = "weighted"; candidates = choice_of "gpt-4o" ∷ choice_of "gpt-4" ∷ [] },
    )
    ∷ []

abbrev settings : RoutingConfig
settings = record {
  default_strategy = "priority";
  max_attempts = pos 3;
  model_groups = groups;
  pricing = [];
}

abbrev providers : Dict ProviderConfig
providers =
    (
      "openai",
      record {
        api_key = "sk";
        base_url = "";
        timeout = pos 0;
        models = [];
        max_retries = pos 2;
        retry_backoff = pos 1000;
      },
    )
    ∷ []

abbrev router : DefaultRouter
router = record {
  registry = registry;
  groups = groups;
  pricing = [];
  strategies = ("priority", priority) ∷ ("weighted", weighted) ∷ [];
  default_strategy = "priority";
  group_strategies = ("smart", "weighted") ∷ [];
  skip_warned = [];
}

router_built : new_router halves (some registry) settings providers ≡ ok router
unfolding new_router str_eq llm_gateway.Router.Build.build_or_refuse
    llm_gateway.Router.Strategies.Builder.build lookup
    llm_gateway.Router.Strategies.Builder.build_new llm_gateway.Router.Build.check_groups
    llm_gateway.Router.Build.check_candidates llm_gateway.Base.insert
router_built = refl

new_router-strategies_example :
    (strategy_for router "smart" ≡ configured_for settings "smart")
    × (is_some (lookup (configured_for settings "smart") router.strategies) ≡ true)
new_router-strategies_example =
    new_router-strategies halves registry settings providers "smart" router_built

abbrev no_store : ℕ → ProviderHealth
no_store i = record {
  consecutive_fails = pos 0;
  last_success = 0;
  last_failure = 0;
  last_error = "";
  healthy = true;
  failure_threshold = pos 5;
  cooldown_period = pos 1000;
}

abbrev clock : ℕ → ℕ
clock i = 100 + i

route_cases_example :
    ((resolve_candidates halves router "smart" ≡ none)
      × ((route halves no_store clock 0 router (some request) meta).0 ≡ route_error unknown_model))
    ⊎ ((group : String) × (cs : List Candidate) × (warned : List String) × (resolve_candidates
            halves router "smart"
          ≡ some (group, cs, warned))
        × (((filter_healthy no_store clock 0 cs ≡ [])
              × ((route halves no_store clock 0 router (some request) meta).0
                  ≡ route_error no_healthy_providers))
            ⊎ ((p : Provider) × (d : Decision) × ((route halves no_store clock 0 router
                    (some request)
                    meta).0
                  ≡ routed p d)
                × Serves halves no_store clock 0 router.strategies
                    (strategy_for router group)
                    group
                    cs
                    p
                    d)))
route_cases_example =
    route_cases halves no_store clock 0 router request meta halves-IsDraw
      (new_router-HasStrategies halves registry settings providers router_built)
