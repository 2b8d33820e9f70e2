-- ===== src/Router/Strategies/Builder.antt =====
-- internal/router/strategy/strategy.go: the strategies by name, memoised.
use llm_gateway.Base.{
  ◌*◌, Option, none, some, List, [], Dict, lookup, insert, pos, String, str_eq, Float64, Arithmetic,
  if◌then◌else◌, second,
}
use llm_gateway.Model.Chat.{ChatCompletionRequest}
use llm_gateway.Router.Types.{Candidate, RequestMeta, Selected}
use llm_gateway.Router.Strategies.{RoundRobin, select_priority, select_round_robin, select_weighted}
use llm_gateway.Router.Strategies.Cost.{CostOptimized, select_cost}
use llm_gateway.Router.Strategies.Latency.{LatencyOptimized, new_latency_optimized, select_latency}

-- A strategy with its state: one constructor for each implementation of the interface.
pub data Strategy : Type 0 where
  cost_optimized : CostOptimized → Strategy
  latency_optimized : LatencyOptimized → Strategy
  round_robin : RoundRobin → Strategy
  weighted priority : Strategy

unfoldable pub strategy_name : Strategy → String
strategy_name (cost_optimized s) = "cost_optimized"
strategy_name (latency_optimized s) = "latency_optimized"
strategy_name (round_robin s) = "round_robin"
strategy_name weighted = "weighted"
strategy_name priority = "priority"

abbrev new_round_robin : RoundRobin
new_round_robin = record { counters = [] }

module _ (f : Arithmetic) where
  -- The free function `Build`; none is "unknown routing strategy".
  unfoldable pub build_new : String → Option Strategy
  build_new name =
      if str_eq name "cost_optimized"
      then some (cost_optimized (record { fallback = new_round_robin; warned = [] }))
      else if str_eq name "latency_optimized"
      then some (latency_optimized (new_latency_optimized f (pos (5 * second)) (pos (60 * second))))
      else if str_eq name "round_robin"
      then some (round_robin new_round_robin)
      else if str_eq name "weighted"
      then some weighted
      else if str_eq name "priority"
      then some priority
      else none

  -- `Builder.Build`: the instances by name, with the new one where the name is asked first.
  unfoldable pub build : Dict Strategy → String → Option (Dict Strategy)
  build by name = elim (lookup name by) [
    | some s ↦ some by
    | none ↦ elim (build_new name) [ none ↦ none | some s ↦ some (insert name s by) ]
  ]

  -- `Select` of whichever strategy it is; `r` is the random number that Weighted draws.
  unfoldable pub select :
      Strategy
      → Float64
      → List Candidate
      → ChatCompletionRequest
      → RequestMeta
      → Selected × Strategy
  select (cost_optimized s) r cs req meta =
      let (p, s') = select_cost f s cs req meta in (p, cost_optimized s')
  select (latency_optimized s) r cs req meta =
      let (p, s') = select_latency f s cs meta in (p, latency_optimized s')
  select (round_robin s) r cs req meta =
      let (p, s') = select_round_robin s cs meta in (p, round_robin s')
  select weighted r cs req meta = (select_weighted f r cs, weighted)
  select priority r cs req meta = (select_priority cs, priority)
