-- ===== src/Router/Strategies.antt =====
-- internal/router/strategy: the five ways to rank candidates. A strategy is a value of its state,
-- and `Select` returns the pick and the state after it.
pub mod Cost
pub mod Latency
pub mod Builder
pub mod Scan
pub mod Contract
pub mod Ranking
use llm_gateway.Base.{
  ℕ, zero, suc, ◌+◌, ◌-◌, ◌*◌, ◌%◌, ◌^◌, Bool, true, false, not, ◌&&◌, Option, none, some, List, [],
  ◌∷◌, ◌++◌, map, Dict, lookup, insert, ℤ, pos, negsuc, ltb_ℤ, leb_ℤ, eqb_ℤ, wrap_int, String,
  str_eq, Float64, Arithmetic, if◌then◌else◌, get_elem?, length,
}
use Prim.Native.String.{len, ◌++◌ as join_text}
use llm_gateway.Model.Chat.{Message, ChatCompletionRequest}
use llm_gateway.Provider.Registry.{Provider, sort_on}
use llm_gateway.Router.Types.{Candidate, RequestMeta, Selected, picked, select_error, panics}

-- priority.go. `best` is the candidate at the index `best` of the source.
lowest : Candidate → List Candidate → Candidate
lowest best [] = best
lowest best (c ∷ cs) = lowest (if ltb_ℤ c.priority best.priority then c else best) cs

unfoldable pub select_priority : List Candidate → Selected
unfolding lowest
select_priority [] = select_error "priority: empty candidate list"
select_priority (c ∷ cs) = picked (lowest c cs)

-- candidates[i]
abbrev pub at_index : List Candidate → ℕ → Selected
at_index cs i = elim (get_elem? cs i) [ some c ↦ picked c | none ↦ panics ]

-- round_robin.go: the counters of the groups, each a uint64.
pub record RoundRobin : Type 0 where
  pub counters : Dict ℕ

abbrev or_zero : Option ℕ → ℕ
or_zero none = 0
or_zero (some n) = n

unfoldable pub counter_for : RoundRobin → String → ℕ
counter_for r group = or_zero (lookup group r.counters)

unfoldable pub select_round_robin :
    RoundRobin → List Candidate → RequestMeta → Selected × RoundRobin
select_round_robin r [] meta = (select_error "round_robin: empty candidate list", r)
select_round_robin r (c ∷ cs) meta =
    let added = (counter_for r meta.group + 1) % 2 ^ 64 in
    let idx = (added + (2 ^ 64 - 1)) % 2 ^ 64 in
    (
      at_index (c ∷ cs) (idx % length (c ∷ cs)),
      record { counters = insert meta.group added r.counters },
    )

-- weighted.go. `total` is an int, so its sum wraps.
add_weight : ℤ → ℤ → ℤ
add_weight (pos t) (pos w) = wrap_int (pos (t + w))
add_weight (negsuc t) (pos w) = if ltb_ℤ (pos t) (pos w) then pos (w - suc t) else negsuc (t - w)
add_weight t (negsuc w) = t

total_weight : ℤ → List Candidate → ℤ
unfolding add_weight
total_weight total [] = total
total_weight total (c ∷ cs) = total_weight (add_weight total c.weight) cs

last_positive : List Candidate → Option Candidate
last_positive [] = none
last_positive (c ∷ cs) = elim (last_positive cs) [
  | some l ↦ some l
  | none ↦ if ltb_ℤ (pos 0) c.weight then some c else none
]

last_of : Candidate → List Candidate → Candidate
last_of c [] = c
last_of c (d ∷ ds) = last_of d ds

module _ (f : Arithmetic) where
  -- The loop over the running sum; none where the pick exceeds them all.
  cumulative : Float64 → Float64 → List Candidate → Option Candidate
  cumulative pick cursor [] = none
  cumulative pick cursor (c ∷ cs) =
      let cursor' = if leb_ℤ c.weight (pos 0) then cursor else f.add cursor (f.of_int c.weight) in
      let rest = cumulative pick cursor' cs in
      if leb_ℤ c.weight (pos 0) then rest else if f.lt pick cursor' then some c else rest

  -- The uniform pick when every weight is zero. A negative index panics.
  uniform : Float64 → List Candidate → Selected
  uniform r cs = elim (f.to_int (f.mul r (f.of_int (pos (length cs))))) [
    | pos i ↦ if ltb_ℤ (pos i) (pos (length cs)) then at_index cs i else at_index cs (length cs - 1)
    | negsuc i ↦ panics
  ]

  unfoldable pub select_weighted : Float64 → List Candidate → Selected
  unfolding total_weight cumulative uniform last_positive last_of
  select_weighted r [] = select_error "weighted: empty candidate list"
  select_weighted r (c ∷ cs) =
      let total = total_weight (pos 0) (c ∷ cs) in
      if eqb_ℤ total (pos 0)
      then uniform r (c ∷ cs)
      else elim (cumulative (f.mul r (f.of_int total)) (f.of_int (pos 0)) (c ∷ cs)) [
        | some p ↦ picked p
        | none ↦ elim (last_positive (c ∷ cs)) [ some p ↦ picked p | none ↦ picked (last_of c cs) ]
      ]
