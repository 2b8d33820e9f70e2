-- ===== src/Router/Strategies/Cost.antt =====
-- internal/router/strategy/cost.go.
use Prim.Native.String.{len, ◌++◌}
use llm_gateway.Base.{
  ℕ, ◌+◌, Bool, true, false, ◌&&◌, ◌||◌, Option, none, some, List, [], ◌∷◌, map, ℤ, pos, ltb_ℤ,
  String, str_eq, Float64, Arithmetic, if◌then◌else◌,
}
use llm_gateway.Model.Chat.{Message, ChatCompletionRequest}
use llm_gateway.Provider.Registry.{sort_on}
use llm_gateway.Router.Types.{Candidate, RequestMeta, Selected, picked, select_error}
use llm_gateway.Router.Strategies.{RoundRobin, select_round_robin}

-- `warned` holds the keys of the sync.Map whose Once has run.
pub record CostOptimized : Type 0 where
  pub fallback : RoundRobin
  pub warned : List String

abbrev pub default_max_tokens : ℕ
default_max_tokens = 256

unfoldable pub count_chars : List Message → ℕ
count_chars [] = 0
count_chars (m ∷ ms) = len m.content + count_chars ms

-- req.MaxTokens where it is set and positive
abbrev pub out_tokens : Option ℤ → ℤ
out_tokens none = pos default_max_tokens
out_tokens (some n) = if ltb_ℤ (pos 0) n then n else pos default_max_tokens

join_with : String → List String → String
join_with sep [] = ""
join_with sep (s ∷ []) = s
join_with sep (s ∷ (t ∷ ts)) = s ++ (sep ++ join_with sep (t ∷ ts))

unfoldable pub warn_key : String → List Candidate → String
unfolding join_with
warn_key group cs = group ++ ("\0" ++ join_with "," (sort_on (λ s. s) (map (λ c. c.model) cs)))

contains : List String → String → Bool
contains [] s = false
contains (t ∷ ts) s = str_eq t s || contains ts s

-- The state after the warning, and whether it was emitted.
unfoldable pub warn_for : CostOptimized → String → List Candidate → CostOptimized × Bool
unfolding contains
warn_for c group cs =
    let key = warn_key group cs in
    if contains c.warned key then (c, false) else (record c { warned = key ∷ c.warned }, true)

module _ (f : Arithmetic) where
  unfoldable pub estimate_cost : Candidate → ChatCompletionRequest → Float64
  unfolding count_chars
  estimate_cost c req =
      let in_per_1k =
        f.div (f.div (f.of_int (pos (count_chars req.messages))) (f.of_int (pos 4)))
          (f.of_int (pos 1000)) in
      let out_per_1k = f.div (f.of_int (out_tokens req.max_tokens)) (f.of_int (pos 1000)) in
      f.add (f.mul in_per_1k c.cost_per_1k_input_usd) (f.mul out_per_1k c.cost_per_1k_output_usd)

  unfoldable pub is_unpriced : Candidate → Bool
  is_unpriced c =
      f.eq c.cost_per_1k_input_usd (f.of_int (pos 0))
      && f.eq c.cost_per_1k_output_usd (f.of_int (pos 0))

  -- Whether a candidate replaces the best so far.
  unfoldable pub is_cheaper : ChatCompletionRequest → Candidate → Candidate → Bool
  is_cheaper req c best = f.lt (estimate_cost c req) (estimate_cost best req)

  -- The loop: `none` is the index -1. The cost of the best is computed again where it is compared.
  unfoldable pub cheapest :
      ChatCompletionRequest → Option Candidate → List Candidate → Option Candidate
  cheapest req best [] = best
  cheapest req none (c ∷ cs) = cheapest req (if is_unpriced c then none else some c) cs
  cheapest req (some b) (c ∷ cs) =
      cheapest req (if is_unpriced c then some b else if is_cheaper req c b then some c else some b)
        cs

  unfoldable pub select_cost :
      CostOptimized
      → List Candidate
      → ChatCompletionRequest
      → RequestMeta
      → Selected × CostOptimized
  select_cost s [] req meta = (select_error "cost_optimized: empty candidate list", s)
  select_cost s (c ∷ cs) req meta = elim (cheapest req none (c ∷ cs)) [
    | some b ↦ (picked b, s)
    | none ↦
        let s' = (warn_for s meta.group (c ∷ cs)).0 in
        let (p, r) = select_round_robin s'.fallback (c ∷ cs) meta in (p, record s' { fallback = r })
  ]
