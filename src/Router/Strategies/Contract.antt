-- ===== src/Router/Strategies/Contract.antt =====
-- What every strategy of internal/router/strategy promises the router.
use llm_gateway.Base.{
  ℕ, ◌+◌, ◌-◌, ◌≤◌, ◌<◌, ◌≡◌, refl, ◌∙◌, ap, ◌⊎◌, inl, inr, Option, none, some, List, [], ◌∷◌,
  arith, ℤ, pos, negsuc, ◌<ℤ◌, ltb_ℤ, eqb_ℤ, pos_part, max_int, wrap_int, In, Float64, Arithmetic,
  Option-cases, Bool-cases, length, get_elem?-lt, get_elem?-In, Dict, lookup,
}
use native.Mathlib.Nat.{mod-lt}
use llm_gateway.Model.Chat.{ChatCompletionRequest}
use llm_gateway.Router.Types.{Candidate, RequestMeta, Selected, picked}
use llm_gateway.Router.Strategies.{
  RoundRobin, at_index, select_round_robin, lowest, select_priority, cumulative, uniform,
  last_positive, last_of, total_weight, add_weight, select_weighted,
}
use llm_gateway.Router.Strategies.Cost.{
  CostOptimized, cheapest, select_cost, is_unpriced, is_cheaper,
}
use llm_gateway.Router.Strategies.Latency.{LatencyOptimized, fastest, infinity, select_latency}
use llm_gateway.Router.Strategies.Builder.{
  Strategy, cost_optimized, latency_optimized, round_robin, weighted, priority, select,
}

-- The result is a candidate of the list.
abbrev pub Picks : Selected → List Candidate → Type 0
Picks p cs = (b : Candidate) × (p ≡ picked b) × In b cs

-- A draw from [0, 1) times a length is not negative.
abbrev pub IsDraw : Arithmetic → Float64 → Type 0
IsDraw f r = (n : ℕ) → (i : ℕ) × (f.to_int (f.mul r (f.of_int (pos n))) ≡ pos i)

at_index-Picks : (cs : List Candidate) (i : ℕ) → i < length cs → Picks (at_index cs i) cs
at_index-Picks cs i h = let (b, e) = get_elem?-lt cs i h in (b, ground arith, get_elem?-In cs i b e)

lowest-In : (c : Candidate) (cs : List Candidate) → In (lowest c cs) (c ∷ cs)
unfolding lowest
lowest-In c [] = inl refl
lowest-In c (d ∷ ds) = ground (arith, lowest-In d ds, lowest-In c ds)

select_round_robin-Picks :
    (r : RoundRobin) (c : Candidate) (cs : List Candidate) (meta : RequestMeta)
    → Picks (select_round_robin r (c ∷ cs) meta).0 (c ∷ cs)
unfolding select_round_robin
select_round_robin-Picks r c cs meta = at_index-Picks (c ∷ cs) _ (mod-lt _ (omega arith))

module _ (f : Arithmetic) where
  cheapest-In :
      (req : ChatCompletionRequest) (acc : Option Candidate) (cs : List Candidate) (b : Candidate)
      → cheapest f req acc cs ≡ some b
      → (acc ≡ some b) ⊎ In b cs
  unfolding cheapest
  cheapest-In req none [] b e = inl e
  cheapest-In req (some a) [] b e = inl e
  cheapest-In req none (c ∷ cs) b e = elim (Bool-cases (is_unpriced f c)) [
    | inl u ↦ ground (arith, cheapest-In req none cs b (rw u at e))
    | inr p ↦ ground (arith, cheapest-In req (some c) cs b (rw p at e))
  ]
  cheapest-In req (some a) (c ∷ cs) b e = elim (Bool-cases (is_unpriced f c)) [
    | inl u ↦ ground (arith, cheapest-In req (some a) cs b (rw u at e))
    | inr p ↦ elim (Bool-cases (is_cheaper f req c a)) [
      | inl lt ↦ ground (arith, cheapest-In req (some c) cs b (rw (p, lt) at e))
      | inr ge ↦ ground (arith, cheapest-In req (some a) cs b (rw (p, ge) at e))
    ]
  ]

  select_cost-Picks :
      (s : CostOptimized) (c : Candidate) (cs : List Candidate) (req : ChatCompletionRequest)
      (meta : RequestMeta)
      → Picks (select_cost f s (c ∷ cs) req meta).0 (c ∷ cs)
  unfolding select_cost
  select_cost-Picks s c cs req meta = elim (Option-cases (cheapest f req none (c ∷ cs))) [
    | inl e ↦ rw (e, select_cost) (select_round_robin-Picks _ c cs meta)
    | inr (b, e) ↦ (b, rw (e, select_cost), ground (arith, cheapest-In req none (c ∷ cs) b e))
  ]

  fastest-In :
      (ewmas : Dict Float64) (acc : Option Candidate) (v : Float64) (cs : List Candidate)
      (b : Candidate)
      → fastest f ewmas acc v cs ≡ some b
      → (acc ≡ some b) ⊎ In b cs
  unfolding fastest
  fastest-In ewmas acc v [] b e = inl e
  fastest-In ewmas acc v (c ∷ cs) b e = elim (Option-cases (lookup c.provider.name ewmas)) [
    | inl u ↦ ground (arith, fastest-In ewmas acc v cs b (rw (u, fastest) at e))
    | inr (w, u) ↦ elim (Bool-cases (f.lt w v)) [
      | inl lt ↦ ground (arith, fastest-In ewmas (some c) w cs b (rw (u, lt, fastest) at e))
      | inr ge ↦ ground (arith, fastest-In ewmas acc v cs b (rw (u, ge, fastest) at e))
    ]
  ]

  select_latency-Picks :
      (s : LatencyOptimized) (c : Candidate) (cs : List Candidate) (meta : RequestMeta)
      → Picks (select_latency f s (c ∷ cs) meta).0 (c ∷ cs)
  unfolding select_latency
  select_latency-Picks s c cs meta =
      elim (Option-cases (fastest f s.ewmas none (infinity f) (c ∷ cs))) [
        | inl e ↦ rw (e, select_latency) (select_round_robin-Picks _ c cs meta)
        | inr (b, e) ↦ (
          b,
          rw (e, select_latency),
          ground (arith, fastest-In s.ewmas none (infinity f) (c ∷ cs) b e),
        )
      ]

  cumulative-In :
      (pick cursor : Float64) (cs : List Candidate) (b : Candidate)
      → cumulative f pick cursor cs ≡ some b
      → In b cs × (pos 0 <ℤ b.weight)
  unfolding cumulative
  cumulative-In pick cursor [] b e = cc
  cumulative-In pick cursor (c ∷ cs) b e = ground (
    arith,
    cumulative-In pick cursor cs b,
    cumulative-In pick (f.add cursor (f.of_int c.weight)) cs b,
  )

last_positive-In :
    (cs : List Candidate) (b : Candidate)
    → last_positive cs ≡ some b
    → In b cs × (pos 0 <ℤ b.weight)
unfolding last_positive
last_positive-In [] b e = cc
last_positive-In (c ∷ cs) b e = ground (arith, last_positive-In cs b)

last_of-In : (c : Candidate) (cs : List Candidate) → In (last_of c cs) (c ∷ cs)
unfolding last_of
last_of-In c [] = inl refl
last_of-In c (d ∷ ds) = inr (last_of-In d ds)

uniform-Picks :
    (f : Arithmetic) (r : Float64) (c : Candidate) (cs : List Candidate)
    → IsDraw f r
    → Picks (uniform f r (c ∷ cs)) (c ∷ cs)
unfolding uniform
uniform-Picks f r c cs d =
    let (i, e) = d (length (c ∷ cs)) in
    elim (Bool-cases (ltb_ℤ (pos i) (pos (length (c ∷ cs))))) [
      | inl lt ↦ rw (e, uniform) (rw lt (at_index-Picks (c ∷ cs) i (ground arith)))
      | inr ge ↦
          rw (e, uniform) (rw ge (at_index-Picks (c ∷ cs) (length (c ∷ cs) - 1) (omega arith)))
    ]

-- The sum of the positive weights.
abbrev pub weights : List Candidate → ℕ
weights [] = 0
weights (c ∷ cs) = pos_part c.weight + weights cs

wrap_int-small : (n : ℕ) → n ≤ max_int → wrap_int (pos n) ≡ pos n
unfolding wrap_int
wrap_int-small n h = ground arith

add_weight-small :
    (t : ℕ) (w : ℤ) → t + pos_part w ≤ max_int → add_weight (pos t) w ≡ pos (t + pos_part w)
unfolding add_weight
add_weight-small t (pos w) h = wrap_int-small (t + w) h
add_weight-small t (negsuc w) h = ground arith

total_weight-eq :
    (t : ℕ) (cs : List Candidate)
    → t + weights cs ≤ max_int
    → total_weight (pos t) cs ≡ pos (t + weights cs)
unfolding total_weight
total_weight-eq t [] h = ground arith
total_weight-eq t (c ∷ cs) h =
    rw (add_weight-small t c.weight (omega arith))
      (total_weight-eq (t + pos_part c.weight) cs (omega arith) ∙ ap pos (omega arith))

weights_of_last_positive : (cs : List Candidate) → last_positive cs ≡ none → weights cs ≡ 0
unfolding last_positive
weights_of_last_positive [] e = refl
weights_of_last_positive (c ∷ cs) e = ground (arith, weights_of_last_positive cs)

module _ (f : Arithmetic) (r : Float64) where
  -- Whatever the draw and the rounding of the running sum, Weighted picks a candidate of positive
  -- weight from a list that has one, as long as the weights sum to an int64.
  pub select_weighted_positive :
      (c : Candidate) (cs : List Candidate)
      → 0 < weights (c ∷ cs)
      → weights (c ∷ cs) ≤ max_int
      → (b : Candidate) × (select_weighted f r (c ∷ cs) ≡ picked b)
        × In b (c ∷ cs)
        × (pos 0 <ℤ b.weight)
  unfolding select_weighted
  select_weighted_positive c cs p fits =
      let total : total_weight (pos 0) (c ∷ cs) ≡ pos (weights (c ∷ cs)) =
        total_weight-eq 0 (c ∷ cs) (omega arith) ∙ ap pos (omega arith) in
      elim (Option-cases (
        cumulative f (f.mul r (f.of_int (total_weight (pos 0) (c ∷ cs)))) (f.of_int (pos 0))
          (c ∷ cs))) [
            | inr (b, e) ↦ let k = cumulative-In f _ _ (c ∷ cs) b e in (b, ground arith, k.0, k.1)
            | inl miss ↦ elim (Option-cases (last_positive (c ∷ cs))) [
              | inr (b, e) ↦ let k = last_positive-In (c ∷ cs) b e in (b, ground arith, k.0, k.1)
              | inl e ↦ absurd (omega (arith, weights_of_last_positive (c ∷ cs) e))
            ]
          ]

  select_weighted-Picks :
      (c : Candidate) (cs : List Candidate)
      → IsDraw f r
      → Picks (select_weighted f r (c ∷ cs)) (c ∷ cs)
  unfolding select_weighted
  select_weighted-Picks c cs d = elim (Bool-cases (eqb_ℤ (total_weight (pos 0) (c ∷ cs)) (pos 0))) [
    | inl zero' ↦ let (b, e, m) = uniform-Picks f r c cs d in (b, ground arith, m)
    | inr more ↦
        elim (Option-cases (
          cumulative f (f.mul r (f.of_int (total_weight (pos 0) (c ∷ cs)))) (f.of_int (pos 0))
            (c ∷ cs))) [
              | inr (b, e) ↦ (b, ground arith, (cumulative-In f _ _ (c ∷ cs) b e).0)
              | inl miss ↦ elim (Option-cases (last_positive (c ∷ cs))) [
                | inr (b, e) ↦ (b, ground arith, (last_positive-In (c ∷ cs) b e).0)
                | inl e ↦ (last_of c cs, ground arith, last_of-In c cs)
              ]
            ]
  ]

  -- Every strategy, in every state, picks a candidate of a list that is not empty.
  pub select-Picks :
      (s : Strategy) (c : Candidate) (cs : List Candidate) (req : ChatCompletionRequest)
      (meta : RequestMeta)
      → IsDraw f r
      → Picks (select f s r (c ∷ cs) req meta).0 (c ∷ cs)
  unfolding select select_priority
  select-Picks (cost_optimized s) c cs req meta d = select_cost-Picks f s c cs req meta
  select-Picks (latency_optimized s) c cs req meta d = select_latency-Picks f s c cs meta
  select-Picks (round_robin s) c cs req meta d = select_round_robin-Picks s c cs meta
  select-Picks weighted c cs req meta d = select_weighted-Picks c cs d
  select-Picks priority c cs req meta d = (lowest c cs, refl, lowest-In c cs)
