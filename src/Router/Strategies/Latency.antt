-- ===== src/Router/Strategies/Latency.antt =====
-- internal/router/strategy/latency.go, and LatencyTotal of internal/metrics/metrics.go.
use llm_gateway.Base.{
  ℕ, ◌-◌, Bool, ◌||◌, Option, none, some, List, [], ◌∷◌, Dict, lookup, insert, ℤ, pos, ltb, ◌==◌,
  leb_ℤ, String, Float64, Arithmetic, if◌then◌else◌,
}
use llm_gateway.Router.Types.{Candidate, RequestMeta, Selected, picked, select_error}
use llm_gateway.Router.Strategies.{RoundRobin, select_round_robin}

pub record LatencyOptimized : Type 0 where
  pub fallback : RoundRobin
  pub ewmas : Dict Float64
  pub alpha : Float64

pub record LatencyTotal : Type 0 where
  pub sum : Float64
  pub count : ℕ

module _ (f : Arithmetic) where
  -- `math.Inf(1)`, as 1 / 0.
  abbrev pub infinity : Float64
  infinity = f.div (f.of_int (pos 1)) (f.of_int (pos 0))

  unfoldable pub ewma_alpha : ℤ → ℤ → Float64
  ewma_alpha poll_interval half_life =
      if leb_ℤ half_life (pos 0)
      then f.of_int (pos 1)
      else f.sub (f.of_int (pos 1))
          (f.exp (f.div (f.sub (f.of_int (pos 0)) (f.of_int poll_interval)) (f.of_int half_life)))

  unfoldable pub new_latency_optimized : ℤ → ℤ → LatencyOptimized
  unfolding ewma_alpha
  new_latency_optimized poll_interval half_life = record {
    fallback = record { counters = [] };
    ewmas = [];
    alpha = ewma_alpha poll_interval half_life;
  }

  -- The loop: the best candidate so far, and its average.
  unfoldable pub fastest :
      Dict Float64 → Option Candidate → Float64 → List Candidate → Option Candidate
  fastest ewmas best best_ewma [] = best
  fastest ewmas best best_ewma (c ∷ cs) = elim (lookup c.provider.name ewmas) [
    | none ↦ fastest ewmas best best_ewma cs
    | some v ↦
        fastest ewmas (if f.lt v best_ewma then some c else best)
          (if f.lt v best_ewma then v else best_ewma) cs
  ]

  unfoldable pub select_latency :
      LatencyOptimized → List Candidate → RequestMeta → Selected × LatencyOptimized
  select_latency s [] meta = (select_error "latency_optimized: empty candidate list", s)
  select_latency s (c ∷ cs) meta = elim (fastest s.ewmas none infinity (c ∷ cs)) [
    | some b ↦ (picked b, s)
    | none ↦
        let (p, r) = select_round_robin s.fallback (c ∷ cs) meta in (p, record s { fallback = r })
  ]

  abbrev is_bad_sample : Float64 → Bool
  is_bad_sample x = f.lt x (f.of_int (pos 0)) || (f.is_nan x || f.is_inf x)

  abbrev fold_sample : Float64 → Float64 → Option Float64 → Float64
  fold_sample alpha x none = x
  fold_sample alpha x (some prev) =
      f.add (f.mul alpha x) (f.mul (f.sub (f.of_int (pos 1)) alpha) prev)

  unfoldable pub observe : LatencyOptimized → String → Float64 → LatencyOptimized
  observe s provider x = if is_bad_sample x then s else record s {
    ewmas = insert provider (fold_sample s.alpha x (lookup provider s.ewmas)) s.ewmas;
  }

  abbrev or_empty : Option LatencyTotal → LatencyTotal
  or_empty none = record { sum = f.of_int (pos 0); count = 0 }
  or_empty (some t) = t

  -- One provider of a tick of `run`: its average since the previous read.
  unfoldable pub poll_one :
      Dict LatencyTotal → LatencyOptimized → String → LatencyTotal → LatencyOptimized
  poll_one prev s provider c =
      let p = or_empty (lookup provider prev) in
      let delta_sum = f.sub c.sum p.sum in
      let delta_sum' = if f.lt delta_sum (f.of_int (pos 0)) then f.of_int (pos 0) else delta_sum in
      if ltb c.count p.count
      then s
      else if c.count - p.count == 0
      then s
      else observe s provider (f.div delta_sum' (f.of_int (pos (c.count - p.count))))

  poll_all : Dict LatencyTotal → LatencyOptimized → Dict LatencyTotal → LatencyOptimized
  unfolding poll_one
  poll_all prev s [] = s
  poll_all prev s ((provider, c) ∷ cs) = poll_all prev (poll_one prev s provider c) cs

  -- The ticks of `run`, each with the totals that it reads; `prev` is the read before it.
  unfoldable pub poll :
      LatencyOptimized → Dict LatencyTotal → List (Dict LatencyTotal) → LatencyOptimized
  unfolding poll_all
  poll s prev [] = s
  poll s prev (curr ∷ later) = poll (poll_all prev s curr) curr later
