-- ===== src/Router/Strategies/Ranking.antt =====
-- What Priority and CostOptimized of internal/router/strategy pick.
use llm_gateway.Base.{
  ◌≡◌, refl, sym, ◌∙◌, ◌⊎◌, inl, inr, Bool, true, false, not, Option, none, some, List, [], ◌∷◌,
  arith, ◌&&◌, ℕ, ◌+◌, ℤ, pos, leb_ℤ, ap, ap₂, if◌then◌else◌, ltb_ℤ, String, All, Float64,
  Arithmetic, Option-cases, Bool-cases,
}
use Prim.Native.String.{len}
use llm_gateway.Model.Chat.{Message, ChatCompletionRequest}
use llm_gateway.Router.Types.{Candidate, RequestMeta, picked}
use llm_gateway.Router.Strategies.{lowest, select_priority, select_round_robin}
use llm_gateway.Router.Strategies.Scan.{scan, FirstBest, scan-FirstBest, scan-none}
use llm_gateway.Router.Strategies.Cost.{
  CostOptimized, is_unpriced, is_cheaper, estimate_cost, count_chars, out_tokens, cheapest,
  warn_for, select_cost,
}

abbrev pub any_candidate : Candidate → Bool
any_candidate c = true

abbrev pub comes_first : Candidate → Candidate → Bool
comes_first c best = ltb_ℤ c.priority best.priority

scan-lowest :
    (c : Candidate) (cs : List Candidate)
    → scan any_candidate comes_first (some c) cs ≡ some (lowest c cs)
unfolding lowest scan
scan-lowest c [] = refl
scan-lowest c (d ∷ ds) = elim (Bool-cases (comes_first d c)) [
  | inl lt ↦ rw lt (scan-lowest d ds)
  | inr ge ↦ rw ge (scan-lowest c ds)
]

trivially : (cs : List Candidate) → All (λ c. Unit {0}) cs
trivially [] = tt
trivially (c ∷ cs) = (tt, trivially cs)

-- Of a list that is not empty Priority picks the first candidate with the lowest priority number:
-- every one listed before it has a higher number, and none listed after it has a lower one.
pub select_priority-FirstBest :
    (c : Candidate) (cs : List Candidate)
    → (b : Candidate) × (select_priority (c ∷ cs) ≡ picked b)
      × FirstBest any_candidate comes_first b (c ∷ cs)
unfolding select_priority scan
select_priority-FirstBest c cs = (
  lowest c cs,
  refl,
  scan-FirstBest any_candidate comes_first (λ c. Unit {0}) (λ x y z _ _ _ h k. ground arith)
      (λ x y z _ _ _ h k. ground arith) (lowest c cs) (c ∷ cs) (trivially (c ∷ cs))
      (first ∙ scan-lowest c cs),
)
  where
    first :
        scan any_candidate comes_first none (c ∷ cs) ≡ scan any_candidate comes_first (some c) cs
    first = refl

-- float64 comparison is a strict weak order on numbers.
pub record OrdersNumbers (f : Arithmetic) : Type 0 where
  pub lt_trans :
      (x y z : Float64)
      → f.is_nan x ≡ false
      → f.is_nan y ≡ false
      → f.is_nan z ≡ false
      → f.lt x y ≡ true
      → f.lt y z ≡ true
      → f.lt x z ≡ true
  pub lt_cotrans :
      (x y z : Float64)
      → f.is_nan x ≡ false
      → f.is_nan y ≡ false
      → f.is_nan z ≡ false
      → f.lt x y ≡ true
      → f.lt z y ≡ false
      → f.lt x z ≡ true

warn_for-fallback :
    (s : CostOptimized) (group : String) (cs : List Candidate)
    → (warn_for s group cs).0.fallback ≡ s.fallback
unfolding warn_for
warn_for-fallback s group cs = ground arith

abbrev characters : List Message → ℕ
characters [] = 0
characters (m ∷ ms) = len m.content + characters ms

count_chars-characters : (ms : List Message) → count_chars ms ≡ characters ms
unfolding count_chars
count_chars-characters [] = refl
count_chars-characters (m ∷ ms) = ap (λ n. len m.content + n) (count_chars-characters ms)

module _ (f : Arithmetic) (req : ChatCompletionRequest) where
  -- A price for input or for output.
  abbrev pub is_priced : Candidate → Bool
  is_priced c = not (
      f.eq c.cost_per_1k_input_usd (f.of_int (pos 0))
      && f.eq c.cost_per_1k_output_usd (f.of_int (pos 0)))

  -- So many tokens at a price per thousand.
  abbrev priced_at : Float64 → Float64 → Float64
  priced_at tokens per_1k = f.mul (f.div tokens (f.of_int (pos 1000))) per_1k

  abbrev answer_tokens : Option ℤ → ℤ
  answer_tokens none = pos 256
  answer_tokens (some n) = if leb_ℤ n (pos 0) then pos 256 else n

  -- The dollars of a request: its characters, four to a token, and the answer's tokens.
  abbrev pub dollars : Candidate → Float64
  dollars c =
      f.add
        (priced_at (f.div (f.of_int (pos (characters req.messages))) (f.of_int (pos 4)))
          c.cost_per_1k_input_usd)
        (priced_at (f.of_int (answer_tokens req.max_tokens)) c.cost_per_1k_output_usd)

  abbrev pub costs_less : Candidate → Candidate → Bool
  costs_less c b = f.lt (dollars c) (dollars b)

  abbrev pub HasCost : Candidate → Type 0
  HasCost c = f.is_nan (dollars c) ≡ false

  out_tokens-answer : (o : Option ℤ) → out_tokens o ≡ answer_tokens o
  out_tokens-answer none = refl
  out_tokens-answer (some n) = ground arith

  estimate_cost-dollars : (c : Candidate) → estimate_cost f c req ≡ dollars c
  unfolding estimate_cost
  estimate_cost-dollars c =
      ap₂
        (λ n t.
          f.add (priced_at (f.div (f.of_int (pos n)) (f.of_int (pos 4))) c.cost_per_1k_input_usd)
            (priced_at (f.of_int t) c.cost_per_1k_output_usd))
        (count_chars-characters req.messages) (out_tokens-answer req.max_tokens)

  is_cheaper-costs_less : (c b : Candidate) → is_cheaper f req c b ≡ costs_less c b
  unfolding is_cheaper
  is_cheaper-costs_less c b = ap₂ f.lt (estimate_cost-dollars c) (estimate_cost-dollars b)

  priced : (c : Candidate) (b : Bool) → is_unpriced f c ≡ b → is_priced c ≡ not b
  unfolding is_unpriced
  priced c b e = ap not e

  scan-cheapest :
      (acc : Option Candidate) (cs : List Candidate)
      → cheapest f req acc cs ≡ scan is_priced costs_less acc cs
  unfolding cheapest scan
  scan-cheapest none [] = refl
  scan-cheapest (some b) [] = refl
  scan-cheapest none (c ∷ cs) = elim (Bool-cases (is_unpriced f c)) [
    | inl u ↦ rw (u, priced c true u) (scan-cheapest none cs)
    | inr p ↦ rw (p, priced c false p) (scan-cheapest (some c) cs)
  ]
  scan-cheapest (some b) (c ∷ cs) = elim (Bool-cases (is_unpriced f c)) [
    | inl u ↦ rw (u, priced c true u) (scan-cheapest (some b) cs)
    | inr p ↦ elim (Bool-cases (is_cheaper f req c b)) [
      | inl lt ↦
          rw (p, priced c false p, lt, sym (is_cheaper-costs_less c b) ∙ lt)
            (scan-cheapest (some c) cs)
      | inr ge ↦
          rw (p, priced c false p, ge, sym (is_cheaper-costs_less c b) ∙ ge)
            (scan-cheapest (some b) cs)
    ]
  ]

  -- Where every cost is a number, CostOptimized picks the first priced candidate for which the request
  -- costs the least, by its characters, four to a token, and the tokens it asks for, or 256, and keeps its state; where no candidate is priced, its pick and its counters are
  -- those of its round robin.
  pub select_cost-FirstBest :
      (laws : OrdersNumbers f) (s : CostOptimized) (c : Candidate) (cs : List Candidate)
      (meta : RequestMeta)
      → All HasCost (c ∷ cs)
      → ((b : Candidate) × (select_cost f s (c ∷ cs) req meta ≡ (picked b, s))
          × FirstBest is_priced costs_less b (c ∷ cs))
        ⊎ (All (λ d. is_priced d ≡ false) (c ∷ cs)
            × ((select_cost f s (c ∷ cs) req meta).0
                ≡ (select_round_robin s.fallback (c ∷ cs) meta).0)
            × ((select_cost f s (c ∷ cs) req meta).1.fallback
                ≡ (select_round_robin s.fallback (c ∷ cs) meta).1))
  unfolding select_cost
  select_cost-FirstBest laws s c cs meta g = elim (Option-cases (cheapest f req none (c ∷ cs))) [
    | inl e ↦ inr (
      scan-none is_priced costs_less (c ∷ cs) (sym (scan-cheapest none (c ∷ cs)) ∙ e),
      rw (e, select_cost) (rw (warn_for-fallback s meta.group (c ∷ cs))),
      rw (e, select_cost) (rw (warn_for-fallback s meta.group (c ∷ cs))),
    )
    | inr (b, e) ↦ inl (
      b,
      rw (e, select_cost),
      scan-FirstBest is_priced costs_less HasCost
          (λ x y z gx gy gz h k. laws.lt_trans (dollars x) (dollars y) (dollars z) gx gy gz h k)
          (λ x y z gx gy gz h k. laws.lt_cotrans (dollars x) (dollars y) (dollars z) gx gy gz h k) b
          (c ∷ cs) g (sym (scan-cheapest none (c ∷ cs)) ∙ e),
    )
  ]
