-- ===== src/Metrics.antt =====
-- internal/metrics/metrics.go: what the gateway computes for its metrics. The registry of collectors is
-- the Prometheus library's.
use llm_gateway.Base.{
  Bool, ◌&&◌, Option, none, some, List, [], ◌∷◌, ℤ, pos, leb_ℤ, ltb_ℤ, String, str_eq, Dict, insert,
  if◌then◌else◌,
}
use llm_gateway.Router.Strategies.Latency.{LatencyTotal}

abbrev is_within : ℤ → ℤ → ℤ → Bool
is_within low high status = leb_ℤ low status && ltb_ℤ status high

unfoldable pub status_class : ℤ → String
status_class status =
    if is_within (pos 200) (pos 300) status
    then "2xx"
    else if is_within (pos 300) (pos 400) status
    then "3xx"
    else if is_within (pos 400) (pos 500) status
    then "4xx"
    else if is_within (pos 500) (pos 600) status
    then "5xx"
    else "other"

-- A collected metric as its DTO: the labels, and the sum and count of a histogram.
pub record Metric : Type 0 where
  pub labels : List (String × String)
  pub histogram : Option LatencyTotal

-- The value of the first label named `provider`, empty where there is none.
unfoldable pub provider_label : List (String × String) → String
provider_label [] = ""
provider_label ((name, value) ∷ rest) =
    let later = provider_label rest in if str_eq name "provider" then value else later

abbrev put_total : Dict LatencyTotal → String → Option LatencyTotal → Dict LatencyTotal
put_total out name none = out
put_total out name (some h) = if str_eq name "" then out else insert name h out

-- The loop over the collected metrics; one that cannot be written is none.
unfoldable pub collect_totals : Dict LatencyTotal → List (Option Metric) → Dict LatencyTotal
unfolding provider_label
collect_totals out [] = out
collect_totals out (none ∷ rest) = collect_totals out rest
collect_totals out (some m ∷ rest) =
    collect_totals (put_total out (provider_label m.labels) m.histogram) rest

unfoldable pub provider_latency_totals : List (Option Metric) → Dict LatencyTotal
unfolding collect_totals
provider_latency_totals ms = collect_totals [] ms
