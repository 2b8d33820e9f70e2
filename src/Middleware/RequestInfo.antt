-- ===== src/Middleware/RequestInfo.antt =====
-- internal/middleware/context.go: the fields of a request that its access log line carries, as the
-- context holds them, if it does.
use llm_gateway.Base.{Bool, true, Option, none, some, ℤ, String}

pub record RequestInfo : Type 0 where
  pub org_id : String
  pub key_id : String
  pub model : String
  pub provider : String
  pub strategy : String
  pub group : String
  pub prompt_tokens : ℤ
  pub completion_tokens : ℤ
  pub rate_limited : Bool

-- A setter without a holder does nothing.
abbrev update : (RequestInfo → RequestInfo) → Option RequestInfo → Option RequestInfo
update f none = none
update f (some ri) = some (f ri)

unfoldable pub set_org_key : Option RequestInfo → String → String → Option RequestInfo
set_org_key ri org key = update (λ i. record i { org_id = org; key_id = key }) ri

unfoldable pub set_model : Option RequestInfo → String → Option RequestInfo
set_model ri name = update (λ i. record i { model = name }) ri

unfoldable pub set_provider : Option RequestInfo → String → Option RequestInfo
set_provider ri name = update (λ i. record i { provider = name }) ri

unfoldable pub set_tokens : Option RequestInfo → ℤ → ℤ → Option RequestInfo
set_tokens ri prompt completion =
    update (λ i. record i { prompt_tokens = prompt; completion_tokens = completion }) ri

unfoldable pub set_strategy : Option RequestInfo → String → Option RequestInfo
set_strategy ri name = update (λ i. record i { strategy = name }) ri

unfoldable pub set_group : Option RequestInfo → String → Option RequestInfo
set_group ri name = update (λ i. record i { group = name }) ri

unfoldable pub mark_rate_limited : Option RequestInfo → Option RequestInfo
mark_rate_limited ri = update (λ i. record i { rate_limited = true }) ri
