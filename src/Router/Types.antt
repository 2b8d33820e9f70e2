-- ===== src/Router/Types.antt =====
-- The types of internal/router/router.go that the strategies share.
use llm_gateway.Base.{List, ℤ, String, Float64}
use llm_gateway.Provider.Registry.{Provider}

pub record Candidate : Type 0 where
  pub provider : Provider
  pub model : String
  pub cost_per_1k_input_usd : Float64
  pub cost_per_1k_output_usd : Float64
  pub priority : ℤ
  pub weight : ℤ

pub record RequestMeta : Type 0 where
  pub org_id : String
  pub key_id : String
  pub attempt : ℤ
  pub tried_names : List String
  pub group : String

pub record Decision : Type 0 where
  pub provider : String
  pub model : String
  pub strategy : String
  pub group : String
  pub experiment_name : String
  pub variant : String

-- What `Select` returns. `panics` is an index out of range.
pub data Selected : Type 0 where
  picked : Candidate → Selected
  select_error : String → Selected
  panics : Selected
