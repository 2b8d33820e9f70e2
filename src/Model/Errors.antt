-- ===== src/Model/Errors.antt =====
-- internal/model/errors.go, and the Go `error` values that the gateway tells apart.
use Prim.Native.String.{◌++◌}
use llm_gateway.Base.{
  Bool, Option, none, some, ℤ, pos, ltb_ℤ, itoa, String, if◌then◌else◌, str_eq, second, times_int,
}

-- ErrorDetail, the body of an APIError.
pub record ErrorDetail : Type 0 where
  pub message : String
  pub type : String
  pub code : String

pub record ProviderError : Type 0 where
  pub status_code : ℤ
  pub type : String
  pub message : String
  pub retryable : Bool
  pub retry_after : ℤ

-- What a Go `error` is as far as errors.As and errors.Is look: a *ProviderError, the error of a
-- context that is done, any other with its text, or one that fmt.Errorf wraps behind a prefix.
pub data Error : Type 0 where
  provider_error : ProviderError → Error
  context_error : Error
  other_error : String → Error
  wrapped : String → Error → Error

-- err.Error()
unfoldable pub error_text : Error → String
error_text (provider_error e) = "provider error (" ++ (itoa e.status_code ++ ("): " ++ e.message))
error_text context_error = "context canceled"
error_text (other_error s) = s
error_text (wrapped prefix e) = prefix ++ (": " ++ error_text e)

-- errors.As with a *ProviderError
abbrev pub as_provider_error : Error → Option ProviderError
as_provider_error (provider_error e) = some e
as_provider_error (wrapped prefix e) = as_provider_error e
as_provider_error _ = none

-- ParseRetryAfter. `atoi` is strconv.Atoi, and `until_date` is time.Until of the header as an
-- RFC 1123 date, both none where they fail. The product wraps, as an int64 does.
unfoldable pub parse_retry_after : (String → Option ℤ) → (String → Option ℤ) → String → ℤ
parse_retry_after atoi until_date header = if str_eq header "" then pos 0 else elim (atoi header) [
  | some secs ↦ times_int secs second
  | none ↦ elim (until_date header) [ some d ↦ if ltb_ℤ (pos 0) d then d else pos 0 | none ↦ pos 0 ]
]
