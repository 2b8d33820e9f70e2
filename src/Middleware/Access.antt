-- ===== src/Middleware/Access.antt =====
-- Who passes the authentication of internal/middleware/auth.go.
use llm_gateway.Base.{
  ◌≡◌, refl, sym, ◌∙◌, ◌≢◌, ◌↔◌, inl, inr, true, false, Option, none, some, arith, String, str_eq,
  str_eq_iff, Bool-cases,
}
use llm_gateway.Auth.{KeyInfo, Authentication, known, invalid_key, backend_failed}
use llm_gateway.Middleware.Auth.{
  trim_space, strip_fold, bearer_token, passes, write_auth_error, require_api_key,
  require_admin_token, admit_key, key_gate, admin_gate,
}

blank_no_token :
    (header : String) → str_eq (trim_space header) "" ≡ true → bearer_token header ≡ none
unfolding bearer_token strip_fold
blank_no_token header h = rw (bearer_token, (str_eq_iff (trim_space header) "").0 h) refl

token_no_blank :
    (header token : String)
    → bearer_token header ≡ some token
    → str_eq (trim_space header) "" ≡ false
token_no_blank header token e = elim (Bool-cases (str_eq (trim_space header) "")) [
  | inr off ↦ off
  | inl on ↦ ground (arith, sym (blank_no_token header on) ∙ e)
]

admit_key-known :
    (a : Authentication) (info : KeyInfo) → admit_key a ≡ passes (some info) → a ≡ known info
unfolding admit_key write_auth_error
admit_key-known (known i) info e = ground (arith, e)
admit_key-known invalid_key info e = ground (arith, e)
admit_key-known (backend_failed t) info e = ground (arith, e)

key_gate-token :
    (authenticate : String → Authentication) (o : Option String) (info : KeyInfo)
    → key_gate authenticate o ≡ passes (some info)
    → (token : String) × (o ≡ some token) × (authenticate token ≡ known info)
unfolding key_gate write_auth_error
key_gate-token authenticate none info e = ground (arith, e)
key_gate-token authenticate (some token) info e =
    (token, refl, admit_key-known (authenticate token) info e)

-- A request passes with a key exactly when its header is a bearer token and the authenticator knows
-- that token as the key.
pub require_api_key_iff :
    (authenticate : String → Authentication) (header : String) (info : KeyInfo)
    → (require_api_key authenticate header ≡ passes (some info))
      ↔ ((token : String) × (bearer_token header ≡ some token) × (authenticate token ≡ known info))
unfolding require_api_key write_auth_error key_gate admit_key
require_api_key_iff authenticate header info = (
  λ h. elim (Bool-cases (str_eq (trim_space header) "")) [
    | inl blank ↦ ground (arith, rw (require_api_key, blank) at h)
    | inr there ↦
        key_gate-token authenticate (bearer_token header) info (rw (require_api_key, there) at h)
  ],
  λ x.
      let (token, parsed, ok) = x in
      rw (require_api_key, token_no_blank header token parsed, parsed, key_gate, ok) refl,
)

admin_gate-token :
    (expected : String) (o : Option String)
    → admin_gate expected o ≡ passes none
    → (expected ≢ "") × (o ≡ some expected)
unfolding admin_gate write_auth_error
admin_gate-token expected none e = ground (arith, e)
admin_gate-token expected (some token) e =
    (ground (arith, e, str_eq_iff expected ""), ground (arith, e, str_eq_iff token expected))

-- A request passes the administrator's gate exactly when its header is the bearer token that is
-- expected; where none is expected, no request passes.
pub require_admin_token_iff :
    (expected header : String)
    → ((require_admin_token expected header ≡ passes none)
        ↔ ((expected ≢ "") × (bearer_token header ≡ some expected)))
unfolding require_admin_token write_auth_error admin_gate
require_admin_token_iff expected header = (
  λ h. elim (Bool-cases (str_eq (trim_space header) "")) [
    | inl blank ↦ ground (arith, rw (require_admin_token, blank) at h)
    | inr there ↦
        admin_gate-token expected (bearer_token header) (rw (require_admin_token, there) at h)
  ],
  λ x.
      rw (require_admin_token, token_no_blank header expected x.1, x.1, admin_gate)
        (ground (arith, x.0, str_eq_iff expected "", str_eq_iff expected expected)),
)
