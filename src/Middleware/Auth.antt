-- ===== src/Middleware/Auth.antt =====
-- internal/middleware/auth.go: who may pass. The authenticator is an argument.
use Prim.Native.Char.{code}
use llm_gateway.Base.{
  ℕ, ◌+◌, Bool, not, ◌&&◌, ◌||◌, Option, none, some, String, str_eq, leb, ◌==◌, if◌then◌else◌,
}
use llm_gateway.Auth.{KeyInfo, Authentication, known, invalid_key, backend_failed}

-- unicode.IsSpace
abbrev pub is_space : ℕ → Bool
is_space c =
    (leb 9 c && leb c 13)
    || ((c == 32 || (c == 133 || c == 160))
        || ((c == 5760 || (leb 8192 c && leb c 8202))
            || ((c == 8232 || c == 8233) || (c == 8239 || (c == 8287 || c == 12288)))))

unfoldable pub trim_left : String → String
trim_left String.[] = ""
trim_left (String.◌∷◌ c s) =
    let rest = trim_left s in if is_space (code c) then rest else String.◌∷◌ c s

unfoldable pub trim_right : String → String
trim_right String.[] = ""
trim_right (String.◌∷◌ c s) =
    let rest = trim_right s in if is_space (code c) && str_eq rest "" then "" else String.◌∷◌ c rest

-- strings.TrimSpace
abbrev pub trim_space : String → String
trim_space s = trim_right (trim_left s)

abbrev pub lower : ℕ → ℕ
lower c = if leb b'A' c && leb c b'Z' then c + 32 else c

-- What stands behind a prefix that strings.EqualFold finds equal; the prefix is of small ASCII letters.
unfoldable pub strip_fold : String → String → Option String
strip_fold String.[] s = some s
strip_fold (String.◌∷◌ p ps) String.[] = none
strip_fold (String.◌∷◌ p ps) (String.◌∷◌ c s) =
    let rest = strip_fold ps s in if lower (code c) == code p then rest else none

abbrev pub unless_empty : String → Option String
unless_empty s = if str_eq s "" then none else some s

unfoldable pub bearer_token : String → Option String
unfolding strip_fold trim_left trim_right
bearer_token header = elim (strip_fold "bearer " (trim_space header)) [
  | none ↦ none
  | some rest ↦ unless_empty (trim_space rest)
]

-- The request goes on, with the key that its context holds, or is answered with an error body;
-- `counted` is the reason of the failure metric.
pub data Gate : Type 0 where
  passes : Option KeyInfo → Gate
  rejects : (status : ℕ) (type error_code message : String) (counted : Option String) → Gate

unfoldable pub write_auth_error : String → String → Gate
write_auth_error message counted =
    rejects 401 "authentication_error" "invalid_api_key" message (some counted)

unfoldable pub admit_key : Authentication → Gate
unfolding write_auth_error
admit_key (known info) = passes (some info)
admit_key invalid_key = write_auth_error "Invalid API key." "unknown"
admit_key (backend_failed e) =
    rejects 503 "internal_error" "internal_error" "authentication backend unavailable" none

-- The part behind the test for a missing header, with the token that was parsed.
unfoldable pub key_gate : (String → Authentication) → Option String → Gate
unfolding write_auth_error admit_key
key_gate authenticate none =
    write_auth_error "Missing or malformed Authorization header." "malformed"
key_gate authenticate (some token) = admit_key (authenticate token)

unfoldable pub require_api_key : (String → Authentication) → String → Gate
unfolding bearer_token write_auth_error key_gate
require_api_key authenticate header =
    if str_eq (trim_space header) ""
    then write_auth_error "Missing or malformed Authorization header." "missing"
    else key_gate authenticate (bearer_token header)

unfoldable pub admin_gate : String → Option String → Gate
unfolding write_auth_error
admin_gate expected none = write_auth_error "Invalid admin token." "malformed"
admin_gate expected (some token) =
    if str_eq expected "" || not (str_eq token expected)
    then write_auth_error "Invalid admin token." "unknown"
    else passes none

unfoldable pub require_admin_token : String → String → Gate
unfolding bearer_token write_auth_error admin_gate
require_admin_token expected header =
    if str_eq (trim_space header) ""
    then write_auth_error "Invalid admin token." "missing"
    else admin_gate expected (bearer_token header)
