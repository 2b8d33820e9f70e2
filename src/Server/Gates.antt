-- ===== src/Server/Gates.antt =====
-- What the gates of internal/server/server.go let through.
use llm_gateway.Base.{
  ◌≡◌, ◌≢◌, inl, inr, refl, sym, ap, ◌∙◌, Bool, true, false, Option, none, some, String, str_eq,
  Bool-cases, arith, if◌then◌else◌,
}
use llm_gateway.Auth.{KeyInfo, Authentication, known, invalid_key, backend_failed}
use llm_gateway.Middleware.Auth.{
  Gate, passes, rejects, bearer_token, require_api_key, require_admin_token, admit_key, key_gate,
  admin_gate, write_auth_error, trim_space,
}
use llm_gateway.Server.{pass_through, gate_result, and_next, debug_layer, limit_result, enter}
use llm_gateway.Server.Routes.{is_empty-some}

pub debug-passes :
    (b : Bool) (header : String) (key : Option KeyInfo)
    → pass_through (debug_layer b) header key ≡ some key
unfolding pass_through enter
debug-passes true header key = refl
debug-passes false header key = refl

abbrev pub unwrap : (o : Option (Option KeyInfo)) (key : Option KeyInfo) → Option KeyInfo
unwrap none key = key
unwrap (some k) key = k

module _ (a : String → Authentication) (f : KeyInfo → Bool) (debug : Bool) (header : String) where
  -- What follows the limiter, and what follows the gate of the keys.
  abbrev pub behind_limit : Option KeyInfo → Option (Option KeyInfo)
  behind_limit key = pass_through (debug_layer debug) header key

  abbrev pub behind_key : Option KeyInfo → Option (Option KeyInfo)
  behind_key key = and_next behind_limit (limit_result f key)

  pub behind_key-info :
      (info : KeyInfo) (key : Option KeyInfo)
      → behind_key (some info) ≡ some key
      → (f info ≡ true) × (key ≡ some info)
  unfolding unwrap
  behind_key-info info key e = elim (Bool-cases (f info)) [
    | inl t ↦ (
      t,
      sym (
          ap (λ o. unwrap o none)
            (sym (debug-passes debug header (some info))
              ∙ (sym (ap (λ b. and_next behind_limit (if b then some (some info) else none)) t)
                  ∙ e))),
    )
    | inr t ↦ absurd (
        is_empty-some key
          (sym (ap (λ b. and_next behind_limit (if b then some (some info) else none)) t) ∙ e))
  ]

  pub gate-key :
      (g : Gate) (key : Option KeyInfo)
      → g ≢ passes none
      → and_next behind_key (gate_result none g) ≡ some key
      → (info : KeyInfo) × (g ≡ passes (some info)) × (f info ≡ true) × (key ≡ some info)
  gate-key (passes none) key n e = absurd (n refl)
  gate-key (passes (some info)) key n e =
      let h = behind_key-info info key e in (info, refl, h.0, h.1)
  gate-key (rejects status type code message counted) key n e = absurd (is_empty-some key e)

-- A key's gate lets no request through without a key.
pub admit-some : (o : Authentication) → admit_key o ≢ passes none
unfolding admit_key write_auth_error
admit-some (known info) e = ground (arith, e)
admit-some invalid_key e = ground (arith, e)
admit-some (backend_failed x) e = ground (arith, e)

pub key_gate-some : (a : String → Authentication) (o : Option String) → key_gate a o ≢ passes none
unfolding key_gate write_auth_error
key_gate-some a none e = ground (arith, e)
key_gate-some a (some token) e = admit-some (a token) e

pub require_api_key-some :
    (a : String → Authentication) (header : String) → require_api_key a header ≢ passes none
unfolding require_api_key write_auth_error
require_api_key-some a header e = elim (Bool-cases (str_eq (trim_space header) "")) [
  | inl blank ↦ ground (arith, rw (require_api_key, blank) at e)
  | inr there ↦ key_gate-some a (bearer_token header) (rw (require_api_key, there) at e)
]

pub admin_gate-none :
    (expected : String) (o : Option String) (info : KeyInfo)
    → admin_gate expected o ≢ passes (some info)
unfolding admin_gate write_auth_error
admin_gate-none expected none info e = ground (arith, e)
admin_gate-none expected (some token) info e = ground (arith, e)

pub require_admin_token-none :
    (expected header : String) (info : KeyInfo)
    → require_admin_token expected header ≢ passes (some info)
unfolding require_admin_token write_auth_error
require_admin_token-none expected header info e =
    elim (Bool-cases (str_eq (trim_space header) "")) [
      | inl blank ↦ ground (arith, rw (require_admin_token, blank) at e)
      | inr there ↦
          admin_gate-none expected (bearer_token header) info (rw (require_admin_token, there) at e)
    ]
