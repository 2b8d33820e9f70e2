-- ===== src/Examples/Access.antt =====
-- Runs of the authentication and of the rate-limit middleware.
use llm_gateway.Base.{
  ℕ, ◌≡◌, ◌≢◌, ◌↔◌, ◌⊎◌, refl, arith, Bool, true, false, Option, none, some, List, [], ◌∷◌, ℤ, pos,
  String,
}
use llm_gateway.Auth.{KeyInfo, Authentication, known}
use llm_gateway.RateLimit.Limiter.{Reservation, Result, done}
use llm_gateway.Middleware.Auth.{require_api_key, require_admin_token, bearer_token, passes}
use llm_gateway.Middleware.Access.{require_api_key_iff, require_admin_token_iff}
use llm_gateway.Middleware.Writer.{Bytes}
use llm_gateway.Middleware.Capture.{direct}
use llm_gateway.Middleware.Limit.{Handler, serve}
use llm_gateway.Middleware.Service.{serve_cases, with_headers, called_for, rejects, IsTooMany}
use llm_gateway.Examples.Floats.{halves}
use llm_gateway.Examples.Writers.{Sent, kept, kept-WriterLaws, calls_made, seven}

abbrev someone : KeyInfo
someone = record {
  key_id = "k";
  org_id = "o";
  name = "someone";
  rpm = pos 0;
  tpm = pos 0;
  scopes = [];
  expires_at = none;
}

abbrev everyone : String → Authentication
everyone token = known someone

parsed : bearer_token "  bEaReR \tsecret " ≡ some "secret"
unfolding bearer_token llm_gateway.Base.str_eq
parsed = refl

require_api_key_iff_example :
    (require_api_key everyone "  bEaReR \tsecret " ≡ passes (some someone)) ↔ (
      (token : String) × (bearer_token "  bEaReR \tsecret " ≡ some token)
      × (everyone token ≡ known someone))
require_api_key_iff_example = require_api_key_iff everyone "  bEaReR \tsecret " someone

require_admin_token_iff_example :
    (require_admin_token "secret" "Bearer secret" ≡ passes none)
    ↔ (◌≢◌ {A = String} "secret" "" × (bearer_token "Bearer secret" ≡ some "secret"))
require_admin_token_iff_example = require_admin_token_iff "secret" "Bearer secret"

abbrev refused : Option (Result Reservation)
refused = some (
    done (record {
      allowed = false;
      limit = pos 60;
      remaining = pos 0;
      reset = pos 1500000000;
      tpm_limit = pos 0;
      tpm_remaining = pos 0;
      tpm_reset = pos 0;
      retry_after = pos 1500000000;
    }))

abbrev shown : ℤ → String
shown d = "2s"

abbrev encoded : String → String → String → Bytes
encoded message type error_code = 123 ∷ 125 ∷ []

abbrev handler : Handler Sent
handler = record { prepares = λ w. w; makes = calls_made }

serve_cases_example :
    let out = serve kept halves shown encoded seven (pos 0) (pos 9) (none, []) handler refused in
    let headed = with_headers kept (none, []) (called_for shown refused) in
    ((rejects refused ≡ true)
      × IsTooMany kept encoded headed out.writer
      × (out.is_limited ≡ true)
      × (out.tokens ≡ none))
    ⊎ ((rejects refused ≡ false)
        × (out.writer ≡ direct kept (handler.prepares headed) handler.makes)
        × (out.is_limited ≡ false))
serve_cases_example =
    serve_cases kept kept-WriterLaws (λ w b. refl) halves shown encoded seven (pos 0) (pos 9)
      (none, []) handler refused (omega arith, (tt, (tt, (tt, (omega arith, tt)))))
