-- ===== src/Auth.antt =====
-- internal/auth/auth.go: the identity of an authenticated API key, and what an authenticator answers.
pub mod Cached
use llm_gateway.Base.{ℕ, Option, none, List, [], ℤ, pos, String}

pub record KeyInfo : Type 0 where
  pub key_id : String
  pub org_id : String
  pub name : String
  pub rpm : ℤ
  pub tpm : ℤ
  pub scopes : List String
  pub expires_at : Option ℕ

-- What Authenticate returns: the key, ErrInvalidKey, or another error.
pub data Authentication : Type 0 where
  known : KeyInfo → Authentication
  invalid_key : Authentication
  backend_failed : String → Authentication

-- internal/auth/allow_all.go
unfoldable pub allow_all : String → Authentication
allow_all token = known (record {
  key_id = "dev";
  org_id = "dev";
  name = "dev";
  rpm = pos 0;
  tpm = pos 0;
  scopes = [];
  expires_at = none;
})
