-- ===== src/Store.antt =====
-- internal/store/api_keys.go and internal/store/errors.go: the table of keys, and the queries on it.
-- The table is the list of its rows; a statement's WHERE clause is a test on a row. What Postgres
-- draws for a new row, and whether a statement fails, are arguments.
pub mod Revoked
use llm_gateway.Base.{
  ℕ, Bool, true, false, not, ◌&&◌, Option, none, some, List, [], ◌∷◌, map, ◌++◌, ℤ, String, str_eq,
  leb, if◌then◌else◌,
}
use llm_gateway.Auth.{KeyInfo}
use llm_gateway.Auth.Cached.{Lookup, row, not_found, lookup_failed}

pub record ApiKey : Type 0 where
  pub id : String
  pub key_hash : String
  pub key_prefix : String
  pub org_id : String
  pub name : String
  pub scopes : List String
  pub rate_limit_rpm : ℤ
  pub rate_limit_tpm : ℤ
  pub is_active : Bool
  pub created_at : ℕ
  pub expires_at : Option ℕ
  pub last_used_at : Option ℕ

pub record NewKey : Type 0 where
  pub org_id : String
  pub name : String
  pub rate_limit_rpm : ℤ
  pub rate_limit_tpm : ℤ
  pub expires_at : Option ℕ

-- What a statement of pgx fails with: SQLSTATE 22P02, or any other error with its text.
pub data PgError : Type 0 where
  invalid_text : PgError
  other_failure : String → PgError

-- mapPgError, as the test for ErrNotFound.
unfoldable pub is_not_found : PgError → Bool
is_not_found invalid_text = true
is_not_found (other_failure e) = false

-- A row, ErrNotFound, or another error.
pub data Found : Type 0 where
  found : ApiKey → Found
  missing : Found
  failed : PgError → Found

abbrev pub found_of : Option ApiKey → Found
found_of none = missing
found_of (some k) = found k

-- The first row that a test accepts.
unfoldable pub first : (ApiKey → Bool) → List ApiKey → Option ApiKey
first p [] = none
first p (k ∷ ks) = let rest = first p ks in if p k then some k else rest

abbrev pub is_current : ℕ → Option ℕ → Bool
is_current now none = true
is_current now (some t) = not (leb t now)

abbrev pub is_live : String → ℕ → ApiKey → Bool
is_live hash now k = str_eq k.key_hash hash && (k.is_active && is_current now k.expires_at)

unfoldable pub get_by_hash : List ApiKey → Option PgError → String → ℕ → Found
unfolding first
get_by_hash keys (some e) hash now = failed e
get_by_hash keys none hash now = found_of (first (is_live hash now) keys)

unfoldable pub get_by_id : List ApiKey → Option PgError → String → Found
unfolding first is_not_found
get_by_id keys (some e) id = if is_not_found e then missing else failed e
get_by_id keys none id = found_of (first (λ k. str_eq k.id id) keys)

-- UPDATE api_keys SET is_active = FALSE WHERE id = $1
abbrev pub deactivate : String → ApiKey → ApiKey
deactivate id k = record k { is_active = if str_eq k.id id then false else k.is_active }

-- The table after Revoke, and its error.
unfoldable pub revoke : List ApiKey → Option PgError → String → List ApiKey × Option PgError
unfolding is_not_found
revoke keys (some e) id = (keys, if is_not_found e then none else some e)
revoke keys none id = (map (deactivate id) keys, none)

-- What Postgres fills in for a new row.
pub record Drawn : Type 0 where
  pub id : String
  pub created_at : ℕ

abbrev new_row : NewKey → String → String → Drawn → ApiKey
new_row k hash prefix drawn = record {
  id = drawn.id;
  key_hash = hash;
  key_prefix = prefix;
  org_id = k.org_id;
  name = k.name;
  scopes = [];
  rate_limit_rpm = k.rate_limit_rpm;
  rate_limit_tpm = k.rate_limit_tpm;
  is_active = true;
  created_at = drawn.created_at;
  expires_at = k.expires_at;
  last_used_at = none;
}

pub data Created : Type 0 where
  created : ApiKey → Created
  not_created : PgError → Created

-- The table after Create, and what it returns; a hash that is there already is one of the errors.
unfoldable pub create :
    List ApiKey → Option PgError → NewKey → String → String → Drawn → List ApiKey × Created
create keys (some e) k hash prefix drawn = (keys, not_created e)
create keys none k hash prefix drawn =
    let r = new_row k hash prefix drawn in (keys ++ (r ∷ []), created r)

-- The KeyInfo that the cached authenticator makes of a row.
unfoldable pub key_info_of : ApiKey → KeyInfo
key_info_of k = record {
  key_id = k.id;
  org_id = k.org_id;
  name = k.name;
  rpm = k.rate_limit_rpm;
  tpm = k.rate_limit_tpm;
  scopes = k.scopes;
  expires_at = k.expires_at;
}

-- The store's answer, as the cached authenticator reads it; `text` is the text of an error.
abbrev pub lookup_of : (PgError → String) → Found → Lookup
lookup_of text (found k) = row (key_info_of k)
lookup_of text missing = not_found
lookup_of text (failed e) = lookup_failed (text e)
