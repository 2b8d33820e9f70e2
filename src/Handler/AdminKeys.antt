-- ===== src/Handler/AdminKeys.antt =====
-- internal/handler/admin_keys.go: minting and revoking API keys. The random bytes, the hash of a key,
-- the store's answers and the decoded body are arguments.
pub mod Generation
pub mod Revocation
pub mod Aftermath
use Prim.Native.Char.{Char}
use Prim.Native.String.{◌++◌, char_at, slice}
use llm_gateway.Base.{
  ℕ, zero, suc, ◌%◌, Bool, true, false, Option, none, some, List, [], ◌∷◌, ℤ, pos, String, str_eq,
  ◌||◌, ltb, if◌then◌else◌,
}
use llm_gateway.Handler.{ErrorReply}
use llm_gateway.Store.{
  ApiKey, NewKey, Found, found, missing, failed, PgError, Created, created, not_created,
}

abbrev pub key_alphabet : String
key_alphabet = "abcdefghijklmnopqrstuvwxyzABCDEFGHIJKLMNOPQRSTUVWXYZ0123456789"

abbrev pub key_body_len : ℕ
key_body_len = 32

abbrev pub key_prefix_len : ℕ
key_prefix_len = 14

-- (256 / 62) * 62
abbrev pub key_accept_ceiling : ℕ
key_accept_ceiling = 248

abbrev default_rate_limit_rpm : ℤ
default_rate_limit_rpm = pos 60

abbrev default_rate_limit_tpm : ℤ
default_rate_limit_tpm = pos 100000

abbrev pub letter : ℕ → Char
letter b = char_at key_alphabet (b % 62)

abbrev push_letter : ℕ → Option String → Option String
push_letter b none = none
push_letter b (some s) = some (String.◌∷◌ (letter b) s)

-- The loop, with the bytes that rand.Read gives, one at a time, until it fails, and the letters that
-- are left to draw.
unfoldable pub draw_letters : List ℕ → ℕ → Option String
draw_letters bs zero = some ""
draw_letters [] (suc n) = none
draw_letters (b ∷ bs) (suc n) =
    let taken = draw_letters bs n in
    let skipped = draw_letters bs (suc n) in
    if ltb b key_accept_ceiling then push_letter b taken else skipped

abbrev pub with_mark : Option String → Option String
with_mark none = none
with_mark (some s) = some ("sk-gw-" ++ s)

unfoldable pub generate_plaintext_key : List ℕ → Option String
unfolding draw_letters
generate_plaintext_key bs = with_mark (draw_letters bs key_body_len)

pub record CreateKeyRequest : Type 0 where
  pub org_id : String
  pub name : String
  pub rate_limit_rpm : Option ℤ
  pub rate_limit_tpm : Option ℤ
  pub expires_at : Option ℕ

pub record CreateKeyResponse : Type 0 where
  pub id : String
  pub key : String
  pub key_prefix : String
  pub name : String
  pub rate_limit_rpm : ℤ
  pub rate_limit_tpm : ℤ
  pub expires_at : Option ℕ
  pub created_at : ℕ

pub data AdminReply : Type 0 where
  refuses : ErrorReply → AdminReply
  creates : CreateKeyResponse → AdminReply
  no_content : AdminReply

abbrev bad_request : String → AdminReply
bad_request message = refuses (record {
  status_code = pos 400;
  type = "invalid_request_error";
  error_code = "invalid_request";
  message = message;
})

abbrev internal_error : String → AdminReply
internal_error message = refuses (record {
  status_code = pos 500;
  type = "internal_error";
  error_code = "internal_error";
  message = message;
})

abbrev or_value : ℤ → Option ℤ → ℤ
or_value d none = d
or_value d (some n) = n

abbrev new_key_of : CreateKeyRequest → NewKey
new_key_of req = record {
  org_id = req.org_id;
  name = req.name;
  rate_limit_rpm = or_value default_rate_limit_rpm req.rate_limit_rpm;
  rate_limit_tpm = or_value default_rate_limit_tpm req.rate_limit_tpm;
  expires_at = req.expires_at;
}

abbrev reply_of : String → Created → AdminReply
reply_of key (not_created e) = internal_error "failed to create key"
reply_of key (created k) = creates (record {
  id = k.id;
  key = key;
  key_prefix = k.key_prefix;
  name = k.name;
  rate_limit_rpm = k.rate_limit_rpm;
  rate_limit_tpm = k.rate_limit_tpm;
  expires_at = k.expires_at;
  created_at = k.created_at;
})

-- The reply, and the key that the store is asked to create, with its hash and prefix.
pub record Minted (S : Type 0) : Type 0 where
  pub store : S
  pub reply : AdminReply

module _ {S : Type 0} (hash_key : String → String)
    (store_create : S → NewKey → String → String → S × Created) where
  -- The end of Create, with the plaintext that was generated.
  unfoldable pub create_with : S → CreateKeyRequest → Option String → Minted S
  create_with s req none = record { store = s; reply = internal_error "failed to generate key" }
  create_with s req (some key) =
      let out = store_create s (new_key_of req) (hash_key key) (slice key 0 key_prefix_len) in
      record { store = out.0; reply = reply_of key out.1 }

  -- Create, with the body as the decoder gives it.
  unfoldable pub create : S → Option CreateKeyRequest → List ℕ → Minted S
  unfolding create_with generate_plaintext_key
  create s none bs = record { store = s; reply = bad_request "invalid request body" }
  create s (some req) bs =
      if str_eq req.org_id "" || str_eq req.name ""
      then record { store = s; reply = bad_request "org_id and name are required" }
      else create_with s req (generate_plaintext_key bs)

-- The store and the cache behind Revoke, and its reply.
pub record Revoked (S C : Type 0) : Type 0 where
  pub store : S
  pub cache : C
  pub reply : AdminReply

module _ {S C : Type 0} (get_by_id : S → String → Found)
    (store_revoke : S → String → S × Option PgError) (invalidate : C → String → C) where
  abbrev drop_cached : C → String → C
  drop_cached c hash = if str_eq hash "" then c else invalidate c hash

  -- The end of Revoke, with the hash of the row, empty where there is none.
  unfoldable pub revoke_hash : S → C → String → S × Option PgError → Revoked S C
  revoke_hash s c hash (s', some e) = record {
    store = s';
    cache = c;
    reply = internal_error "failed to revoke key";
  }
  revoke_hash s c hash (s', none) = record {
    store = s';
    cache = drop_cached c hash;
    reply = no_content;
  }

  unfoldable pub revoke_found : S → C → String → Found → Revoked S C
  unfolding revoke_hash
  revoke_found s c id (found k) = revoke_hash s c k.key_hash (store_revoke s id)
  revoke_found s c id missing = revoke_hash s c "" (store_revoke s id)
  revoke_found s c id (failed e) = record {
    store = s;
    cache = c;
    reply = internal_error "failed to look up key";
  }

  unfoldable pub revoke : S → C → String → Revoked S C
  unfolding revoke_found
  revoke s c id =
      if str_eq id ""
      then record { store = s; cache = c; reply = bad_request "id is required" }
      else revoke_found s c id (get_by_id s id)
