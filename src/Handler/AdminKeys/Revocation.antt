-- ===== src/Handler/AdminKeys/Revocation.antt =====
-- A key that the administrator revokes, in internal/handler/admin_keys.go: Revoke with a database that
-- answers.
use llm_gateway.Base.{
  ◌≡◌, ◌≢◌, ap, inl, inr, false, none, List, String, str_eq, str_eq_iff, Bool-cases, ℕ,
  if◌then◌else◌,
}
use llm_gateway.Auth.{KeyInfo}
use llm_gateway.Auth.Cached.{Lru, Cached, invalidate}
use llm_gateway.Handler.AdminKeys.{Revoked, no_content, revoke, revoke_found, revoke_hash}
use llm_gateway.Store
use llm_gateway.Store.{ApiKey, Found, found, missing, PgError, get_by_hash, get_by_id, lookup_of}

not_empty : (s : String) → s ≢ "" → str_eq s "" ≡ false
not_empty s n = elim (Bool-cases (str_eq s "")) [
  | inl e ↦ absurd (n ((str_eq_iff s "").0 e))
  | inr e ↦ e
]

module _ {P N T : Type 0} (found_keys : Lru P KeyInfo) (missing_keys : Lru N (Unit {0}))
    (recent : Lru T ℕ) (text : PgError → String) where
  abbrev pub drop : Cached P N T → String → Cached P N T
  drop = invalidate found_keys missing_keys recent

  -- Revoke over the table of keys and the authenticator's caches, with a database that answers.
  abbrev pub revoke_key : List ApiKey → Cached P N T → String → Revoked (List ApiKey) (Cached P N T)
  revoke_key keys c id =
      revoke (λ s i. get_by_id s none i) (λ s i. Store.revoke s none i) drop keys c id

  revoked-hash :
      (keys : List ApiKey) (c : Cached P N T) (id : String) (k : ApiKey)
      → k.key_hash ≢ ""
      → revoke_hash
          (λ s i. get_by_id s none i)
          (λ s i. Store.revoke s none i)
          drop
          keys
          c
          k.key_hash
          (Store.revoke keys none id)
        ≡ record {
          store = (Store.revoke keys none id).0;
          cache = drop c k.key_hash;
          reply = no_content;
        }
  unfolding revoke_hash Store.revoke
  revoked-hash keys c id k hashed =
      ap
        (λ b. record {
          store = (Store.revoke keys none id).0;
          cache = if b then c else drop c k.key_hash;
          reply = no_content;
        })
        (not_empty k.key_hash hashed)

  -- A row of the table and its id, neither its id nor its hash empty.
  pub revoke_key-result :
      (keys : List ApiKey) (c : Cached P N T) (id : String) (k : ApiKey)
      → id ≢ ""
      → k.key_hash ≢ ""
      → get_by_id keys none id ≡ found k
      → revoke_key keys c id ≡ record {
        store = (Store.revoke keys none id).0;
        cache = drop c k.key_hash;
        reply = no_content;
      }
  unfolding revoke revoke_found revoke_hash Store.revoke
  revoke_key-result keys c id k named hashed there =
      rw (revoke, not_empty id named, there, revoke_found) (revoked-hash keys c id k hashed)
