-- ===== src/Handler/AdminKeys/Aftermath.antt =====
-- What may happen after a key is revoked, in internal/handler/admin_keys.go, internal/store/api_keys.go
-- and internal/auth/cached.go together: calls of Authenticate in two halves, and calls of Revoke.
pub mod Exclusion
use mathlib.Core.Path.{subst}
use llm_gateway.Base.{
  ◌≡◌, ◌≢◌, refl, ap, sym, ◌∙◌, ◌⊎◌, inl, inr, Bool, true, false, Option, none, some, List, [], ◌∷◌,
  All, get_elem?, drop_at, All-drop_at, All-get_elem?, String, str_eq, str_eq_iff, Bool-cases,
  arith, ℕ, zero, suc, if◌then◌else◌,
}
use llm_gateway.Auth.{KeyInfo, Authentication}
use llm_gateway.Auth.Cached.{Lru, Lookup, row, Cached, Looked, invalidate}
use llm_gateway.Auth.Cached.Absent.{KeepsOut, NotFound, on_lookup-out, invalidate-out}
use llm_gateway.Auth.Cached.Answers.{Removes, on_lookup-known}
use llm_gateway.Auth.Cached.Halves.{
  Begun, answered, waits, begin, finish, Left, Refused, begin-Left,
}
use llm_gateway.Handler.AdminKeys.{Revoked, no_content, revoke, revoke_found, revoke_hash}
use llm_gateway.Handler.AdminKeys.Revocation.{drop, revoke_key, revoke_key-result}
use llm_gateway.Store
use llm_gateway.Store.{
  ApiKey, Found, found, missing, failed, first, is_live, PgError, get_by_hash, get_by_id, lookup_of,
}
use llm_gateway.Store.Revoked.{Owns, first-dead, first-revoke, no_row}

-- A step of the gateway's use of its keys: a request begins its authentication, with the error of the
-- database if it fails; one that waits is answered; a key is revoked.
pub data Use : Type 0 where
  begins : (hash : String) (now : ℕ) (failure : Option PgError) → Use
  ends : (i now : ℕ) → Use
  revokes : (id : String) (on_read on_write : Option PgError) → Use

-- The table of keys, the authenticator's caches, what the store has answered to the requests that have
-- not ended, and the answers so far.
pub record World (P N T : Type 0) : Type 0 where
  pub keys : List ApiKey
  pub cached : Cached P N T
  pub pending : List (String × Lookup)
  pub answers : List (String × Authentication)

-- No row of the hash has been read for a request that has not ended.
abbrev pub NoneRead : String → List (String × Lookup) → Type 0
NoneRead hash qs = All (λ q. q.0 ≡ hash → (info : KeyInfo) → q.1 ≢ row info) qs

-- No answer for the hash is a known key.
abbrev pub AllRefused : String → List (String × Authentication) → Type 0
AllRefused hash said = All (λ a. a.0 ≡ hash → Refused a.1) said

module _ {P N T : Type 0} (found_keys : Lru P KeyInfo) (missing_keys : Lru N (Unit {0}))
    (recent : Lru T ℕ) (text : PgError → String) where
  abbrev pub forget : Cached P N T → String → Cached P N T
  forget = drop found_keys missing_keys recent text

  abbrev pub left : World P N T → Revoked (List ApiKey) (Cached P N T) → World P N T
  left w out = record w { keys = out.store; cached = out.cache }

  abbrev pub log : World P N T → String → Looked P N T → World P N T
  log w hash l = record w { cached = l.cached; answers = (hash, l.answer) ∷ w.answers }

  unfoldable pub on_begun : World P N T → String → Lookup → Begun P N T → World P N T
  on_begun w hash reply (answered l) = log w hash l
  on_begun w hash reply (waits c) = record w { cached = c; pending = (hash, reply) ∷ w.pending }

  unfoldable pub on_ready : World P N T → ℕ → ℕ → Option (String × Lookup) → World P N T
  unfolding finish drop_at
  on_ready w i now none = w
  on_ready w i now (some (hash, reply)) =
      log (record w { pending = drop_at i w.pending }) hash
        (finish found_keys missing_keys recent w.cached hash now reply)

  unfoldable pub after : World P N T → Use → World P N T
  unfolding begin get_by_hash revoke on_begun on_ready
  after w (begins hash now e) =
      on_begun w hash (lookup_of text (get_by_hash w.keys e hash now))
        (begin found_keys missing_keys recent w.cached hash now)
  after w (ends i now) = on_ready w i now (get_elem? w.pending i)
  after w (revokes id r x) =
      left w (revoke (λ s i. get_by_id s r i) (λ s i. Store.revoke s x i) forget w.keys w.cached id)

  unfoldable pub afters : World P N T → List Use → World P N T
  unfolding after
  afters w [] = w
  afters w (u ∷ us) = afters (after w u) us
