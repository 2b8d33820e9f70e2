-- ===== src/Handler/AdminKeys/Aftermath/Exclusion.antt =====
-- A revoked key is refused from then on, by internal/handler/admin_keys.go and internal/auth/cached.go.
use mathlib.Core.Path.{subst}
use llm_gateway.Base.{
  ◌≡◌, ◌≢◌, refl, ap, sym, ◌∙◌, ◌⊎◌, inl, inr, Bool, true, false, Option, none, some, List, [], ◌∷◌,
  get_elem?, All-drop_at, All-get_elem?, String, str_eq, str_eq_iff, Bool-cases, arith, ℕ,
  if◌then◌else◌,
}
use llm_gateway.Auth.{KeyInfo}
use llm_gateway.Auth.Cached.{Lru, Lookup, row, Cached, invalidate}
use llm_gateway.Auth.Cached.Absent.{KeepsOut, NotFound, on_lookup-out, invalidate-out}
use llm_gateway.Auth.Cached.Answers.{Removes, on_lookup-known}
use llm_gateway.Auth.Cached.Halves.{Begun, answered, waits, begin, finish, Left, begin-Left}
use llm_gateway.Handler.AdminKeys.{no_content, revoke, revoke_found, revoke_hash}
use llm_gateway.Handler.AdminKeys.Revocation.{revoke_key, revoke_key-result}
use llm_gateway.Store
use llm_gateway.Store.{
  ApiKey, Found, found, missing, failed, first, is_live, PgError, get_by_hash, get_by_id, lookup_of,
}
use llm_gateway.Store.Revoked.{Owns, first-dead, first-revoke, no_row}
use llm_gateway.Handler.AdminKeys.Aftermath.{
  Use, begins, ends, revokes, World, NoneRead, AllRefused, forget, left, on_begun, on_ready, after,
  afters,
}

module _ {P N T : Type 0} (found_keys : Lru P KeyInfo) (missing_keys : Lru N (Unit {0}))
    (recent : Lru T ℕ) (text : PgError → String) where
  -- A hash of no live key, that no cache finds, no request has read and no answer has let in.
  abbrev IsDead : String → World P N T → Type 0
  IsDead hash w =
      NotFound found_keys missing_keys recent hash w.cached
      × (((now : ℕ) → first (is_live hash now) w.keys ≡ none)
          × (NoneRead hash w.pending × AllRefused hash w.answers))

  module _ (keeps : KeepsOut found_keys) where
    dropped-out :
        (b : Bool) (c : Cached P N T) (j hash : String)
        → NotFound found_keys missing_keys recent hash c
        → NotFound found_keys missing_keys recent hash
            (if b then c else forget found_keys missing_keys recent text c j)
    dropped-out true c j hash h = h
    dropped-out false c j hash h = invalidate-out found_keys missing_keys recent keeps c j hash h

    -- Whatever the database answers to the update.
    revoke_hash-out :
        (hash : String) (w : World P N T) (j : String) (r : Option PgError) (keys : List ApiKey)
        (o x : Option PgError)
        → NotFound found_keys missing_keys recent hash w.cached
        → ((now : ℕ) → first (is_live hash now) keys ≡ none)
        → (NoneRead hash w.pending × AllRefused hash w.answers)
        → IsDead hash (
            left found_keys missing_keys recent text w (
              revoke_hash
                (λ s i. get_by_id s r i)
                (λ s i. Store.revoke s x i)
                (forget found_keys missing_keys recent text)
                w.keys
                w.cached
                j
                (keys, o)))
    unfolding revoke_hash
    revoke_hash-out hash w j r keys none x out dead rest =
        (dropped-out (str_eq j "") w.cached j hash out, (dead, rest))
    revoke_hash-out hash w j r keys (some e) x out dead rest = (out, (dead, rest))

    revoke_found-out :
        (hash : String) (w : World P N T) (id : String) (r x : Option PgError) (f : Found)
        → IsDead hash w
        → IsDead hash (
            left found_keys missing_keys recent text w (
              revoke_found
                (λ s i. get_by_id s r i)
                (λ s i. Store.revoke s x i)
                (forget found_keys missing_keys recent text)
                w.keys
                w.cached
                id
                f))
    unfolding revoke_found
    revoke_found-out hash w id r x (found k) (out, (dead, rest)) =
        revoke_hash-out hash w k.key_hash r (Store.revoke w.keys x id).0
          (Store.revoke w.keys x id).1 x out (first-revoke hash id w.keys x dead) rest
    revoke_found-out hash w id r x missing (out, (dead, rest)) =
        revoke_hash-out hash w "" r (Store.revoke w.keys x id).0 (Store.revoke w.keys x id).1 x out
          (first-revoke hash id w.keys x dead) rest
    revoke_found-out hash w id r x (failed e) h = h

    on_begun-IsDead :
        (hash : String) (w : World P N T) (j : String) (reply : Lookup) (b : Begun P N T)
        → Left found_keys missing_keys recent hash j b
        → (j ≡ hash → (info : KeyInfo) → reply ≢ row info)
        → IsDead hash w
        → IsDead hash (on_begun found_keys missing_keys recent text w j reply b)
    unfolding on_begun
    on_begun-IsDead hash w j reply (answered l) (out, safe) none_read (_, (dead, (read, all))) =
        (out, (dead, (read, (safe, all))))
    on_begun-IsDead hash w j reply (waits c) out none_read (_, (dead, (read, all))) =
        (out, (dead, ((none_read, read), all)))

    on_ready-IsDead :
        (hash : String) (w : World P N T) (i now : ℕ) (o : Option (String × Lookup))
        → get_elem? w.pending i ≡ o
        → IsDead hash w
        → IsDead hash (on_ready found_keys missing_keys recent text w i now o)
    unfolding on_ready finish
    on_ready-IsDead hash w i now none e h = h
    on_ready-IsDead hash w i now (some (j, reply)) e (out, (dead, (read, all))) =
        let none_read = All-get_elem? _ i w.pending (j, reply) read e in
        (
          on_lookup-out found_keys missing_keys recent keeps reply _ _ _ j hash now
              (same_or_row j hash reply none_read) out,
          (
            dead,
            (
              All-drop_at _ i w.pending read,
              (
                (λ same info e.
                    none_read same info
                      (on_lookup-known found_keys missing_keys recent reply _ _ _ j now info e)),
                all,
              ),
            ),
          ),
        )
      where
        same_or_row :
            (j h : String) (r : Lookup)
            → (j ≡ h → (info : KeyInfo) → r ≢ row info)
            → ((j ≢ h) ⊎ ((info : KeyInfo) → r ≢ row info))
        same_or_row j h r n = elim (Bool-cases (str_eq j h)) [
          | inl same ↦ inr (n ((str_eq_iff j h).0 same))
          | inr other ↦ inl (λ q. ground (arith, other, (str_eq_iff j h).1 q))
        ]

    after-IsDead :
        (hash : String) (w : World P N T) (u : Use)
        → IsDead hash w
        → IsDead hash (after found_keys missing_keys recent text w u)
    unfolding after revoke
    after-IsDead hash w (begins j now e) (out, (dead, rest)) =
        on_begun-IsDead hash w j _ (begin found_keys missing_keys recent w.cached j now)
          (begin-Left found_keys missing_keys recent keeps w.cached j hash now out)
          (λ same.
            no_row text w.keys e j now (ap (λ h. first (is_live h now) w.keys) same ∙ dead now))
          (out, (dead, rest))
    after-IsDead hash w (ends i now) h = on_ready-IsDead hash w i now (get_elem? w.pending i) refl h
    after-IsDead hash w (revokes id r x) h = elim (Bool-cases (str_eq id "")) [
      | inl empty ↦ rw (revoke, empty) h
      | inr named ↦ rw (revoke, named) (revoke_found-out hash w id r x (get_by_id w.keys r id) h)
    ]

    afters-IsDead :
        (hash : String) (us : List Use) (w : World P N T)
        → IsDead hash w
        → IsDead hash (afters found_keys missing_keys recent text w us)
    unfolding afters
    afters-IsDead hash [] w h = h
    afters-IsDead hash (u ∷ us) w h =
        afters-IsDead hash us (after found_keys missing_keys recent text w u)
          (after-IsDead hash w u h)

  revoked-IsDead :
      (forgets : Removes found_keys) (w : World P N T) (id hash : String)
      → Owns id hash w.keys
      → NoneRead hash w.pending
      → IsDead hash (record w {
        keys = (Store.revoke w.keys none id).0;
        cached = forget found_keys missing_keys recent text w.cached hash;
        answers = [];
      })
  unfolding Store.revoke invalidate
  revoked-IsDead forgets w id hash owns read =
      (forgets w.cached.found_keys hash, ((λ now. first-dead id hash now w.keys owns), (read, tt)))

  -- Where the cache of keys forgets what is removed and finds only what is added, and the hash of the
  -- key belongs to its id alone: once Revoke has answered for a key of the table, while no request
  -- that has read its row is under way, it has answered that it is done, and no answer of
  -- Authenticate from then on lets the key in, in any order of the two halves of its calls and of
  -- further calls of Revoke, and whether the database fails in them or not.
  pub revoke-refused_ever :
      (keeps : KeepsOut found_keys) (forgets : Removes found_keys) (w : World P N T) (id : String)
      (k : ApiKey) (us : List Use)
      → id ≢ ""
      → k.key_hash ≢ ""
      → get_by_id w.keys none id ≡ found k
      → Owns id k.key_hash w.keys
      → NoneRead k.key_hash w.pending
      → let out = revoke_key found_keys missing_keys recent text w.keys w.cached id in
        (out.reply ≡ no_content)
        × AllRefused k.key_hash
            (afters found_keys missing_keys recent text
              (left found_keys missing_keys recent text (record w { answers = [] }) out)
              us).answers
  revoke-refused_ever keeps forgets w id k us named hashed there owns read =
      let e =
        revoke_key-result found_keys missing_keys recent text w.keys w.cached id k named hashed
          there in
      let dead =
        afters-IsDead keeps k.key_hash us _ (revoked-IsDead forgets w id k.key_hash owns read) in
      (
        ap (λ r. r.reply) e,
        subst
            (λ r.
              AllRefused k.key_hash
                (afters found_keys missing_keys recent text
                  (left found_keys missing_keys recent text (record w { answers = [] }) r)
                  us).answers)
            (sym e) dead.1.1.1,
      )
