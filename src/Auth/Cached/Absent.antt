-- ===== src/Auth/Cached/Absent.antt =====
-- Keys that the cached authenticator of internal/auth/cached.go does not have.
use llm_gateway.Base.{
  ℕ, Bool, true, false, Option, none, some, String, ◌≡◌, ◌≢◌, refl, ◌⊎◌, inl, inr, Option-cases,
}
use llm_gateway.Auth.{KeyInfo}
use llm_gateway.Auth.Cached.{
  Lru, Lookup, row, not_found, lookup_failed, Cached, is_expired, on_hit, on_lookup, on_miss,
  authenticate, invalidate,
}

-- A cache never finds a key that was not in it until that key is added.
pub record KeepsOut {C V : Type 0} (l : Lru C V) : Type 0 where
  pub on_get : (c : C) (j k : String) → (l.get c k).1 ≡ none → (l.get (l.get c j).0 k).1 ≡ none
  pub on_add :
      (c : C) (j k : String) (v : V)
      → j ≢ k
      → (l.get c k).1 ≡ none
      → (l.get (l.add c j v) k).1 ≡ none
  pub on_remove : (c : C) (j k : String) → (l.get c k).1 ≡ none → (l.get (l.remove c j) k).1 ≡ none

module _ {P N T : Type 0} (found_keys : Lru P KeyInfo) (missing_keys : Lru N (Unit {0}))
    (recent : Lru T ℕ) where
  abbrev pub NotFound : String → Cached P N T → Type 0
  NotFound hash c = (found_keys.get c.found_keys hash).1 ≡ none

  module _ (keeps : KeepsOut found_keys) where
    pub on_hit-out :
        (b : Bool) (p : P) (n : N) (t : T) (j hash : String) (info : KeyInfo) (now : ℕ)
        → (found_keys.get p hash).1 ≡ none
        → NotFound hash (on_hit found_keys missing_keys recent b p n t j info now).cached
    unfolding on_hit
    on_hit-out true p n t j hash info now h = keeps.on_remove p j hash h
    on_hit-out false p n t j hash info now h = h

    -- Only another key's row is added.
    pub on_lookup-out :
        (r : Lookup) (p : P) (n : N) (t : T) (j hash : String) (now : ℕ)
        → ((j ≢ hash) ⊎ ((info : KeyInfo) → r ≢ row info))
        → (found_keys.get p hash).1 ≡ none
        → NotFound hash (on_lookup found_keys missing_keys recent r p n t j now).cached
    unfolding on_lookup
    on_lookup-out (row info) p n t j hash now (inl d) h = keeps.on_add p j hash info d h
    on_lookup-out (row info) p n t j hash now (inr d) h = absurd (d info refl)
    on_lookup-out not_found p n t j hash now d h = h
    on_lookup-out (lookup_failed e) p n t j hash now d h = h

    on_miss-out :
        (o : Option (Unit {0})) (r : Lookup) (p : P) (n : N) (t : T) (j hash : String) (now : ℕ)
        → ((j ≢ hash) ⊎ ((info : KeyInfo) → r ≢ row info))
        → (found_keys.get p hash).1 ≡ none
        → NotFound hash (on_miss found_keys missing_keys recent o r p n t j now).cached
    unfolding on_miss
    on_miss-out (some u) r p n t j hash now d h = h
    on_miss-out none r p n t j hash now d h = on_lookup-out r p n t j hash now d h

    pub authenticate-out :
        (c : Cached P N T) (r : Lookup) (j hash : String) (now : ℕ)
        → ((j ≢ hash) ⊎ ((info : KeyInfo) → r ≢ row info))
        → NotFound hash c
        → NotFound hash (authenticate found_keys missing_keys recent c j now r).cached
    unfolding authenticate
    authenticate-out c r j hash now d h = elim (Option-cases (found_keys.get c.found_keys j).1) [
      | inl out ↦
          rw (authenticate, out)
            (on_miss-out _ r _ _ c.touched j hash now d (keeps.on_get c.found_keys j hash h))
      | inr (info, there) ↦
          rw (authenticate, there)
            (on_hit-out (is_expired info now) _ _ _ j hash info now
              (keeps.on_get c.found_keys j hash h))
    ]

    pub invalidate-out :
        (c : Cached P N T) (j hash : String)
        → NotFound hash c
        → NotFound hash (invalidate found_keys missing_keys recent c j)
    unfolding invalidate
    invalidate-out c j hash h = keeps.on_remove c.found_keys j hash h
