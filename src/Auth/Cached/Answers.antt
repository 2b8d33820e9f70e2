-- ===== src/Auth/Cached/Answers.antt =====
-- Which keys the cached authenticator of internal/auth/cached.go accepts.
use llm_gateway.Base.{
  ℕ, ◌<◌, leb, Bool, true, false, Option, none, some, String, ◌≡◌, refl, sym, ap, ◌∙◌, ◌⊎◌, inl,
  inr, arith, Option-cases,
}
use llm_gateway.Auth.{KeyInfo, Authentication, known, invalid_key, backend_failed}
use llm_gateway.Auth.Cached.{
  Lru, Lookup, row, not_found, lookup_failed, Cached, is_expired, on_hit, on_lookup, on_miss,
  authenticate, invalidate,
}

-- The answer of the store alone.
abbrev pub of_lookup : Lookup → Authentication
of_lookup (row info) = known info
of_lookup not_found = invalid_key
of_lookup (lookup_failed e) = backend_failed e

-- The expiry of a key, where it has one, has not come.
abbrev pub IsUnexpired : KeyInfo → ℕ → Type 0
IsUnexpired info now = (t : ℕ) → info.expires_at ≡ some t → now < t

-- A removed key is not found until it is added again.
abbrev pub Removes : {C V : Type 0} → Lru C V → Type 0
Removes l = (c : _) (k : String) → (l.get (l.remove c k) k).1 ≡ none

module _ {P N T : Type 0} (found : Lru P KeyInfo) (missing : Lru N (Unit {0}))
    (recent : Lru T ℕ) where
  on_lookup-answer :
      (reply : Lookup) (p : P) (n : N) (t : T) (hash : String) (now : ℕ)
      → (on_lookup found missing recent reply p n t hash now).answer ≡ of_lookup reply
  unfolding on_lookup
  on_lookup-answer (row info) p n t hash now = refl
  on_lookup-answer not_found p n t hash now = refl
  on_lookup-answer (lookup_failed e) p n t hash now = refl

  -- Where the two caches forget a removed key: right after a key is invalidated, its authentication
  -- is answered by the store alone, so a key that the store no longer has is refused.
  pub authenticate-invalidate :
      (forgets_found : Removes found) (forgets_missing : Removes missing) (c : Cached P N T)
      (hash : String) (now : ℕ) (reply : Lookup)
      → (authenticate found missing recent
          (invalidate found missing recent c hash)
          hash
          now
          reply).answer
        ≡ of_lookup reply
  unfolding authenticate invalidate on_miss
  authenticate-invalidate forgets_found forgets_missing c hash now reply =
      rw
        (
          authenticate,
          forgets_found c.found_keys hash,
          forgets_missing c.unknown_keys hash,
          on_miss,
        )
        (on_lookup-answer reply _ _ _ hash now)

  pub on_lookup-known :
      (reply : Lookup) (p : P) (n : N) (t : T) (hash : String) (now : ℕ) (info : KeyInfo)
      → (on_lookup found missing recent reply p n t hash now).answer ≡ known info
      → reply ≡ row info
  unfolding on_lookup
  on_lookup-known (row i) p n t hash now info e = ground (arith, e)
  on_lookup-known not_found p n t hash now info e = ground (arith, e)
  on_lookup-known (lookup_failed x) p n t hash now info e = ground (arith, e)

  on_miss-known :
      (o : Option (Unit {0})) (reply : Lookup) (p : P) (n : N) (t : T) (hash : String) (now : ℕ)
      (info : KeyInfo)
      → (on_miss found missing recent o reply p n t hash now).answer ≡ known info
      → reply ≡ row info
  unfolding on_miss
  on_miss-known (some u) reply p n t hash now info e = ground (arith, e)
  on_miss-known none reply p n t hash now info e = on_lookup-known reply p n t hash now info e

  on_hit-known :
      (b : Bool) (p : P) (n : N) (t : T) (hash : String) (cached info : KeyInfo) (now : ℕ)
      → (on_hit found missing recent b p n t hash cached now).answer ≡ known info
      → (b ≡ false) × (cached ≡ info)
  unfolding on_hit
  on_hit-known true p n t hash cached info now e = ground (arith, e)
  on_hit-known false p n t hash cached info now e = (refl, ground (arith, e))

  unexpired : (info : KeyInfo) (now : ℕ) → is_expired info now ≡ false → IsUnexpired info now
  unfolding is_expired
  unexpired info now h t e =
      alive t (sym (ap (λ o. elim o [ none ↦ false | some x ↦ leb x now ]) e) ∙ h)
    where
      alive : (t : ℕ) → leb t now ≡ false → now < t
      alive t k = ground (arith, k)

  -- A key is accepted only if it is cached and its expiry has not come, or it is not cached and
  -- the store has it.
  pub authenticate-known :
      (c : Cached P N T) (hash : String) (now : ℕ) (reply : Lookup) (info : KeyInfo)
      → (authenticate found missing recent c hash now reply).answer ≡ known info
      → (((found.get c.found_keys hash).1 ≡ some info) × IsUnexpired info now)
        ⊎ (((found.get c.found_keys hash).1 ≡ none) × (reply ≡ row info))
  unfolding authenticate
  authenticate-known c hash now reply info e = elim (Option-cases (found.get c.found_keys hash).1) [
    | inl out ↦ inr (out, on_miss-known _ reply _ _ _ hash now info (rw (authenticate, out) at e))
    | inr (cached, there) ↦
        let (alive, same) =
          on_hit-known (is_expired cached now) _ _ _ hash cached info now
            (rw (authenticate, there) at e) in
        inl
          (there ∙ ap some same, unexpired info now (ap (λ i. is_expired i now) (sym same) ∙ alive))
  ]
