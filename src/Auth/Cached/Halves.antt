-- ===== src/Auth/Cached/Halves.antt =====
-- Authenticate of internal/auth/cached.go in two halves, before and after the store has answered, since
-- other calls may run while it waits for the store.
use llm_gateway.Base.{
  ℕ, false, Option, none, some, String, ◌≡◌, ◌≢◌, refl, sym, ap, ◌∙◌, inl, inr, arith, Option-cases,
}
use llm_gateway.Auth.{KeyInfo, Authentication, known, invalid_key}
use llm_gateway.Auth.Cached.{
  Lru, Lookup, Cached, Looked, is_expired, on_hit, on_lookup, on_miss, authenticate,
}
use llm_gateway.Auth.Cached.Absent.{KeepsOut, NotFound, on_hit-out}

-- What the caches alone make of a key: an answer, or a request to the store.
pub data Begun (P N T : Type 0) : Type 0 where
  answered : Looked P N T → Begun P N T
  waits : Cached P N T → Begun P N T

-- No key is known.
abbrev pub Refused : Authentication → Type 0
Refused a = (info : KeyInfo) → a ≢ known info

module _ {P N T : Type 0} (found_keys : Lru P KeyInfo) (missing_keys : Lru N (Unit {0}))
    (recent : Lru T ℕ) where
  unfoldable pub begin_miss : Option (Unit {0}) → P → N → T → Begun P N T
  begin_miss (some u) p n t = answered (record {
    cached = record { found_keys = p; unknown_keys = n; touched = t };
    answer = invalid_key;
    touches = false;
  })
  begin_miss none p n t = waits (record { found_keys = p; unknown_keys = n; touched = t })

  -- Up to the call of GetByHash.
  unfoldable pub begin : Cached P N T → String → ℕ → Begun P N T
  unfolding is_expired on_hit begin_miss
  begin c hash now =
      let hit = found_keys.get c.found_keys hash in
      let miss = missing_keys.get c.unknown_keys hash in
      elim hit.1 [
        | some info ↦ answered (
            on_hit found_keys missing_keys recent (is_expired info now) hit.0 c.unknown_keys
              c.touched hash info now)
        | none ↦ begin_miss miss.1 hit.0 miss.0 c.touched
      ]

  -- From its answer on.
  unfoldable pub finish : Cached P N T → String → ℕ → Lookup → Looked P N T
  unfolding on_lookup
  finish c hash now reply =
      on_lookup found_keys missing_keys recent reply c.found_keys c.unknown_keys c.touched hash now

  abbrev pub resume : String → ℕ → Lookup → Begun P N T → Looked P N T
  resume hash now reply (answered l) = l
  resume hash now reply (waits c) = finish c hash now reply

  -- The halves, one right after the other, are Authenticate.
  pub resume-begin :
      (c : Cached P N T) (hash : String) (now : ℕ) (reply : Lookup)
      → resume hash now reply (begin c hash now)
        ≡ authenticate found_keys missing_keys recent c hash now reply
  unfolding begin authenticate begin_miss on_miss finish
  resume-begin c hash now reply = elim (Option-cases (found_keys.get c.found_keys hash).1) [
    | inl out ↦ rw (begin, authenticate, out) (missed (missing_keys.get c.unknown_keys hash).1 _ _)
    | inr (info, there) ↦ rw (begin, authenticate, there) refl
  ]
    where
      missed :
          (o : Option (Unit {0})) (p : P) (n : N)
          → resume hash now reply (begin_miss o p n c.touched)
            ≡ on_miss found_keys missing_keys recent o reply p n c.touched hash now
      missed (some u) p n = refl
      missed none p n = refl

  -- What a first half leaves where the caches do not find the key.
  abbrev pub Left : String → String → Begun P N T → Type 0
  Left hash j (answered l) =
      NotFound found_keys missing_keys recent hash l.cached × (j ≡ hash → Refused l.answer)
  Left hash j (waits c) = NotFound found_keys missing_keys recent hash c

  refused : Refused invalid_key
  refused info e = ground (arith, e)

  pub begin-Left :
      (keeps : KeepsOut found_keys) (c : Cached P N T) (j hash : String) (now : ℕ)
      → NotFound found_keys missing_keys recent hash c
      → Left hash j (begin c j now)
  unfolding begin begin_miss
  begin-Left keeps c j hash now h = elim (Option-cases (found_keys.get c.found_keys j).1) [
    | inl out ↦
        rw (begin, out)
          (missed (missing_keys.get c.unknown_keys j).1 _ _ (keeps.on_get c.found_keys j hash h))
    | inr (info, there) ↦
        rw (begin, there)
          (
            on_hit-out found_keys missing_keys recent keeps (is_expired info now) _ _ _ j hash info
                now (keeps.on_get c.found_keys j hash h),
            λ same. absurd (
                some_none info
                  (sym there ∙ (ap (λ k. (found_keys.get c.found_keys k).1) same ∙ h))),
          )
  ]
    where
      some_none : (i : KeyInfo) → some i ≢ none
      some_none i e = ground (arith, e)

      missed :
          (o : Option (Unit {0})) (p : P) (n : N)
          → (found_keys.get p hash).1 ≡ none
          → Left hash j (begin_miss o p n c.touched)
      missed (some u) p n k = (k, λ same. refused)
      missed none p n k = k
