-- ===== src/Auth/Cached.antt =====
-- internal/auth/cached.go: the authenticator that caches lookups. The LRU caches are a library's and
-- stand here as an interface; the hash of the plaintext key and the store's answer are arguments.
pub mod Absent
pub mod Halves
pub mod Answers
use llm_gateway.Base.{
  ℕ, Bool, true, false, Option, none, some, String, leb, if◌then◌else◌, ◌≡◌, refl, ◌∙◌,
}
use llm_gateway.Auth.{KeyInfo, Authentication, known, invalid_key, backend_failed}

-- expirable.LRU. A Get may reorder or expire entries.
pub record Lru (C : Type 0) (V : Type 0) : Type 0 where
  pub get : C → String → C × Option V
  pub add : C → String → V → C
  pub remove : C → String → C

-- What store.APIKeyStore answers: a row as the KeyInfo of its columns, ErrNotFound, or an error.
pub data Lookup : Type 0 where
  row : KeyInfo → Lookup
  not_found : Lookup
  lookup_failed : String → Lookup

pub record Cached (P N T : Type 0) : Type 0 where
  pub found_keys : P
  pub unknown_keys : N
  pub touched : T

-- The caches after a call, its answer, and whether the key's last use is written.
pub record Looked (P N T : Type 0) : Type 0 where
  pub cached : Cached P N T
  pub answer : Authentication
  pub touches : Bool

unfoldable pub is_expired : KeyInfo → ℕ → Bool
is_expired info now = elim info.expires_at [ none ↦ false | some t ↦ leb t now ]

module _ {P N T : Type 0} (found : Lru P KeyInfo) (missing : Lru N (Unit {0}))
    (recent : Lru T ℕ) where
  unfoldable pub maybe_touch : T → String → ℕ → T × Bool
  maybe_touch t key_id now =
      let out = recent.get t key_id in
      elim out.1 [ some at_time ↦ (out.0, false) | none ↦ (recent.add out.0 key_id now, true) ]

  abbrev accept : P → N → T → KeyInfo → ℕ → Looked P N T
  accept p n t info now =
      let out = maybe_touch t info.key_id now in
      record {
        cached = record { found_keys = p; unknown_keys = n; touched = out.0 };
        answer = known info;
        touches = out.1;
      }

  abbrev deny : P → N → T → Authentication → Looked P N T
  deny p n t a = record {
    cached = record { found_keys = p; unknown_keys = n; touched = t };
    answer = a;
    touches = false;
  }

  -- A key that is cached, by whether it has expired.
  unfoldable pub on_hit : Bool → P → N → T → String → KeyInfo → ℕ → Looked P N T
  unfolding maybe_touch
  on_hit true p n t hash info now = deny (found.remove p hash) (missing.add n hash tt) t invalid_key
  on_hit false p n t hash info now = accept p n t info now

  unfoldable pub on_lookup : Lookup → P → N → T → String → ℕ → Looked P N T
  unfolding maybe_touch
  on_lookup (row info) p n t hash now = accept (found.add p hash info) n t info now
  on_lookup not_found p n t hash now = deny p (missing.add n hash tt) t invalid_key
  on_lookup (lookup_failed e) p n t hash now = deny p n t (backend_failed e)

  unfoldable pub on_miss : Option (Unit {0}) → Lookup → P → N → T → String → ℕ → Looked P N T
  unfolding on_lookup
  on_miss (some u) reply p n t hash now = deny p n t invalid_key
  on_miss none reply p n t hash now = on_lookup reply p n t hash now

  unfoldable pub authenticate : Cached P N T → String → ℕ → Lookup → Looked P N T
  unfolding is_expired on_hit on_miss
  authenticate c hash now reply =
      let hit = found.get c.found_keys hash in
      let miss = missing.get c.unknown_keys hash in
      elim hit.1 [
        | some info ↦ on_hit (is_expired info now) hit.0 c.unknown_keys c.touched hash info now
        | none ↦ on_miss miss.1 reply hit.0 miss.0 c.touched hash now
      ]

  unfoldable pub invalidate : Cached P N T → String → Cached P N T
  invalidate c hash = record {
    found_keys = found.remove c.found_keys hash;
    unknown_keys = missing.remove c.unknown_keys hash;
    touched = c.touched;
  }
