-- ===== src/Store/Revoked.antt =====
-- A key that internal/store/api_keys.go has revoked.
use llm_gateway.Auth.{KeyInfo}
use llm_gateway.Auth.Cached.{row, not_found}
use llm_gateway.Base.{
  ◌≡◌, ◌≢◌, refl, inl, inr, ap, ap₂, sym, ◌∙◌, arith, Bool, true, false, ◌&&◌, Option, none, some,
  List, [], ◌∷◌, map, String, str_eq, str_eq_iff, Bool-cases, ℕ, if◌then◌else◌, All,
}
use llm_gateway.Store.{
  ApiKey, PgError, first, is_live, get_by_hash, revoke, deactivate, is_current, found_of, lookup_of,
}

-- Every row with the hash has the id.
abbrev pub Owns : String → String → List ApiKey → Type 0
Owns id hash keys = All (λ k. k.key_hash ≡ hash → k.id ≡ id) keys

-- A row of the id is not live once it is revoked, and no other row has the hash.
dead :
    (id hash : String) (now : ℕ) (k : ApiKey)
    → (k.key_hash ≡ hash → k.id ≡ id)
    → is_live hash now (deactivate id k) ≡ false
dead id hash now k h = elim (Bool-cases (str_eq k.key_hash hash)) [
  | inr other ↦
      ap
        (λ b. b && ((if str_eq k.id id then false else k.is_active) && is_current now k.expires_at))
        other
  | inl same ↦
      let mine : str_eq k.id id ≡ true =
        (str_eq_iff k.id id).1 (h ((str_eq_iff k.key_hash hash).0 same)) in
      ap₂ (λ b x. b && ((if x then false else k.is_active) && is_current now k.expires_at)) same
        mine
]

-- Where each hash belongs to one id, no row of the table is live with the hash of an id that is
-- revoked.
pub first-dead :
    (id hash : String) (now : ℕ) (keys : List ApiKey)
    → Owns id hash keys
    → first (is_live hash now) (map (deactivate id) keys) ≡ none
unfolding first
first-dead id hash now [] h = refl
first-dead id hash now (k ∷ ks) h =
    ap₂ (λ b rest. if b then some (deactivate id k) else rest) (dead id hash now k h.0)
      (first-dead id hash now ks h.1)

-- A row that is not live stays so when more rows are revoked.
stays_dead :
    (id hash : String) (now : ℕ) (k : ApiKey)
    → is_live hash now k ≡ false
    → is_live hash now (deactivate id k) ≡ false
stays_dead id hash now k h = elim (Bool-cases (str_eq k.id id)) [
  | inr other ↦
      ap
        (λ b.
          str_eq k.key_hash hash
          && ((if b then false else k.is_active) && is_current now k.expires_at))
        other
      ∙ h
  | inl same ↦
      ap
        (λ b.
          str_eq k.key_hash hash
          && ((if b then false else k.is_active) && is_current now k.expires_at))
        same
      ∙ and_false (str_eq k.key_hash hash)
]
  where
    and_false : (b : Bool) → (b && false) ≡ false
    and_false true = refl
    and_false false = refl

first-none :
    (id hash : String) (now : ℕ) (keys : List ApiKey)
    → first (is_live hash now) keys ≡ none
    → first (is_live hash now) (map (deactivate id) keys) ≡ none
unfolding first
first-none id hash now [] h = refl
first-none id hash now (k ∷ ks) h = elim (Bool-cases (is_live hash now k)) [
  | inl live ↦
      absurd
        (some_none k (sym (ap (λ b. if b then some k else first (is_live hash now) ks) live) ∙ h))
  | inr dead ↦
      ap₂ (λ b rest. if b then some (deactivate id k) else rest) (stays_dead id hash now k dead)
        (first-none id hash now ks
          (sym (ap (λ b. if b then some k else first (is_live hash now) ks) dead) ∙ h))
]
  where
    some_none : (x : ApiKey) → some x ≢ none
    some_none x e = ground (arith, e)

pub first-revoke :
    (hash id : String) (keys : List ApiKey) (x : Option PgError)
    → ((now : ℕ) → first (is_live hash now) keys ≡ none)
    → (now : ℕ) → first (is_live hash now) (revoke keys x id).0 ≡ none
unfolding revoke
first-revoke hash id keys none dead now = first-none id hash now keys (dead now)
first-revoke hash id keys (some e) dead now = dead now

-- A request with such a hash gets no row, whether the database fails or not.
pub no_row :
    (text : PgError → String) (keys : List ApiKey) (e : Option PgError) (hash : String) (now : ℕ)
    → first (is_live hash now) keys ≡ none
    → (info : KeyInfo) → lookup_of text (get_by_hash keys e hash now) ≢ row info
unfolding get_by_hash
no_row text keys (some e) hash now h info eq = ground (arith, eq)
no_row text keys none hash now h info eq =
    not_row info (sym (ap (λ o. lookup_of text (found_of o)) h) ∙ eq)
  where
    not_row : (info : KeyInfo) → not_found ≢ row info
    not_row info x = ground (arith, x)
