-- ===== src/Examples/Caches.antt =====
-- Runs of the cached authenticator, on caches that keep everything.
use llm_gateway.Base.{
  ℕ, ◌≡◌, ◌≢◌, arith, true, str_eq_iff, refl, ◌⊎◌, false, none, some, [], ◌∷◌, pos, String, str_eq,
  Dict, List, lookup, lookup-insert, insert, Bool-cases, inl, inr, if◌then◌else◌,
}
use llm_gateway.Store.{
  ApiKey, PgError, other_failure, found, first, get_by_id, get_by_hash, key_info_of,
}
use llm_gateway.Store.Revoked.{Owns}
use llm_gateway.Handler.AdminKeys.{no_content, revoke, revoke_found}
use llm_gateway.Handler.AdminKeys.Revocation.{revoke_key}
use llm_gateway.Handler.AdminKeys.Aftermath.{
  Use, begins, ends, revokes, World, NoneRead, AllRefused, after, afters, left,
}
use llm_gateway.Handler.AdminKeys.Aftermath.Exclusion.{revoke-refused_ever}
use llm_gateway.Auth.{KeyInfo, known}
use llm_gateway.Auth.Cached.{Lru, row, not_found, Cached, authenticate, invalidate}
use llm_gateway.Auth.Cached.Absent.{KeepsOut}
use llm_gateway.Auth.Cached.Halves.{begin, finish}
use llm_gateway.Store
use llm_gateway.Auth.Cached.Answers.{IsUnexpired, authenticate-known}

unfoldable pub dropped : {V : Type 0} → String → Dict V → Dict V
dropped k [] = []
dropped k ((j, v) ∷ m) = let rest = dropped k m in if str_eq j k then rest else (j, v) ∷ rest

abbrev keeps_all : {V : Type 0} → Lru (Dict V) V
keeps_all = record {
  get = λ m k. (m, lookup k m);
  add = λ m k v. insert k v m;
  remove = λ m k. dropped k m;
}

keeps_all-Removes : {V : Type 0} (m : Dict V) (k : String) → lookup k (dropped k m) ≡ none
unfolding lookup dropped
keeps_all-Removes [] k = refl
keeps_all-Removes ((j, v) ∷ m) k = elim (Bool-cases (str_eq j k)) [
  | inl same ↦ rw same (keeps_all-Removes m k)
  | inr other ↦ rw (other, lookup, other) (keeps_all-Removes m k)
]

abbrev tenant : KeyInfo
tenant = record {
  key_id = "k";
  org_id = "o";
  name = "tenant";
  rpm = pos 0;
  tpm = pos 0;
  scopes = [];
  expires_at = some 500;
}

abbrev caches : Cached (Dict KeyInfo) (Dict (Unit {0})) (Dict ℕ)
caches = record { found_keys = ("abc", tenant) ∷ []; unknown_keys = []; touched = ("k", 90) ∷ [] }

abbrev mine : ApiKey
mine = record {
  id = "k";
  key_hash = "abc";
  key_prefix = "sk-gw-abcdefgh";
  org_id = "o";
  name = "tenant";
  scopes = [];
  rate_limit_rpm = pos 0;
  rate_limit_tpm = pos 0;
  is_active = true;
  created_at = 1;
  expires_at = none;
  last_used_at = none;
}

abbrev other : ApiKey
other = record mine { id = "j"; key_hash = "def" }

abbrev error_text : PgError → String
error_text e = "scanning api_key"

is_text-some : (s t : String) → str_eq s t ≡ false → s ≢ t
is_text-some s t h e = ground (arith, h, (str_eq_iff s t).1 e)

there : get_by_id (other ∷ mine ∷ []) none "k" ≡ found mine
unfolding get_by_id first str_eq
there = refl

owned : Owns "k" "abc" (other ∷ mine ∷ [])
unfolding str_eq
owned = (λ e. absurd (is_text-some "def" "abc" refl e), ((λ e. refl), tt))

named : mine.id ≢ ""
unfolding str_eq
named = is_text-some "k" "" refl

hashed : mine.key_hash ≢ ""
unfolding str_eq
hashed = is_text-some "abc" "" refl

keeps_all-out :
    {V : Type 0} (m : Dict V) (j k : String) → lookup k m ≡ none → lookup k (dropped j m) ≡ none
unfolding lookup dropped
keeps_all-out [] j k h = refl
keeps_all-out ((i, v) ∷ m) j k h = ground (arith, keeps_all-out m j k, h)

keeps_all-KeepsOut : {V : Type 0} → KeepsOut (keeps_all {V = V})
keeps_all-KeepsOut = record {
  on_get = λ c j k h. h;
  on_add = λ c j k v d h. ground (arith, lookup-insert j k v c, str_eq_iff j k, d, h);
  on_remove = keeps_all-out;
}

abbrev bare : Cached (Dict KeyInfo) (Dict (Unit {0})) (Dict ℕ)
bare = record { found_keys = []; unknown_keys = []; touched = [] }

-- The KeyInfo of the row.
abbrev read : KeyInfo
read = key_info_of mine

abbrev world : World (Dict KeyInfo) (Dict (Unit {0})) (Dict ℕ)
world = record {
  keys = other ∷ mine ∷ [];
  cached = caches;
  pending = ("def", row tenant) ∷ [];
  answers = ("abc", known tenant) ∷ [];
}

abbrev uses : List Use
uses =
    begins "abc" 100 none
    ∷ begins "def" 101 none
    ∷ ends 1 102
    ∷ begins "xyz" 103 (some (other_failure "timeout"))
    ∷ revokes "j" none none
    ∷ ends 0 104
    ∷ ends 0 105
    ∷ []

unread : NoneRead "abc" world.pending
unfolding str_eq
unread = ((λ e. absurd (is_text-some "def" "abc" refl e)), tt)

revoke-refused_ever_example :
    let out = revoke_key keeps_all keeps_all keeps_all error_text world.keys world.cached "k" in
    (out.reply ≡ no_content)
    × AllRefused "abc"
        (afters keeps_all keeps_all keeps_all error_text
          (left keeps_all keeps_all keeps_all error_text (record world { answers = [] }) out)
          uses).answers
revoke-refused_ever_example =
    revoke-refused_ever keeps_all keeps_all keeps_all error_text keeps_all-KeepsOut
      keeps_all-Removes world "k" mine uses named hashed there owned unread

-- The key is revoked between the two halves of a call: that call and the next are let in.
raced :
    let begun =
      after keeps_all keeps_all keeps_all error_text
        (record world { cached = bare; answers = [] })
        (begins "abc" 100 none) in
    let out = revoke_key keeps_all keeps_all keeps_all error_text begun.keys begun.cached "k" in
    (afters keeps_all keeps_all keeps_all error_text
      (left keeps_all keeps_all keeps_all error_text begun out)
      (ends 0 101 ∷ begins "abc" 200 none ∷ [])).answers
    ≡ (("abc", known read) ∷ ("abc", known read) ∷ [])
unfolding after afters begin finish revoke revoke_found Store.revoke get_by_hash get_by_id first
    insert lookup dropped str_eq invalidate key_info_of
raced = refl

accepted :
    (authenticate keeps_all keeps_all keeps_all caches "abc" 100 not_found).answer ≡ known tenant
unfolding authenticate lookup str_eq
accepted = refl

authenticate-known_example :
    ((lookup "abc" caches.found_keys ≡ some tenant) × IsUnexpired tenant 100)
    ⊎ ((lookup "abc" caches.found_keys ≡ none) × (not_found ≡ row tenant))
authenticate-known_example =
    authenticate-known keeps_all keeps_all keeps_all caches "abc" 100 not_found tenant accepted
