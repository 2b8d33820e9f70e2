-- ===== src/Handler/AdminKeys/Generation.antt =====
-- The plaintext keys of internal/handler/admin_keys.go.
use Prim.Native.Char.{code, len_utf8}
use Prim.Native.String.{◌++◌, char_at, len}
use Prim.Native.String.len as len_clauses
use text.Mathlib.Text.{starts_with}
use text.Mathlib.TextPositions.{starts_with-append, len-append}
use llm_gateway.Base.{
  ◌≡◌, ◌≤◌, ◌<◌, refl, ap, ◌∙◌, Bool, true, not, if◌then◌else◌, ◌&&◌, Option, none, some, inl, inr,
  ℕ, zero, suc, ◌+◌, ◌%◌, ◌==◌, ltb, List, [], ◌∷◌, String, str_eq, is_some, countb, Bool-cases,
  arith,
}
use llm_gateway.Handler.AdminKeys.{
  key_alphabet, key_body_len, key_accept_ceiling, letter, push_letter, draw_letters, with_mark,
  generate_plaintext_key,
}
use llm_gateway.Middleware.Auth.{is_space, bearer_token}
use llm_gateway.Middleware.Bearer.{is_plain, is_plain-append, append-some_left, bearer_token-bearer}

-- A test that all numbers below a bound pass.
abbrev all_below : ℕ → (ℕ → Bool) → Bool
all_below zero p = true
all_below (suc n) p = p n && all_below n p

all_below-lt : (n : ℕ) (p : ℕ → Bool) (k : ℕ) → all_below n p ≡ true → k < n → p k ≡ true
all_below-lt zero p k h lt = ground (arith, lt)
all_below-lt (suc n) p k h lt = elim (Bool-cases (k == n)) [
  | inl e ↦ ground (arith, h, e)
  | inr e ↦ all_below-lt n p k (ground (arith, h)) (ground (arith, lt, e))
]

-- Every letter is a byte, and is not white space.
is_letter : ℕ → Bool
is_letter i = let c = char_at key_alphabet i in not (is_space (code c)) && (len_utf8 c == 1)

letters-good : all_below 62 is_letter ≡ true
unfolding is_letter
letters-good = refl

-- The bytes below 256 that the loop accepts and makes a letter of the alphabet.
abbrev below : ℕ → List ℕ
below zero = []
below (suc n) = n ∷ below n

unfoldable pub chances : ℕ → ℕ
chances i =
    countb (λ b. ltb b key_accept_ceiling && (code (letter b) == code (char_at key_alphabet i)))
      (below 256)

chances-even : all_below 62 (λ i. chances i == 4) ≡ true
unfolding chances
chances-even = refl

-- A text of letters, as many as were asked for.
abbrev Drawn : ℕ → Option String → Type 0
Drawn n none = Unit
Drawn n (some s) = (is_plain s ≡ true) × (len s ≡ n)

letter-good : (b : ℕ) → is_letter (b % 62) ≡ true
letter-good b = all_below-lt 62 is_letter (b % 62) letters-good (omega arith)

push_letter-Drawn : (b n : ℕ) (o : Option String) → Drawn n o → Drawn (suc n) (push_letter b o)
unfolding is_plain is_letter
push_letter-Drawn b n none h = tt
push_letter-Drawn b n (some s) h =
    let good = letter-good b in
    (ground (arith, good, h.0), len_clauses.cons (letter b) s ∙ ground (arith, good, h.1))

draw_letters-Drawn : (bs : List ℕ) (n : ℕ) → Drawn n (draw_letters bs n)
unfolding draw_letters is_plain
draw_letters-Drawn bs zero = (refl, len_clauses.nil)
draw_letters-Drawn [] (suc n) = tt
draw_letters-Drawn (b ∷ bs) (suc n) = elim (Bool-cases (ltb b key_accept_ceiling)) [
  | inl e ↦ rw e (push_letter-Drawn b n (draw_letters bs n) (draw_letters-Drawn bs n))
  | inr e ↦ rw e (draw_letters-Drawn bs (suc n))
]

push_letter-some : (b : ℕ) (o : Option String) → is_some o ≡ true → is_some (push_letter b o) ≡ true
push_letter-some b none h = ground (arith, h)
push_letter-some b (some s) h = refl

-- Enough accepted bytes draw all letters.
draw_letters-some :
    (bs : List ℕ) (n : ℕ)
    → n ≤ countb (λ b. ltb b key_accept_ceiling) bs
    → is_some (draw_letters bs n) ≡ true
unfolding draw_letters
draw_letters-some bs zero h = refl
draw_letters-some [] (suc n) h = ground (arith, h)
draw_letters-some (b ∷ bs) (suc n) h = elim (Bool-cases (ltb b key_accept_ceiling)) [
  | inl e ↦
      rw e (push_letter-some b (draw_letters bs n) (draw_letters-some bs n (ground (arith, h, e))))
  | inr e ↦ rw e (draw_letters-some bs (suc n) (ground (arith, h, e)))
]

with_mark-some : (o : Option String) → is_some o ≡ true → is_some (with_mark o) ≡ true
with_mark-some none h = ground (arith, h)
with_mark-some (some s) h = refl

-- What holds of a key that is generated: it is marked, has 38 bytes, and is what bearerToken reads
-- of a header that carries it.
abbrev pub IsUsable : String → Type 0
IsUsable key =
    (starts_with key "sk-gw-" ≡ true)
    × (len key ≡ 38)
    × (bearer_token ("Bearer " ++ key) ≡ some key)

marked-IsUsable : (s : String) → Drawn key_body_len (some s) → IsUsable ("sk-gw-" ++ s)
unfolding is_plain str_eq
marked-IsUsable s h = (
  starts_with-append "sk-gw-" s,
  len-append "sk-gw-" s ∙ ap (λ n. 6 + n) h.1,
  bearer_token-bearer ("sk-gw-" ++ s) (is_plain-append "sk-gw-" s refl h.0)
      (append-some_left "sk-gw-" s refl),
)

with_mark-key :
    (o : Option String)
    → Drawn key_body_len o
    → is_some o ≡ true
    → (key : String) × (with_mark o ≡ some key) × IsUsable key
with_mark-key none h e = ground (arith, e)
with_mark-key (some s) h e = ("sk-gw-" ++ s, refl, marked-IsUsable s h)

eq_of : (a b : ℕ) → (a == b) ≡ true → a ≡ b
eq_of a b h = ground arith

-- One byte, one letter or none.
draw-one :
    (b : ℕ)
    → draw_letters (b ∷ []) 1
      ≡ (if ltb b 248 then some (String.◌∷◌ (char_at key_alphabet (b % 62)) "") else none)
unfolding draw_letters
draw-one b = refl

-- As soon as 32 of the random bytes are accepted, a key is generated; it begins with `sk-gw-`, has
-- 38 bytes, and comes back whole from the header `Bearer ` with it. Each letter of the alphabet is
-- drawn out of exactly four of the 256 byte values, and one byte draws one letter or none.
pub generate_plaintext_key_lem :
    (bs : List ℕ) (i b : ℕ)
    → key_body_len ≤ countb (λ b. ltb b key_accept_ceiling) bs
    → i < 62
    → ((key : String) × (generate_plaintext_key bs ≡ some key) × IsUsable key)
      × (chances i ≡ 4)
      × (draw_letters (b ∷ []) 1
          ≡ (if ltb b 248 then some (String.◌∷◌ (char_at key_alphabet (b % 62)) "") else none))
unfolding generate_plaintext_key
generate_plaintext_key_lem bs i b enough lt = (
  with_mark-key (draw_letters bs key_body_len) (draw_letters-Drawn bs key_body_len)
      (draw_letters-some bs key_body_len enough),
  eq_of (chances i) 4 (all_below-lt 62 (λ j. chances j == 4) i chances-even lt),
  draw-one b,
)
