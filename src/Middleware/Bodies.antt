-- ===== src/Middleware/Bodies.antt =====
-- internal/middleware/debug_bodies.go: the logging of request bodies, and the body that is left for
-- the handler.
use llm_gateway.Base.{
  ℕ, zero, suc, ◌^◌, ◌≤◌, ◌≡◌, refl, ap, ap₂, sym, ◌∙◌, ◌⊎◌, inl, inr, Bool, true, false, Option,
  none, some, List, [], ◌∷◌, ◌++◌, length, ℤ, pos, pos_part, leb_ℤ, leb, if◌then◌else◌, Bool-cases,
  arith,
}
use llm_gateway.Model.Errors.{Error}

-- An error that a body's Read returns: io.ErrUnexpectedEOF, as net/http does of a body that is cut
-- off, or another.
pub data ReadError : Type 0 where
  unexpected_eof : ReadError
  other_failure : Error → ReadError

-- A body that is read: its bytes, and the error behind them where it does not end.
pub record Body : Type 0 where
  pub bytes : List ℕ
  pub failure : Option ReadError

abbrev pub take : {A : Type 0} → ℕ → List A → List A
take zero xs = []
take (suc n) [] = []
take (suc n) (x ∷ xs) = x ∷ take n xs

abbrev drop : {A : Type 0} → ℕ → List A → List A
drop zero xs = xs
drop (suc n) [] = []
drop (suc n) (x ∷ xs) = drop n xs

-- io.ReadFull into a buffer of a size: it fills the buffer, returns io.EOF or io.ErrUnexpectedEOF,
-- or fails otherwise. It returns io.ErrUnexpectedEOF of its own where the body ends, and passes on
-- the body's.
pub data ReadEnd : Type 0 where
  filled at_eof : ReadEnd
  read_failed : Error → ReadEnd

abbrev end_of : Bool → Option ReadError → ReadEnd
end_of true failure = filled
end_of false none = at_eof
end_of false (some unexpected_eof) = at_eof
end_of false (some (other_failure e)) = read_failed e

unfoldable pub read_full : ℕ → Body → ReadEnd
read_full n b = end_of (leb n (length b.bytes)) b.failure

pub data LogLine : Type 0 where
  http_body : (logged : List ℕ) (truncated : Bool) → LogLine
  read_failure : Error → LogLine

pub record Observed : Type 0 where
  pub body : Option Body
  pub lines : List LogLine

abbrev pub default_debug_body_limit : ℕ
default_debug_body_limit = 2 ^ 20

abbrev pub capture_limit : ℤ → ℕ
capture_limit limit = if leb_ℤ limit (pos 0) then default_debug_body_limit else pos_part limit

-- What follows the read: the whole buffer and what is left of the body, the whole body, or nothing.
unfoldable pub on_read : ℕ → Body → ReadEnd → Observed
on_read limit b filled = record {
  body = some (record {
    bytes = take (suc limit) b.bytes ++ drop (suc limit) b.bytes;
    failure = b.failure;
  });
  lines = http_body (take limit (take (suc limit) b.bytes)) true ∷ [];
}
on_read limit b at_eof = record {
  body = some (record { bytes = b.bytes; failure = none });
  lines = http_body b.bytes false ∷ [];
}
on_read limit b (read_failed e) = record {
  body = some (record { bytes = []; failure = none });
  lines = read_failure e ∷ [];
}

-- `enabled` tells whether the logger emits DEBUG; a request without a body has none.
unfoldable pub debug_request_bodies : ℤ → Bool → Option Body → Observed
unfolding read_full on_read
debug_request_bodies limit enabled none = record { body = none; lines = [] }
debug_request_bodies limit false (some b) = record { body = some b; lines = [] }
debug_request_bodies limit true (some b) =
    let n = capture_limit limit in on_read n b (read_full (suc n) b)

take-drop : {A : Type 0} (n : ℕ) (xs : List A) → take n xs ++ drop n xs ≡ xs
take-drop zero xs = refl
take-drop (suc n) [] = refl
take-drop (suc n) (x ∷ xs) = ap (◌∷◌ x) (take-drop n xs)

take-take : {A : Type 0} (n : ℕ) (xs : List A) → take n (take (suc n) xs) ≡ take n xs
take-take zero xs = refl
take-take (suc n) [] = refl
take-take (suc n) (x ∷ xs) = ap (◌∷◌ x) (take-take n xs)

take-all : {A : Type 0} (n : ℕ) (xs : List A) → length xs ≤ n → take n xs ≡ xs
take-all zero [] h = refl
take-all zero (x ∷ xs) h = ground (arith, h)
take-all (suc n) [] h = refl
take-all (suc n) (x ∷ xs) h = ap (◌∷◌ x) (take-all n xs (omega arith))

-- The body can be read to the end, or further than the limit.
abbrev IsReadable : ℕ → Body → Type 0
IsReadable n b = (b.failure ≡ none) ⊎ (suc n ≤ length b.bytes)

-- The line that a body gives.
abbrev pub line_of : ℕ → Body → LogLine
line_of n b = http_body (take n b.bytes) (leb (suc n) (length b.bytes))

on_read-filled :
    (n : ℕ) (b : Body)
    → leb (suc n) (length b.bytes) ≡ true
    → on_read n b filled ≡ record { body = some b; lines = line_of n b ∷ [] }
unfolding on_read
on_read-filled n b long =
    ap₂
      (λ xs l. record { body = some (record { bytes = xs; failure = b.failure }); lines = l ∷ [] })
      (take-drop (suc n) b.bytes) (ap₂ http_body (take-take n b.bytes) (sym long))

on_read-whole :
    (n : ℕ) (b : Body)
    → leb (suc n) (length b.bytes) ≡ false
    → b.failure ≡ none
    → on_read n b at_eof ≡ record { body = some b; lines = line_of n b ∷ [] }
unfolding on_read
on_read-whole n b short ends =
    ap₂ (λ o l. record { body = some (record { bytes = b.bytes; failure = o }); lines = l ∷ [] })
      (sym ends) (ap₂ http_body (sym (take-all n b.bytes (ground (arith, short)))) (sym short))

on_read-readable :
    (n : ℕ) (b : Body)
    → IsReadable n b
    → on_read n b (read_full (suc n) b) ≡ record { body = some b; lines = line_of n b ∷ [] }
unfolding read_full
on_read-readable n b r = elim (Bool-cases (leb (suc n) (length b.bytes))) [
  | inl long ↦ ap (λ x. on_read n b (end_of x b.failure)) long ∙ on_read-filled n b long
  | inr short ↦
      let ends : b.failure ≡ none = elim r [ inl e ↦ e | inr h ↦ absurd (not_both n b short h) ] in
      ap₂ (λ x o. on_read n b (end_of x o)) short ends ∙ on_read-whole n b short ends
]
  where
    not_both :
        (n : ℕ) (b : Body) → leb (suc n) (length b.bytes) ≡ false → suc n ≤ length b.bytes → ⊥
    not_both n b short h = ground (arith, short, h)

-- What is left for the handler, and what is logged, by whether the bytes stay within the limit.
abbrev pub expected_as : Bool → Option ReadError → ℕ → Body → Observed
expected_as true (some unexpected_eof) n b = record {
  body = some (record { bytes = b.bytes; failure = none });
  lines = http_body b.bytes false ∷ [];
}
expected_as true (some (other_failure e)) n b = record {
  body = some (record { bytes = []; failure = none });
  lines = read_failure e ∷ [];
}
expected_as true none n b = record { body = some b; lines = line_of n b ∷ [] }
expected_as false failure n b = record { body = some b; lines = line_of n b ∷ [] }

abbrev pub expected : ℕ → Body → Observed
expected n b = expected_as (leb (length b.bytes) n) b.failure n b

on_read-short :
    (n : ℕ) (b : Body) (failure : Option ReadError)
    → b.failure ≡ failure
    → leb (suc n) (length b.bytes) ≡ false
    → on_read n b (read_full (suc n) b) ≡ expected_as true failure n b
unfolding read_full on_read
on_read-short n b none e short = on_read-readable n b (inl e)
on_read-short n b (some unexpected_eof) e short = ap₂ (λ x o. on_read n b (end_of x o)) short e
on_read-short n b (some (other_failure x)) e short = ap₂ (λ y o. on_read n b (end_of y o)) short e

on_read-expected : (n : ℕ) (b : Body) → on_read n b (read_full (suc n) b) ≡ expected n b
on_read-expected n b = elim (Bool-cases (leb (length b.bytes) n)) [
  | inl short ↦
      on_read-short n b b.failure refl (ground (arith, short))
      ∙ sym (ap (λ x. expected_as x b.failure n b) short)
  | inr long ↦
      on_read-readable n b (inr (ground (arith, long)))
      ∙ sym (ap (λ x. expected_as x b.failure n b) long)
]

-- Whatever the limit: a handler gets the body that was sent, byte by byte, where it is not logged,
-- and where it can be read to its end or further than the limit; what is logged is then at most the
-- limit's bytes of it, with a flag that tells whether there are more. A logged body that is cut
-- off within the limit is logged and left as if it ended there, and one whose read fails otherwise
-- within the limit is left as an empty one; both without an error.
pub debug_request_bodies_lem :
    (limit : ℤ) (enabled : Bool) (b : Body)
    → debug_request_bodies limit enabled (some b)
      ≡ (if enabled then expected (capture_limit limit) b else record { body = some b; lines = [] })
unfolding debug_request_bodies
debug_request_bodies_lem limit false b = refl
debug_request_bodies_lem limit true b = on_read-expected (capture_limit limit) b
