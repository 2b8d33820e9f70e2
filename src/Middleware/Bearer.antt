-- ===== src/Middleware/Bearer.antt =====
-- What bearerToken of internal/middleware/auth.go reads back.
use Prim.Native.Char.{code}
use Prim.Native.String.{◌++◌}
use Prim.Native.String.append
use text.Mathlib.TextLemmas.{cons≢nil}
use llm_gateway.Base.{
  ◌≡◌, refl, ap, sym, ◌∙◌, Bool, true, false, not, ◌&&◌, none, some, inl, inr, String, str_eq,
  str_eq_iff, str_eq_refl, Bool-cases, arith, ◌==◌, if◌then◌else◌,
}
use llm_gateway.Middleware.Auth.{
  is_space, lower, trim_left, trim_right, trim_space, strip_fold, bearer_token,
}

-- A text without white space.
unfoldable pub is_plain : String → Bool
is_plain String.[] = true
is_plain (String.◌∷◌ c s) = let rest = is_plain s in not (is_space (code c)) && rest

pub is_plain-append :
    (p s : String) → is_plain p ≡ true → is_plain s ≡ true → is_plain (p ++ s) ≡ true
unfolding is_plain
is_plain-append String.[] s h k = ap is_plain (append.nil s) ∙ k
is_plain-append (String.◌∷◌ c p) s h k =
    ap is_plain (append.cons c p s) ∙ ground (arith, h, is_plain-append p s (ground (arith, h)) k)

trim_left-plain : (s : String) → is_plain s ≡ true → trim_left s ≡ s
unfolding trim_left is_plain
trim_left-plain String.[] h = refl
trim_left-plain (String.◌∷◌ c s) h = elim (Bool-cases (is_space (code c))) [
  | inl e ↦ ground (arith, h, e)
  | inr e ↦ ap (λ b. if b then trim_left s else String.◌∷◌ c s) e
]

trim_right-plain : (s : String) → is_plain s ≡ true → trim_right s ≡ s
unfolding trim_right is_plain
trim_right-plain String.[] h = refl
trim_right-plain (String.◌∷◌ c s) h = elim (Bool-cases (is_space (code c))) [
  | inl e ↦ ground (arith, h, e)
  | inr e ↦
      ap (λ b. if b && str_eq (trim_right s) "" then "" else String.◌∷◌ c (trim_right s)) e
      ∙ ap (String.◌∷◌ c) (trim_right-plain s (ground (arith, h, e)))
]

cons-some : (c : _) (s : String) → str_eq (String.◌∷◌ c s) "" ≡ false
cons-some c s = elim (Bool-cases (str_eq (String.◌∷◌ c s) "")) [
  | inl e ↦ absurd (cons≢nil ((str_eq_iff (String.◌∷◌ c s) "").0 e))
  | inr e ↦ e
]

pub append-some_left : (p s : String) → str_eq p "" ≡ false → str_eq (p ++ s) "" ≡ false
append-some_left String.[] s h = ground (arith, h, str_eq_refl "")
append-some_left (String.◌∷◌ c p) s h =
    ap (λ t. str_eq t "") (append.cons c p s) ∙ cons-some c (p ++ s)

append-some : (p s : String) → str_eq s "" ≡ false → str_eq (p ++ s) "" ≡ false
append-some String.[] s h = ap (λ t. str_eq t "") (append.nil s) ∙ h
append-some (String.◌∷◌ c p) s h = ap (λ t. str_eq t "") (append.cons c p s) ∙ cons-some c (p ++ s)

and_false : {x : Bool} (b : Bool) → x ≡ false → (b && x) ≡ false
and_false b e = ground (arith, e)

trim_right-append :
    (p s : String) → trim_right s ≡ s → str_eq s "" ≡ false → trim_right (p ++ s) ≡ p ++ s
unfolding trim_right
trim_right-append String.[] s h n = ap trim_right (append.nil s) ∙ (h ∙ sym (append.nil s))
trim_right-append (String.◌∷◌ c p) s h n =
    let ih = trim_right-append p s h n in
    ap trim_right (append.cons c p s)
    ∙ (ap (λ t. if is_space (code c) && str_eq t "" then "" else String.◌∷◌ c t) ih
        ∙ (ap (λ b. if b then "" else String.◌∷◌ c (p ++ s))
              (and_false (is_space (code c)) (append-some p s n))
            ∙ sym (append.cons c p s)))

-- Whether a text is the prefix, up to case.
unfoldable pub folds : String → String → Bool
folds String.[] String.[] = true
folds String.[] (String.◌∷◌ c s) = false
folds (String.◌∷◌ p ps) String.[] = false
folds (String.◌∷◌ p ps) (String.◌∷◌ c s) =
    let rest = folds ps s in if lower (code c) == code p then rest else false

strip_fold-append : (p q s : String) → folds p q ≡ true → strip_fold p (q ++ s) ≡ some s
unfolding strip_fold folds
strip_fold-append String.[] String.[] s h = ap (strip_fold "") (append.nil s)
strip_fold-append String.[] (String.◌∷◌ c q) s h = ground (arith, h)
strip_fold-append (String.◌∷◌ p ps) String.[] s h = ground (arith, h)
strip_fold-append (String.◌∷◌ p ps) (String.◌∷◌ c q) s h =
    ap (strip_fold (String.◌∷◌ p ps)) (append.cons c q s)
    ∙ elim (Bool-cases (lower (code c) == code p)) [
      | inl e ↦
          ap (λ b. if b then strip_fold ps (q ++ s) else none) e
          ∙ strip_fold-append ps q s (ground (arith, h, e))
      | inr e ↦ ground (arith, h, e)
    ]

-- Whether a text begins, and with no white space.
unfoldable pub starts_plain : String → Bool
starts_plain String.[] = false
starts_plain (String.◌∷◌ c s) = not (is_space (code c))

trim_left-append : (p s : String) → starts_plain p ≡ true → trim_left (p ++ s) ≡ p ++ s
unfolding trim_left starts_plain
trim_left-append String.[] s h = ground (arith, h)
trim_left-append (String.◌∷◌ c p) s h =
    let e : is_space (code c) ≡ false = ground (arith, h) in
    ap trim_left (append.cons c p s)
    ∙ (ap (λ b. if b then trim_left (p ++ s) else String.◌∷◌ c (p ++ s)) e
        ∙ sym (append.cons c p s))

trim_space-plain : (s : String) → is_plain s ≡ true → trim_space s ≡ s
trim_space-plain s h = ap trim_right (trim_left-plain s h) ∙ trim_right-plain s h

-- A token without white space, that is not empty, is read back from its header.
pub bearer_token-bearer :
    (token : String)
    → is_plain token ≡ true
    → str_eq token "" ≡ false
    → bearer_token ("Bearer " ++ token) ≡ some token
unfolding bearer_token folds starts_plain
bearer_token-bearer token plain there =
    let trimmed : trim_space ("Bearer " ++ token) ≡ "Bearer " ++ token =
      ap trim_right (trim_left-append "Bearer " token refl)
      ∙ trim_right-append "Bearer " token (trim_right-plain token plain) there in
    rw
      (
        bearer_token,
        trimmed,
        strip_fold-append "bearer " "Bearer " token refl,
        trim_space-plain token plain,
        there,
      )
      refl
