-- ===== src/Provider/Adapters/Text.antt =====
-- strings.CutPrefix, HasPrefix and TrimPrefix, as the adapters use them on the lines of a stream.
use Prim.Native.Char.{code}
use Prim.Native.String.{◌++◌}
use Prim.Native.String.append
use text.Mathlib.TextEquality.{Char-path}
use llm_gateway.Base.{
  ℕ, sym, ap₂, inl, inr, Bool-cases, ◌≡◌, ap, ◌∙◌, Bool, true, false, Option, none, some, String,
  arith, ◌==◌, if◌then◌else◌,
}

-- The text behind a prefix; none where the text does not begin with it.
unfoldable pub cut_prefix : String → String → Option String
cut_prefix String.[] s = some s
cut_prefix (String.◌∷◌ p ps) String.[] = none
cut_prefix (String.◌∷◌ p ps) (String.◌∷◌ c s) =
    let rest = cut_prefix ps s in if code c == code p then rest else none

-- Whether two texts differ at a character that both have.
unfoldable pub differ : String → String → Bool
differ String.[] t = false
differ (String.◌∷◌ p ps) String.[] = false
differ (String.◌∷◌ p ps) (String.◌∷◌ c s) =
    let rest = differ ps s in if code c == code p then rest else true

pub cut_prefix-append : (p s : String) → cut_prefix p (p ++ s) ≡ some s
unfolding cut_prefix
cut_prefix-append String.[] s = ap (cut_prefix "") (append.nil s)
cut_prefix-append (String.◌∷◌ c p) s =
    ap (cut_prefix (String.◌∷◌ c p)) (append.cons c p s) ∙ ground (arith, cut_prefix-append p s)

pub cut_prefix-differ : (p q s : String) → differ p q ≡ true → cut_prefix p (q ++ s) ≡ none
unfolding cut_prefix differ
cut_prefix-differ String.[] q s h = ground arith
cut_prefix-differ (String.◌∷◌ p ps) String.[] s h = ground arith
cut_prefix-differ (String.◌∷◌ p ps) (String.◌∷◌ c q) s h =
    ap (cut_prefix (String.◌∷◌ p ps)) (append.cons c q s) ∙ ground (arith, cut_prefix-differ ps q s)

-- What is cut off and the rest make up the text.
pub cut_prefix-some : (p s t : String) → cut_prefix p s ≡ some t → s ≡ p ++ t
unfolding cut_prefix
cut_prefix-some String.[] s t h = some_same s t h ∙ sym (append.nil t)
  where
    some_same : (s t : String) → some s ≡ some t → s ≡ t
    some_same s t h = ground (arith, h)
cut_prefix-some (String.◌∷◌ p ps) String.[] t h = ground (arith, h)
cut_prefix-some (String.◌∷◌ p ps) (String.◌∷◌ c s) t h = elim (Bool-cases (code c == code p)) [
  | inl same ↦
      let tail =
        cut_prefix-some ps s t (sym (ap (λ b. if b then cut_prefix ps s else none) same) ∙ h) in
      ap₂ String.◌∷◌ (Char-path c p (same_number (code c) (code p) same)) tail
      ∙ sym (append.cons p ps t)
  | inr other ↦ ground (arith, sym (ap (λ b. if b then cut_prefix ps s else none) other) ∙ h)
]
  where
    same_number : (m n : ℕ) → (m == n) ≡ true → m ≡ n
    same_number m n h = ground (arith, h)
