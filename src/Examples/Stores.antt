-- ===== src/Examples/Stores.antt =====
-- Sorted sets as one list of entries under their keys, in the order in which they were added; that is
-- the order of their scores where time does not run backwards.
use llm_gateway.Base.{
  suc, ◌≡◌, ◌≢◌, refl, sym, ◌∙◌, ap, inl, inr, Bool, true, false, ◌&&◌, List, [], ◌∷◌, arith, ℤ,
  pos, ltb_ℤ, leb_ℤ, String, str_eq, str_eq_iff, str_eq_refl, countb, Bool-cases, if◌then◌else◌,
}
use llm_gateway.RateLimit.Redis.{Entry, SortedSets, SortedSetLaws}

abbrev pub Sets : Type 0
Sets = List (String × Entry)

unfoldable pub under : String → Sets → List Entry
under k [] = []
under k ((j, e) ∷ s) = let rest = under k s in if str_eq j k then e ∷ rest else rest

unfoldable pub without : String → ℤ → Sets → Sets
without k bound [] = []
without k bound ((j, e) ∷ s) =
    let rest = without k bound s in
    if str_eq j k && leb_ℤ (pos e.score) bound then rest else (j, e) ∷ rest

unfoldable pub with_entry : String → Entry → Sets → Sets
with_entry k e [] = (k, e) ∷ []
with_entry k e (x ∷ s) = x ∷ with_entry k e s

abbrev pub sets : SortedSets Sets
sets = record {
  zrange = λ s k. under k s;
  zremrangebyscore = λ s k bound. without k bound s;
  zadd = λ s k score m. with_entry k (record { score = score; member = m }) s;
  expire = λ s k n. s;
}

under-without :
    (k : String) (bound : ℤ) (p : Entry → Bool) (s : Sets)
    → countb p (under k (without k bound s))
      ≡ countb (λ e. ltb_ℤ bound (pos e.score) && p e) (under k s)
unfolding under without
under-without k bound p [] = refl
under-without k bound p ((j, e) ∷ s) =
    let rest = under-without k bound p s in
    elim (Bool-cases (str_eq j k)) [
      | inr off ↦ rw (off, under, off) rest
      | inl on ↦ elim (Bool-cases (leb_ℤ (pos e.score) bound)) [
        | inl old ↦ rw (on, old) (ground (arith, old, rest))
        | inr young ↦ rw (on, young, under, on) (ground (arith, young, rest))
      ]
    ]

elsewhere : (i k j : String) (x : Bool) → k ≢ j → (str_eq i k && x) ≡ true → str_eq i j ≡ false
elsewhere i k j x ne h = elim (Bool-cases (str_eq i j)) [
  | inr off ↦ off
  | inl on ↦ absurd (ne (sym ((str_eq_iff i k).0 (ground (arith, h))) ∙ (str_eq_iff i j).0 on))
]

with_entry-count :
    (k : String) (e : Entry) (p : Entry → Bool) (s : Sets)
    → countb p (under k (with_entry k e s))
      ≡ (if p e then suc (countb p (under k s)) else countb p (under k s))
unfolding under with_entry
with_entry-count k e p [] = rw (str_eq_refl k) refl
with_entry-count k e p ((j, x) ∷ s) =
    let rest = with_entry-count k e p s in
    elim (Bool-cases (str_eq j k)) [ inl on ↦ rw on (ground (arith, rest)) | inr off ↦ rw off rest ]

with_entry-other :
    (k j : String) (e : Entry) (s : Sets) → k ≢ j → under j (with_entry k e s) ≡ under j s
unfolding under with_entry
with_entry-other k j e [] ne = elim (Bool-cases (str_eq k j)) [
  | inr off ↦ rw off refl
  | inl on ↦ absurd (ne ((str_eq_iff k j).0 on))
]
with_entry-other k j e ((i, x) ∷ s) ne =
    ap (λ t. if str_eq i j then x ∷ t else t) (with_entry-other k j e s ne)

under-other :
    (k j : String) (bound : ℤ) (s : Sets) → k ≢ j → under j (without k bound s) ≡ under j s
unfolding under without
under-other k j bound [] ne = refl
under-other k j bound ((i, e) ∷ s) ne =
    let rest = under-other k j bound s ne in
    elim (Bool-cases (str_eq i k && leb_ℤ (pos e.score) bound)) [
      | inl gone ↦
          ap (λ b. under j (if b then without k bound s else (i, e) ∷ without k bound s)) gone
          ∙ (rest ∙ rw (elsewhere i k j (leb_ℤ (pos e.score) bound) ne gone) refl)
      | inr stays ↦
          ap (λ b. under j (if b then without k bound s else (i, e) ∷ without k bound s)) stays
          ∙ ap (λ t. if str_eq i j then e ∷ t else t) rest
    ]

pub sets-SortedSetLaws : SortedSetLaws sets
sets-SortedSetLaws = record {
  count_removed = λ s k bound p. under-without k bound p s;
  count_added = λ s k score m p new. with_entry-count k _ p s;
  other_removed = λ s k j bound ne. under-other k j bound s ne;
  other_added = λ s k j score m ne. with_entry-other k j _ s ne;
  expire_keeps = λ s k j n _. refl;
  expire_other = λ s k j n _. refl;
}
