-- ===== src/Provider/Registry/Holders.antt =====
-- Which providers a registry holds, as models and aliases are registered.
use mathlib.Core.Path.{subst}
use llm_gateway.Base.{
  ◌≡◌, ◌⊎◌, inl, inr, true, none, some, List, [], ◌∷◌, arith, Dict, lookup, insert, lookup-insert,
  String, str_eq, str_eq_iff, is_some, Bool-cases, sym, ◌∙◌, In,
}
use llm_gateway.Provider.Registry.{
  Provider, Registry, new_registry, register_all, register, or_keep, register_alias,
}
use llm_gateway.Provider.Registry.Resolution.{
  is_some-insert, is_some-register_all, register_alias-added, result_cases,
}

-- Every model's provider has a property.
abbrev pub Holds : (Provider → Type 0) → Registry → Type 0
Holds P r = (model : String) (p : Provider) → lookup model r.models ≡ some p → P p

lookup-insert_cases :
    (k j : String) (p q : Provider) (m : Dict Provider)
    → lookup j (insert k p m) ≡ some q
    → (q ≡ p) ⊎ (lookup j m ≡ some q)
lookup-insert_cases k j p q m e =
    let e' = sym (lookup-insert k j p m) ∙ e in
    elim (Bool-cases (str_eq k j)) [
      | inl same ↦ inl (ground (arith, rw same at e'))
      | inr other ↦ inr (rw other at e')
    ]

is_empty-lookup : (p : Provider) → none ≡ some p → ⊥
is_empty-lookup p e = ground (arith, e)

pub new-Holds : (P : Provider → Type 0) → Holds P new_registry
unfolding new_registry lookup
new-Holds P model p e = absurd (is_empty-lookup p e)

module _ (P : Provider → Type 0) where
  register_all-Holds :
      (p : Provider) (names : List String) (m : Dict Provider)
      → P p
      → ((j : String) (q : Provider) → lookup j m ≡ some q → P q)
      → (j : String) (q : Provider) → lookup j (register_all p names m) ≡ some q
      → P q
  unfolding register_all
  register_all-Holds p [] m good h j q e = h j q e
  register_all-Holds p (n ∷ ns) m good h j q e =
      register_all-Holds p ns (insert n p m) good
        (λ i r e'. elim (lookup-insert_cases n i p r m e') [
          | inl same ↦ subst P (sym same) good
          | inr old ↦ h i r old
        ])
        j q e

  pub register-Holds :
      (r : Registry) (p : Provider) (names : List String)
      → P p
      → Holds P r
      → Holds P (register r p names)
  unfolding register
  register-Holds r p names good h = register_all-Holds p names r.models good h

  pub register_alias-Holds :
      (r : Registry) (name target : String)
      → Holds P r
      → Holds P (or_keep r (register_alias r name target))
  register_alias-Holds r name target h = elim (result_cases (register_alias r name target)) [
    | inr (e, x) ↦ rw x h
    | inl (r', x) ↦
        let (p, free, there, made) = register_alias-added r r' name target x in
        rw (x, made)
          (λ j q e. elim (lookup-insert_cases name j p q r.models e) [
            | inl same ↦ subst P (sym same) (h target p there)
            | inr old ↦ h j q old
          ])
  ]

-- A name that is registered is found, and stays so.
register_all-found :
    (p : Provider) (names : List String) (ms : Dict Provider) (m : String)
    → In m names
    → is_some (lookup m (register_all p names ms)) ≡ true
unfolding register_all
register_all-found p [] ms m there = absurd there
register_all-found p (n ∷ ns) ms m (inr there) = register_all-found p ns (insert n p ms) m there
register_all-found p (n ∷ ns) ms m (inl same) =
    is_some-register_all p ns (insert n p ms) m
      (rw (lookup-insert n m p ms) (ground (arith, same, str_eq_iff n m)))

pub register-found :
    (r : Registry) (p : Provider) (names : List String) (m : String)
    → In m names
    → is_some (lookup m (register r p names).models) ≡ true
unfolding register
register-found r p names m there = register_all-found p names r.models m there

pub register-keeps :
    (r : Registry) (p : Provider) (names : List String) (m : String)
    → is_some (lookup m r.models) ≡ true
    → is_some (lookup m (register r p names).models) ≡ true
unfolding register
register-keeps r p names m h = is_some-register_all p names r.models m h

pub register_alias-keeps :
    (r : Registry) (name target : String) (m : String)
    → is_some (lookup m r.models) ≡ true
    → is_some (lookup m (or_keep r (register_alias r name target)).models) ≡ true
register_alias-keeps r name target m h = elim (result_cases (register_alias r name target)) [
  | inr (e, x) ↦ rw x h
  | inl (r', x) ↦
      let (p, free, there, made) = register_alias-added r r' name target x in
      rw (x, made) (is_some-insert name m p r.models h)
]
