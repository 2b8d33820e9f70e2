-- ===== src/Provider/Registry/Resolution.antt =====
-- What names resolve to as models and aliases are registered.
use llm_gateway.Base.{
  ◌≡◌, refl, ◌≢◌, ◌↔◌, ◌⊎◌, inl, inr, true, none, some, List, [], ◌∷◌, arith, Dict, lookup, insert,
  lookup-insert, String, str_eq, str_eq_iff, str_eq_refl, is_some, Option-cases, Bool-cases, sym,
  ap, ◌∙◌,
}
use llm_gateway.Provider.Registry.{
  Provider, Registry, new_registry, or_keep, register_all, register, AliasResult, added, refused,
  AliasError, register_alias, canonical_model, resolve,
}

-- The registrations that a program can make, the latest first.
pub data Registration : Type 0 where
  models : Provider → List String → Registration
  alias : String → String → Registration

pub registered : List Registration → Registry
registered [] = new_registry
registered (models p names ∷ rs) = register (registered rs) p names
registered (alias name target ∷ rs) =
    or_keep (registered rs) (register_alias (registered rs) name target)

-- Every alias is also a model name, and so is its target.
abbrev pub IsClosed : Registry → Type 0
IsClosed r =
    (name target : String)
    → lookup name r.aliases ≡ some target
    → (is_some (lookup name r.models) ≡ true) × (is_some (lookup target r.models) ≡ true)

pub is_some-insert :
    (k j : String) (p : Provider) (m : Dict Provider)
    → is_some (lookup j m) ≡ true
    → is_some (lookup j (insert k p m)) ≡ true
is_some-insert k j p m h = rw (lookup-insert k j p m) (ground arith)

pub is_some-register_all :
    (p : Provider) (names : List String) (m : Dict Provider) (j : String)
    → is_some (lookup j m) ≡ true
    → is_some (lookup j (register_all p names m)) ≡ true
unfolding register_all
is_some-register_all p [] m j h = h
is_some-register_all p (n ∷ ns) m j h =
    is_some-register_all p ns (insert n p m) j (is_some-insert n j p m h)

pub register-IsClosed :
    (r : Registry) (p : Provider) (names : List String) → IsClosed r → IsClosed (register r p names)
unfolding register
register-IsClosed r p names c name target e = (
  is_some-register_all p names r.models name (c name target e).0,
  is_some-register_all p names r.models target (c name target e).1,
)

pub register_alias-added :
    (r r' : Registry) (name target : String)
    → register_alias r name target ≡ added r'
    → (p : Provider) × (lookup name r.models ≡ none)
      × (lookup target r.models ≡ some p)
      × (r' ≡ record { models = insert name p r.models; aliases = insert name target r.aliases })
unfolding register_alias
register_alias-added r r' name target e = elim (Option-cases (lookup target r.models)) [
  | inl missing ↦ ground arith
  | inr (p, there) ↦ (p, ground arith, there, ground arith)
]

pub result_cases :
    (x : AliasResult) → ((r : Registry) × (x ≡ added r)) ⊎ ((e : AliasError) × (x ≡ refused e))
result_cases (added r) = inl (r, refl)
result_cases (refused e) = inr (e, refl)

insert-IsClosed :
    (r : Registry) (name target : String) (p : Provider)
    → lookup target r.models ≡ some p
    → IsClosed r
    → IsClosed (record { models = insert name p r.models; aliases = insert name target r.aliases })
insert-IsClosed r name target p there c n t e =
    let e' = sym (lookup-insert name n target r.aliases) ∙ e in
    elim (Bool-cases (str_eq name n)) [
      | inl same ↦ (
        rw (lookup-insert name n p r.models) (ground arith),
        is_some-insert name t p r.models (ground arith),
      )
      | inr other ↦
          let old : lookup n r.aliases ≡ some t = ground arith in
          (
            is_some-insert name n p r.models (c n t old).0,
            is_some-insert name t p r.models (c n t old).1,
          )
    ]

pub register_alias-IsClosed :
    (r : Registry) (name target : String)
    → IsClosed r
    → IsClosed (or_keep r (register_alias r name target))
register_alias-IsClosed r name target c = elim (result_cases (register_alias r name target)) [
  | inr (e, x) ↦ rw x c
  | inl (r', x) ↦
      let (p, free, there, made) = register_alias-added r r' name target x in
      rw (x, made) (insert-IsClosed r name target p there c)
]

pub new-IsClosed : IsClosed new_registry
unfolding new_registry lookup
new-IsClosed name target e = cc

-- After any registrations of models and aliases, whichever of them were refused, each alias and
-- the target that its canonical name gives resolve to a provider.
pub registered-IsClosed : (rs : List Registration) → IsClosed (registered rs)
unfolding registered
registered-IsClosed [] = new-IsClosed
registered-IsClosed (models p names ∷ rs) =
    register-IsClosed (registered rs) p names (registered-IsClosed rs)
registered-IsClosed (alias name target ∷ rs) =
    register_alias-IsClosed (registered rs) name target (registered-IsClosed rs)

-- An alias is added exactly when its name is not yet a model and its target is one.
pub register_alias_lem :
    (r : Registry) (name target : String)
    → ((r' : Registry) × (register_alias r name target ≡ added r'))
      ↔ ((lookup name r.models ≡ none) × (lookup target r.models ≢ none))
unfolding register_alias
register_alias_lem r name target = (
  λ x. let (p, free, there, made) = register_alias-added r x.0 name target x.1 in (free, λ z. cc),
  λ x. elim (Option-cases (lookup target r.models)) [
    | inl missing ↦ absurd (x.1 missing)
    | inr (p, there) ↦ (
      record { models = insert name p r.models; aliases = insert name target r.aliases },
      ground arith,
    )
  ],
)

pub register_alias-added_effect :
    (r r' : Registry) (name target other : String)
    → register_alias r name target ≡ added r'
    → other ≢ name
    → (resolve r' name ≡ resolve r target)
      × (canonical_model r' name ≡ target)
      × (lookup other r'.models ≡ lookup other r.models)
      × (canonical_model r' other ≡ canonical_model r other)
unfolding resolve canonical_model
register_alias-added_effect r r' name target other e ne =
    let (p, free, there, made) = register_alias-added r r' name target e in
    rw made (
      ground (
        arith,
        there,
        str_eq_refl name,
        str_eq_iff name other,
        lookup-insert name name p r.models,
        lookup-insert name other p r.models,
        lookup-insert name name target r.aliases,
        lookup-insert name other target r.aliases,
      ))

-- An alias that was added on top of another alias, that is of a name with a different canonical
-- name, has no final canonical name: the canonical name of its canonical name is a different one.
pub alias_chain :
    (r r' : Registry) (name mid target : String)
    → canonical_model r mid ≡ target
    → target ≢ mid
    → register_alias r name mid ≡ added r'
    → name ≢ mid
    → canonical_model r' (canonical_model r' name) ≢ canonical_model r' name
alias_chain r r' name mid target c ne e d x =
    let t = register_alias-added_effect r r' name mid mid e (λ y. d (sym y)) in
    ne (sym c ∙ sym t.3 ∙ ap (canonical_model r') (sym t.1) ∙ x ∙ t.1)
