-- ===== src/Provider/Registry.antt =====
-- internal/provider/registry.go. A provider is known by its name and, where it is health-tracked,
-- by the place of its ProviderHealth in the store, which several registry entries share.
pub mod Resolution
pub mod Holders
use Prim.Native.String.{compare}
use llm_gateway.Base.{
  ℕ, Bool, true, false, Option, none, some, List, [], ◌∷◌, map, Dict, lookup, insert, String,
  if◌then◌else◌,
}
use llm_gateway.Provider.Health.{ProviderHealth}

pub record Provider : Type 0 where
  pub name : String
  pub health : Option ℕ

-- HealthFor: nil for a provider that is not health-tracked.
abbrev pub health_for : (ℕ → ProviderHealth) → Provider → Option ProviderHealth
health_for store p = elim p.health [ none ↦ none | some i ↦ some (store i) ]

pub record Registry : Type 0 where
  pub models : Dict Provider
  pub aliases : Dict String

unfoldable pub new_registry : Registry
new_registry = record { models = []; aliases = [] }

unfoldable pub register_all : Provider → List String → Dict Provider → Dict Provider
register_all p [] m = m
register_all p (name ∷ names) m = register_all p names (insert name p m)

unfoldable pub register : Registry → Provider → List String → Registry
unfolding register_all
register r p models = record r { models = register_all p models r.models }

pub data AliasError : Type 0 where
  conflicts : String → AliasError
  unregistered : String → String → AliasError

pub data AliasResult : Type 0 where
  added : Registry → AliasResult
  refused : AliasError → AliasResult

-- The registry behind a registration that may be refused.
abbrev pub or_keep : Registry → AliasResult → Registry
or_keep r (added r') = r'
or_keep r (refused e) = r

unfoldable pub register_alias : Registry → String → String → AliasResult
register_alias r name target = elim (lookup name r.models) [
  | some _ ↦ refused (conflicts name)
  | none ↦ elim (lookup target r.models) [
    | none ↦ refused (unregistered name target)
    | some p ↦
        added (record { models = insert name p r.models; aliases = insert name target r.aliases })
  ]
]

unfoldable pub canonical_model : Registry → String → String
canonical_model r name = elim (lookup name r.aliases) [ some c ↦ c | none ↦ name ]

-- sort.Strings orders by bytes.
abbrev str_le : String → String → Bool
str_le s t = elim (compare s t) [ Prim.Native.Nat.Ordering.gt ↦ false | _ ↦ true ]

module _ {A : Type 0} (key : A → String) where
  insert_on : A → List A → List A
  insert_on a [] = a ∷ []
  insert_on a (b ∷ bs) =
      let rest = insert_on a bs in if str_le (key a) (key b) then a ∷ (b ∷ bs) else b ∷ rest

  -- sort.Strings and sort.Slice, over keys that differ.
  unfoldable pub sort_on : List A → List A
  unfolding insert_on
  sort_on [] = []
  sort_on (a ∷ as') = insert_on a (sort_on as')

unfoldable pub list_models : Registry → List String
list_models r = sort_on (λ s. s) (map (λ e. e.0) r.models)

pub record ModelInfo : Type 0 where
  pub model_name : String
  pub provider_name : String

unfoldable pub list_model_details : Registry → List ModelInfo
list_model_details r =
    sort_on (λ i. i.model_name)
      (map (λ e. record { model_name = e.0; provider_name = e.1.name }) r.models)

-- The error lists the models that there are.
pub data Resolved : Type 0 where
  found : Provider → Resolved
  unknown : List String → Resolved

unfoldable pub resolve : Registry → String → Resolved
resolve r name = elim (lookup name r.models) [ some p ↦ found p | none ↦ unknown (list_models r) ]
