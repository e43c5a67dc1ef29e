-- ===== src/Auth/Registry.antt =====
-- auth/factory.go, the registry: named factories of authenticators and of authorizers. `A` and `Z` are
-- what the factories make.
pub mod Laws
use toolops.Base.{
  Bool, true, false, ◌||◌, Option, none, some, is_some, List, [], ◌∷◌, map, if◌then◌else◌, ◌⊎◌, inl,
  inr,
}
use toolops.Base.Text.{Text, ◌=ᵗ◌}
use toolops.Base.StringMap.{StringMap, lookup, insert}
use toolops.Base.Sort.{sort_strings}
use toolops.Auth.Claims.{Claims}

pub data RegistryErr : Type 0 where
  invalid_registration : RegistryErr
  already_registered : Text → RegistryErr
  not_found : Text → RegistryErr
  -- The error of a factory.
  factory_failed : RegistryErr

abbrev pub Factory : Type 0 → Type 0
Factory A = Claims → RegistryErr ⊎ A

-- A map of factories. The methods for authenticators and for authorizers do the same to theirs; a nil
-- factory is `none`.
module _ {A : Type 0} where
  abbrev pub add_new :
      Text → Factory A → StringMap (Factory A) → StringMap (Factory A) × Option RegistryErr
  add_new name factory factories =
      if is_some (lookup name factories)
      then (factories, some (already_registered name))
      else (insert name factory factories, none)

  unfoldable pub register :
      Text → Option (Factory A) → StringMap (Factory A) → StringMap (Factory A) × Option RegistryErr
  unfolding lookup insert
  register name none factories = (factories, some invalid_registration)
  register name (some factory) factories =
      if name =ᵗ [] then (factories, some invalid_registration) else add_new name factory factories

  unfoldable pub create : Text → Claims → StringMap (Factory A) → RegistryErr ⊎ A
  unfolding lookup
  create name cfg factories = elim (lookup name factories) [
    | none ↦ inl (not_found name)
    | some factory ↦ factory cfg
  ]

  unfoldable pub list : StringMap (Factory A) → List Text
  unfolding sort_strings
  list factories = sort_strings (map (λ (e : Text × Factory A). e.0) factories)

pub record Registry (A Z : Type 0) : Type 0 where
  pub authenticators : StringMap (Factory A)
  pub authorizers : StringMap (Factory Z)

module _ {A Z : Type 0} where
  unfoldable pub new_registry : Registry A Z
  new_registry = record { authenticators = []; authorizers = [] }

  unfoldable pub register_authenticator :
      Text → Option (Factory A) → Registry A Z → Registry A Z × Option RegistryErr
  unfolding register
  register_authenticator name factory r =
      let (fs, err) = register name factory r.authenticators in
      (record r { authenticators = fs }, err)

  unfoldable pub register_authorizer :
      Text → Option (Factory Z) → Registry A Z → Registry A Z × Option RegistryErr
  unfolding register
  register_authorizer name factory r =
      let (fs, err) = register name factory r.authorizers in (record r { authorizers = fs }, err)

  unfoldable pub create_authenticator : Text → Claims → Registry A Z → RegistryErr ⊎ A
  unfolding create
  create_authenticator name cfg r = create name cfg r.authenticators

  unfoldable pub create_authorizer : Text → Claims → Registry A Z → RegistryErr ⊎ Z
  unfolding create
  create_authorizer name cfg r = create name cfg r.authorizers

  unfoldable pub list_authenticators : Registry A Z → List Text
  unfolding list
  list_authenticators r = list r.authenticators

  unfoldable pub list_authorizers : Registry A Z → List Text
  unfolding list
  list_authorizers r = list r.authorizers
