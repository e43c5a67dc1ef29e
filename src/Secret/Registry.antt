-- ===== src/Secret/Registry.antt =====
-- secret/registry.go: named factories of providers. `P` is what they make; a configuration is the factory's
-- own business, `C`. Package unicode is a parameter.
pub mod Laws
use toolops.Base.{
  Bool, true, false, Option, none, some, is_some, List, [], ◌∷◌, map, is_empty, if◌then◌else◌, ◌⊎◌,
  inl, inr,
}
use toolops.Base.Text.{Text}
use toolops.Base.StringMap.{StringMap, lookup, insert}
use toolops.Base.Sort.{sort_strings}
use toolops.Base.Unicode.{Unicode, trim_space}

pub data RegistryErr : Type 0 where
  invalid_registration name_required : RegistryErr
  already_registered not_registered : Text → RegistryErr
  -- The error of a factory.
  factory_failed : Text → RegistryErr

abbrev pub ProviderFactory : Type 0 → Type 0 → Type 0
ProviderFactory C P = C → RegistryErr ⊎ P

pub record Registry (C P : Type 0) : Type 0 where
  pub providers : StringMap (ProviderFactory C P)

module _ {C P : Type 0} where
  unfoldable pub new_registry : Registry C P
  new_registry = record { providers = [] }

  abbrev pub add_new : Text → ProviderFactory C P → Registry C P → Registry C P × Option RegistryErr
  add_new name factory r =
      if is_some (lookup name r.providers)
      then (r, some (already_registered name))
      else (record { providers = insert name factory r.providers }, none)

  unfoldable pub register :
      Unicode
      → Text
      → Option (ProviderFactory C P)
      → Registry C P
      → Registry C P × Option RegistryErr
  unfolding trim_space lookup insert
  register u name none r = (r, some invalid_registration)
  register u name (some factory) r =
      if is_empty (trim_space u name)
      then (r, some invalid_registration)
      else add_new (trim_space u name) factory r

  abbrev pub made : Text → C → Option (ProviderFactory C P) → RegistryErr ⊎ P
  made name cfg none = inl (not_registered name)
  made name cfg (some factory) = factory cfg

  unfoldable pub create : Unicode → Text → C → Registry C P → RegistryErr ⊎ P
  unfolding trim_space lookup
  create u name cfg r =
      if is_empty (trim_space u name)
      then inl name_required
      else made (trim_space u name) cfg (lookup (trim_space u name) r.providers)

  unfoldable pub list : Registry C P → List Text
  unfolding sort_strings
  list r = sort_strings (map (λ (e : Text × ProviderFactory C P). e.0) r.providers)
