-- ===== src/Auth/Registry/Laws.antt =====
-- What a registration does to the registry, and what the lists hold.
use toolops.Base.{
  ◌≡◌, refl, ap, ◌∙◌, Bool, true, ◌||◌, Option, none, some, is_some, List, [], ◌∷◌, map,
  Option-cases, inl, inr, arith, if◌then◌else◌, ◌⊎◌,
}
use toolops.Base.Text.{Text, ◌=ᵗ◌, member}
use toolops.Base.StringMap.{StringMap, lookup, lookup-insert}
use toolops.Base.Sort.{IsSorted, sort_strings-IsSorted, member-sort_strings}
use toolops.Auth.Claims.{Claims}
use toolops.Auth.Registry.{
  RegistryErr, Factory, Registry, register, create, list, register_authenticator,
  create_authenticator, create_authorizer, list_authenticators,
}

module _ {A : Type 0} where
  -- A registration is refused exactly when the name is empty, the factory is nil or the name is taken.
  abbrev pub refused : Text → Option (Factory A) → StringMap (Factory A) → Bool
  refused name none fs = true
  refused name (some f) fs = name =ᵗ [] || is_some (lookup name fs)

  lookup-register :
      (name n : Text) (f : Option (Factory A)) (fs : StringMap (Factory A))
      → lookup n (register name f fs).0
        ≡ (if refused name f fs then lookup n fs else if name =ᵗ n then f else lookup n fs)
  unfolding register
  lookup-register name n none fs = refl
  lookup-register name n (some f) fs = ground (arith, lookup-insert name n f fs)

  register_err :
      (name : Text) (f : Option (Factory A)) (fs : StringMap (Factory A))
      → is_some (register name f fs).1 ≡ refused name f fs
  unfolding register
  register_err name none fs = refl
  register_err name (some f) fs = ground arith

  abbrev pub create_found : Text → Claims → Option (Factory A) → RegistryErr ⊎ A
  create_found name cfg none = inl (RegistryErr.not_found name)
  create_found name cfg (some f) = f cfg

  create-lookup :
      (name : Text) (cfg : Claims) (fs : StringMap (Factory A))
      → create name cfg fs ≡ create_found name cfg (lookup name fs)
  unfolding create
  create-lookup name cfg fs = elim (Option-cases (lookup name fs)) [
    | inl missing ↦ ground (arith, missing)
    | inr (f, found) ↦ ground (arith, found)
  ]

found_branches :
    {A : Type 0} (name n : Text) (cfg : Claims) (b : Bool) (f : Option (Factory A))
    (fs : StringMap (Factory A))
    → create_found n cfg (if b then lookup n fs else if name =ᵗ n then f else lookup n fs)
      ≡ (if b then create n cfg fs else if name =ᵗ n then create_found n cfg f else create n cfg fs)
found_branches name n cfg b f fs = ground (arith, create-lookup n cfg fs)

-- RegisterAuthenticator fails exactly when the name is empty, the factory is nil or the name is taken, and
-- changes nothing then; otherwise it adds the factory under the name. No other name and no authorizer is
-- affected.
pub create-register_authenticator :
    {A Z : Type 0} (name n : Text) (f : Option (Factory A)) (cfg : Claims) (r : Registry A Z)
    → (is_some (register_authenticator name f r).1 ≡ refused name f r.authenticators)
      × (create_authenticator n cfg (register_authenticator name f r).0 ≡ (
          if refused name f r.authenticators
          then create_authenticator n cfg r
          else if name =ᵗ n
          then create_found n cfg f
          else create_authenticator n cfg r))
      × (create_authorizer n cfg (register_authenticator name f r).0 ≡ create_authorizer n cfg r)
unfolding register_authenticator create_authenticator create_authorizer
create-register_authenticator name n f cfg r = (
  register_err name f r.authenticators,
  create-lookup n cfg (register name f r.authenticators).0
      ∙ ap (create_found n cfg) (lookup-register name n f r.authenticators)
      ∙ found_branches name n cfg (refused name f r.authenticators) f r.authenticators,
  refl,
)

member-names :
    {A : Type 0} (n : Text) (fs : StringMap (Factory A))
    → member n (map (λ (e : Text × Factory A). e.0) fs) ≡ is_some (lookup n fs)
unfolding member lookup
member-names n [] = refl
member-names n ((k, f) ∷ fs) = ground (arith, member-names n fs)

-- ListAuthenticators is in the order of strings, and has exactly the names that are registered.
pub list_authenticators_lem :
    {A Z : Type 0} (r : Registry A Z)
    → IsSorted (list_authenticators r)
      × ((n : Text) → member n (list_authenticators r) ≡ is_some (lookup n r.authenticators))
unfolding list_authenticators list
list_authenticators_lem {A} r =
    let names : List Text = map (λ (e : Text × Factory A). e.0) r.authenticators in
    (
      sort_strings-IsSorted names,
      λ n. member-sort_strings n names ∙ member-names n r.authenticators,
    )
