-- ===== src/Secret/Registry/Laws.antt =====
-- What a registration does to the creation of providers.
use toolops.Base.{
  ◌≡◌, refl, ap, ◌∙◌, Bool, true, ◌||◌, Option, none, some, is_some, is_empty, if◌then◌else◌, inl,
  arith,
}
use toolops.Base.Text.{Text, ◌=ᵗ◌}
use toolops.Base.StringMap.{lookup, lookup-insert}
use toolops.Base.Unicode.{Unicode, trim_space}
use toolops.Secret.Registry.{RegistryErr, ProviderFactory, Registry, made, register, create}

module _ {C P : Type 0} where
  -- A registration is refused exactly when the trimmed name is empty, the factory is nil or the trimmed name
  -- is taken.
  abbrev pub refused : Unicode → Text → Option (ProviderFactory C P) → Registry C P → Bool
  refused u name none r = true
  refused u name (some f) r =
      is_empty (trim_space u name) || is_some (lookup (trim_space u name) r.providers)

  lookup-register :
      (u : Unicode) (name n : Text) (f : Option (ProviderFactory C P)) (r : Registry C P)
      → lookup n (register u name f r).0.providers ≡ (
          if refused u name f r
          then lookup n r.providers
          else if trim_space u name =ᵗ n
          then f
          else lookup n r.providers)
  unfolding register
  lookup-register u name n none r = refl
  lookup-register u name n (some f) r =
      ground (arith, lookup-insert (trim_space u name) n f r.providers)

  register_err :
      (u : Unicode) (name : Text) (f : Option (ProviderFactory C P)) (r : Registry C P)
      → is_some (register u name f r).1 ≡ refused u name f r
  unfolding register
  register_err u name none r = refl
  register_err u name (some f) r = ground arith

  branches :
      (u : Unicode) (name n : Text) (cfg : C) (b e : Bool) (f : Option (ProviderFactory C P))
      (r : Registry C P)
      → (if e
          then inl RegistryErr.name_required
          else made n cfg
              (if b then lookup n r.providers else if name =ᵗ n then f else lookup n r.providers))
        ≡ (if b
            then (if e then inl RegistryErr.name_required else made n cfg (lookup n r.providers))
            else if name =ᵗ n
            then (if e then inl RegistryErr.name_required else made n cfg f)
            else (if e then inl RegistryErr.name_required else made n cfg (lookup n r.providers)))
  branches u name n cfg b e f r = ground arith

  -- Register fails exactly when the trimmed name is empty, the factory is nil or the trimmed name is taken,
  -- and changes nothing then. Otherwise Create, of any spelling that trims to the same name, runs the new
  -- factory, and is as before for every other name.
  pub create-register :
      (u : Unicode) (name n : Text) (f : Option (ProviderFactory C P)) (cfg : C) (r : Registry C P)
      → (is_some (register u name f r).1 ≡ refused u name f r)
        × (create u n cfg (register u name f r).0 ≡ (
            if refused u name f r
            then create u n cfg r
            else if trim_space u name =ᵗ trim_space u n
            then (if is_empty (trim_space u n)
                then inl RegistryErr.name_required
                else made (trim_space u n) cfg f)
            else create u n cfg r))
  unfolding create
  create-register u name n f cfg r = (
    register_err u name f r,
    ap
          (λ found.
            if is_empty (trim_space u n)
            then inl RegistryErr.name_required
            else made (trim_space u n) cfg found)
          (lookup-register u name (trim_space u n) f r)
        ∙ branches u (trim_space u name) (trim_space u n) cfg (refused u name f r)
            (is_empty (trim_space u n)) f r,
  )
