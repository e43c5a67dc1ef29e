-- ===== src/Secret/Resolver.antt =====
-- secret/resolver.go and secret/provider.go: resolving the references in configuration values. `W` is the
-- world that the providers read and change; package unicode is a parameter.
pub mod Literal
use toolops.Base.{
  ℕ, Bool, true, false, ◌&&◌, Option, none, some, List, [], ◌∷◌, ◌++◌, if◌then◌else◌, is_empty, ◌⊎◌,
  inl, inr,
}
use toolops.Base.Text.{Text}
use toolops.Base.StringMap.{StringMap, lookup, insert}
use toolops.Base.Unicode.{Unicode, trim_space}
use toolops.Secret.ExpandEnv.{expand_env_strict}
use toolops.Secret.Ref.{Piece, byte, reference, parse_secret_ref, pieces_of, pieces_from}

pub data ResolveErr : Type 0 where
  missing_variables : List Text → ResolveErr
  provider_name_required ref_required : ResolveErr
  not_registered empty_value : Text → ResolveErr
  -- The error of a provider.
  provider_failed : Text → ResolveErr
  -- The error of the value under a key of a map.
  resolve_key : Text → ResolveErr → ResolveErr

-- The interface Provider.
pub record Provider (W : Type 0) : Type 0 where
  pub name : Text
  pub resolve : Text → W → (Text ⊎ Text) × W

pub record Resolver (W : Type 0) : Type 0 where
  pub providers : StringMap (Provider W)
  pub strict : Bool

module _ {W : Type 0} where
  abbrev add_provider : Option (Provider W) → StringMap (Provider W) → StringMap (Provider W)
  add_provider none providers = providers
  add_provider (some p) providers = insert p.name p providers

  -- The loop over the providers; nil is passed over.
  unfoldable pub add_providers :
      List (Option (Provider W)) → StringMap (Provider W) → StringMap (Provider W)
  unfolding insert
  add_providers [] providers = providers
  add_providers (p ∷ ps) providers = add_providers ps (add_provider p providers)

  unfoldable pub new_resolver : Bool → List (Option (Provider W)) → Resolver W
  unfolding add_providers
  new_resolver strict providers = record { providers = add_providers providers []; strict = strict }

  -- Register, on a resolver that is not nil.
  unfoldable pub register : Option (Provider W) → Resolver W → Resolver W
  register provider r = record r { providers = add_provider provider r.providers }

  abbrev check_value : Resolver W → Text → (Text ⊎ Text) × W → (ResolveErr ⊎ Text) × W
  check_value r provider (inl err, w) = (inl (provider_failed err), w)
  check_value r provider (inr resolved, w) =
      if r.strict && is_empty resolved then (inl (empty_value provider), w) else (inr resolved, w)

  abbrev ask : Resolver W → Text → Text → Option (Provider W) → W → (ResolveErr ⊎ Text) × W
  ask r provider ref none w = (inl (not_registered provider), w)
  ask r provider ref (some p) w = check_value r provider (p.resolve ref w)

  unfoldable pub resolve_single : Unicode → Resolver W → Text → Text → W → (ResolveErr ⊎ Text) × W
  unfolding trim_space lookup
  resolve_single u r provider ref w =
      if is_empty (trim_space u provider)
      then (inl provider_name_required, w)
      else if is_empty (trim_space u ref)
      then (inl ref_required, w)
      else ask r provider ref (lookup provider r.providers) w

  abbrev pub put_byte : ℕ → (ResolveErr ⊎ Text) × W → (ResolveErr ⊎ Text) × W
  put_byte c (inl err, w) = (inl err, w)
  put_byte c (inr out, w) = (inr (c ∷ out), w)

  abbrev put_secret : Text → (ResolveErr ⊎ Text) × W → (ResolveErr ⊎ Text) × W
  put_secret out (inl err, w) = (inl err, w)
  put_secret out (inr resolved, w) = (inr (resolved ++ out), w)

  abbrev resolve_before :
      Unicode → Resolver W → Text → Text → (ResolveErr ⊎ Text) × W → (ResolveErr ⊎ Text) × W
  resolve_before u r provider ref (inl err, w) = (inl err, w)
  resolve_before u r provider ref (inr out, w) = put_secret out (resolve_single u r provider ref w)

  -- The loop over the matches, which goes from the last to the first.
  unfoldable pub resolve_pieces : Unicode → Resolver W → List Piece → W → (ResolveErr ⊎ Text) × W
  unfolding resolve_single
  resolve_pieces u r [] w = (inr [], w)
  resolve_pieces u r (byte c ∷ ps) w = put_byte c (resolve_pieces u r ps w)
  resolve_pieces u r (reference provider ref ∷ ps) w =
      resolve_before u r provider ref (resolve_pieces u r ps w)

  unfoldable pub resolve_inline : Unicode → Resolver W → Text → W → (ResolveErr ⊎ Text) × W
  unfolding resolve_pieces pieces_from
  resolve_inline u r value w = resolve_pieces u r (pieces_of value) w

  abbrev pub resolve_parsed :
      Unicode → Resolver W → Text → Option (Text × Text) → W → (ResolveErr ⊎ Text) × W
  resolve_parsed u r expanded none w = resolve_inline u r expanded w
  resolve_parsed u r expanded (some (provider, ref)) w = resolve_single u r provider ref w

  -- Without a resolver (nil), the value is only expanded.
  abbrev pub resolve_expanded :
      Unicode → Option (Resolver W) → List Text ⊎ Text → W → (ResolveErr ⊎ Text) × W
  resolve_expanded u r (inl missing) w = (inl (missing_variables missing), w)
  resolve_expanded u none (inr expanded) w = (inr expanded, w)
  resolve_expanded u (some r) (inr expanded) w =
      resolve_parsed u r expanded (parse_secret_ref expanded) w

module _ {W : Type 0} (u : Unicode) (env : StringMap Text) (r : Option (Resolver W)) where
  unfoldable pub resolve_value : Text → W → (ResolveErr ⊎ Text) × W
  unfolding expand_env_strict
  resolve_value value w = resolve_expanded u r (expand_env_strict env value) w

  abbrev cons_out : Text → (ResolveErr ⊎ List Text) × W → (ResolveErr ⊎ List Text) × W
  cons_out out (inl err, w) = (inl err, w)
  cons_out out (inr outs, w) = (inr (out ∷ outs), w)

  abbrev rest_of_slice :
      (W → (ResolveErr ⊎ List Text) × W) → (ResolveErr ⊎ Text) × W → (ResolveErr ⊎ List Text) × W
  rest_of_slice rest (inl err, w) = (inl err, w)
  rest_of_slice rest (inr out, w) = cons_out out (rest w)

  -- The loop stops at the first error.
  unfoldable pub resolve_slice : List Text → W → (ResolveErr ⊎ List Text) × W
  resolve_slice [] w = (inr [], w)
  resolve_slice (v ∷ vs) w = rest_of_slice (λ w'. resolve_slice vs w') (resolve_value v w)

  abbrev cons_entry :
      Text → Text → (ResolveErr ⊎ StringMap Text) × W → (ResolveErr ⊎ StringMap Text) × W
  cons_entry k out (inl err, w) = (inl err, w)
  cons_entry k out (inr outs, w) = (inr ((k, out) ∷ outs), w)

  abbrev rest_of_map :
      Text
      → (W → (ResolveErr ⊎ StringMap Text) × W)
      → (ResolveErr ⊎ Text) × W
      → (ResolveErr ⊎ StringMap Text) × W
  rest_of_map k rest (inl err, w) = (inl (resolve_key k err), w)
  rest_of_map k rest (inr out, w) = cons_entry k out (rest w)

  unfoldable pub resolve_entries : StringMap Text → W → (ResolveErr ⊎ StringMap Text) × W
  resolve_entries [] w = (inr [], w)
  resolve_entries ((k, v) ∷ input) w =
      rest_of_map k (λ w'. resolve_entries input w') (resolve_value v w)

  abbrev some_map : (ResolveErr ⊎ StringMap Text) × W → (ResolveErr ⊎ Option (StringMap Text)) × W
  some_map (inl err, w) = (inl err, w)
  some_map (inr out, w) = (inr (some out), w)

  -- A nil map stays nil.
  unfoldable pub resolve_map :
      Option (StringMap Text) → W → (ResolveErr ⊎ Option (StringMap Text)) × W
  unfolding resolve_entries
  resolve_map none w = (inr none, w)
  resolve_map (some input) w = some_map (resolve_entries input w)
