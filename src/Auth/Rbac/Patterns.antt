-- ===== src/Auth/Rbac/Patterns.antt =====
-- What patterns and permissions match, told without the functions that match them.
use toolops.Base.{
  ◌≡◌, refl, ap, ◌∙◌, ◌⊎◌, inl, inr, ◌↔◌, Bool, true, false, ◌||◌, Option, none, some, List, [],
  ◌∷◌, ◌++◌, All, any, any-Memᴰ, Memᴰ-any, Memᴰ, Bool-cases, arith,
}
use toolops.Base.Text.{Text, bytes, ◌=ᵗ◌, =ᵗ_iff, has_byte, has_prefix, cut_suffix}
use toolops.Base.Text.Affixes.{has_prefix_iff, cut_suffix-append, cut_suffix_found}
use toolops.Base.Text.Split.{join_byte}
use toolops.Auth.Authorizer.{AuthzRequest, tool_name}
use toolops.Auth.Rbac.{match_pattern, match_resource}

-- The pattern ends in `*`, and the value begins with what comes before.
pub record IsBeginning (pattern value : Text) : Type 0 where
  pub front : Text
  pub rest : Text
  pub is_pattern : pattern ≡ front ++ bytes "*"
  pub is_value : value ≡ front ++ rest

abbrev pub Matches : Text → Text → Type 0
Matches pattern value = (pattern ≡ value) ⊎ IsBeginning pattern value

match_found : Option Text → Text → Text → Bool
match_found (some front) pattern value = has_prefix front value
match_found none pattern value = pattern =ᵗ value

match_pattern-found :
    (pattern value : Text)
    → match_pattern pattern value
      ≡ ((pattern =ᵗ bytes "*") || match_found (cut_suffix (bytes "*") pattern) pattern value)
unfolding match_pattern match_found
match_pattern-found pattern value = ground arith

match_found-Matches :
    (pattern value : Text) (cut : Option Text)
    → cut_suffix (bytes "*") pattern ≡ cut
    → match_found cut pattern value ≡ true
    → Matches pattern value
unfolding match_found
match_found-Matches pattern value none is h = inl ((=ᵗ_iff pattern value).0 h)
match_found-Matches pattern value (some front) is h =
    let (rest, e) = (has_prefix_iff front value).0 h in
    inr (record {
      front = front;
      rest = rest;
      is_pattern = cut_suffix_found (bytes "*") pattern front is;
      is_value = e;
    })

match_found_self :
    (value : Text) (cut : Option Text)
    → cut_suffix (bytes "*") value ≡ cut
    → match_found cut value value ≡ true
unfolding match_found
match_found_self value none is = (=ᵗ_iff value value).1 refl
match_found_self value (some front) is =
    (has_prefix_iff front value).1 (bytes "*", cut_suffix_found (bytes "*") value front is)

-- A pattern matches exactly itself, and, where it ends in `*`, whatever begins with what comes before.
pub match_pattern_iff :
    (pattern value : Text) → (match_pattern pattern value ≡ true) ↔ Matches pattern value
unfolding match_found
match_pattern_iff pattern value = (
  λ h. elim (Bool-cases (pattern =ᵗ bytes "*")) [
    | inl star ↦ inr (record {
      front = [];
      rest = value;
      is_pattern = (=ᵗ_iff pattern (bytes "*")).0 star;
      is_value = refl;
    })
    | inr other ↦
        match_found-Matches pattern value _ refl
          (ground (arith, match_pattern-found pattern value, h, other))
  ],
  λ m. elim m [
    | inl same ↦ ground (
      arith,
      match_pattern-found pattern value,
      ap (λ v. match_found (cut_suffix (bytes "*") pattern) pattern v) same,
      match_found_self pattern _ refl,
    )
    | inr b ↦
        let cut : cut_suffix (bytes "*") pattern ≡ some b.front =
          ap (cut_suffix (bytes "*")) b.is_pattern ∙ cut_suffix-append (bytes "*") b.front in
        let begins = (has_prefix_iff b.front value).1 (b.rest, b.is_value) in
        ground (
          arith,
          match_pattern-found pattern value,
          ap (λ c. match_found c pattern value) cut,
          begins,
        )
  ],
)

-- A member with the property.
abbrev pub Some : (Text → Type 0) → List Text → Type 0
Some P xs = (x : Text) × Memᴰ x xs × P x

pub any_iff :
    (p : Text → Bool) (P : Text → Type 0) (xs : List Text)
    → ((x : Text) → (p x ≡ true) ↔ P x)
    → (any p xs ≡ true) ↔ Some P xs
any_iff p P xs each = (
  λ h. let (x, listed, passed) = any-Memᴰ p xs h in (x, listed, (each x).0 passed),
  λ (x, listed, holds). Memᴰ-any p listed ((each x).1 holds),
)

module _ (req : AuthzRequest) where
  abbrev pub IsAction : Text → Type 0
  IsAction action = (action ≡ bytes "*") ⊎ (action ≡ req.action)

  abbrev pub IsResource : Text → Type 0
  IsResource resource =
      (resource ≡ bytes "*") ⊎ (resource ≡ req.resource) ⊎ Matches resource (tool_name req)

  abbrev pub IsType : Text → Type 0
  IsType resource_type = (resource_type ≡ bytes "*") ⊎ (resource_type ≡ req.resource_type)

  abbrev pub AreParts : List Text → Type 0
  AreParts (action ∷ []) = IsAction action
  AreParts (resource ∷ action ∷ []) = IsResource resource × IsAction action
  AreParts (resource_type ∷ resource ∷ action ∷ []) =
      IsType resource_type × IsResource resource × IsAction action
  AreParts _ = ⊥

  -- One to three parts without a colon, which the permission joins by colons.
  pub record Grants (perm : Text) : Type 0 where
    pub parts : List Text
    pub is_perm : perm ≡ join_byte b':' parts
    pub lacks : All (λ part. has_byte b':' part ≡ false) parts
    pub granted : AreParts parts

  pub either_iff : (x y : Text) → ((x =ᵗ bytes "*" || x =ᵗ y) ≡ true) ↔ ((x ≡ bytes "*") ⊎ (x ≡ y))
  either_iff x y = (
    λ h. elim (Bool-cases (x =ᵗ bytes "*")) [
      | inl star ↦ inl ((=ᵗ_iff x (bytes "*")).0 star)
      | inr other ↦ inr ((=ᵗ_iff x y).0 (ground (arith, h, other)))
    ],
    λ e. elim e [
      | inl star ↦ ground (arith, (=ᵗ_iff x (bytes "*")).1 star)
      | inr same ↦ ground (arith, (=ᵗ_iff x y).1 same)
    ],
  )

  pub match_resource_iff :
      (resource : Text) → (match_resource resource req ≡ true) ↔ IsResource resource
  unfolding match_resource
  match_resource_iff resource =
      let pattern = match_pattern_iff resource (tool_name req) in
      let either = either_iff resource req.resource in
      (
        λ h. elim (Bool-cases (resource =ᵗ bytes "*" || resource =ᵗ req.resource)) [
          | inl plain ↦ elim (either.0 plain) [ inl star ↦ inl star | inr same ↦ inr (inl same) ]
          | inr other ↦ inr (inr (pattern.0 (ground (arith, h, other))))
        ],
        λ e. elim e [
          | inl star ↦ ground (arith, either.1 (inl star))
          | inr (inl same) ↦ ground (arith, either.1 (inr same))
          | inr (inr matches) ↦ ground (arith, pattern.1 matches)
        ],
      )
