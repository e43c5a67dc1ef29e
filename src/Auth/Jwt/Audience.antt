-- ===== src/Auth/Jwt/Audience.antt =====
-- Whom a token is for, told from its audience.
use toolops.Base.{◌≡◌, refl, sym, ◌↔◌, true, Option, some, arith, inl, inr, Bool-cases, subst}
use toolops.Base.Text.{Text, ◌=ᵗ◌, =ᵗ_iff, member}
use toolops.Auth.Identity.{Any, str, arr, Items, no_items, item}
use toolops.Auth.Jwt.{audience_of}
use toolops.Auth.Claims.{strings_of}

-- A text of a list.
pub data Holds (s : Text) : Items → Type 0 where
  here : {vs : Items} → Holds s (item (str s) vs)
  there : {v : Any} {vs : Items} → Holds s vs → Holds s (item v vs)

strings_of-Holds : (s : Text) (vs : Items) → member s (strings_of vs) ≡ true → Holds s vs
unfolding strings_of member
strings_of-Holds s no_items e = absurd (ground (arith, e))
strings_of-Holds s (item (str t) vs) e = elim (Bool-cases (t =ᵗ s)) [
  | inl same ↦ subst (λ r. Holds s (item (str r) vs)) (sym ((=ᵗ_iff t s).0 same)) here
  | inr other ↦ there (strings_of-Holds s vs (ground (arith, e, other)))
]
strings_of-Holds s (item _ vs) e = there (strings_of-Holds s vs e)

Holds-strings_of : (s : Text) (vs : Items) → Holds s vs → member s (strings_of vs) ≡ true
unfolding strings_of member
Holds-strings_of s no_items held = elim held [ ]
Holds-strings_of s (item (str _) vs) here = ground (arith, (=ᵗ_iff s s).1 refl)
Holds-strings_of s (item (str t) vs) (there rest) = ground (arith, Holds-strings_of s vs rest)
Holds-strings_of s (item _ vs) (there rest) = Holds-strings_of s vs rest

-- The audience is one text, or a list that holds it.
pub data IsFor (audience : Text) : Option Any → Type 0 where
  sole : IsFor audience (some (str audience))
  among : {vs : Items} → Holds audience vs → IsFor audience (some (arr vs))

audience_of-IsFor : (a : Text) (v : Option Any) → member a (audience_of v) ≡ true → IsFor a v
unfolding member
audience_of-IsFor a (some (str s)) e =
    subst (λ r. IsFor a (some (str r))) (sym ((=ᵗ_iff s a).0 (ground (arith, e)))) sole
audience_of-IsFor a (some (arr vs)) e = among (strings_of-Holds a vs e)
audience_of-IsFor a _ e = absurd (ground (arith, e))

IsFor-audience_of : (a : Text) (v : Option Any) → IsFor a v → member a (audience_of v) ≡ true
unfolding member
IsFor-audience_of a _ sole = ground (arith, (=ᵗ_iff a a).1 refl)
IsFor-audience_of a _ (among {vs} held) = Holds-strings_of a vs held

pub audience_of_iff : (a : Text) (v : Option Any) → (member a (audience_of v) ≡ true) ↔ IsFor a v
audience_of_iff a v = (audience_of-IsFor a v, IsFor-audience_of a v)
