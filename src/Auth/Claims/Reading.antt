-- ===== src/Auth/Claims/Reading.antt =====
-- What the claims of a token say, told from their values.
use toolops.Base.{
  ◌≡◌, ◌≢◌, ◌⊎◌, if◌then◌else◌, refl, sym, ap, ◌↔◌, Option, none, some, List, [], ◌∷◌, arith, inl,
  inr, Bool-cases, subst,
}
use toolops.Base.Int.{ℤ}
use toolops.Base.Time.{Instant, unix}
use toolops.Base.Text.{Text, ◌=ᵗ◌, =ᵗ_iff, =ᵗ_ne_iff, ◌=ᵗ◌}
use toolops.Auth.Identity.{Any, float, str, arr, Items, no_items, item}
use toolops.Auth.Claims.{as_string, as_seconds, as_items, strings_of}

-- The text of a claim, which is empty where the claim is missing or no string.
pub data IsText : Option Any → Text → Type 0 where
  given : {s : Text} → IsText (some (str s)) s
  not_text : {v : Option Any} → ((s : Text) → v ≢ some (str s)) → IsText v []

-- The strings of a list, in their order.
pub data AreTexts : Items → List Text → Type 0 where
  none_left : AreTexts no_items []
  kept :
      {s : Text} {vs : Items} {ss : List Text}
      → AreTexts vs ss
      → AreTexts (item (str s) vs) (s ∷ ss)
  skipped :
      {v : Any} {vs : Items} {ss : List Text}
      → ((s : Text) → v ≢ str s)
      → AreTexts vs ss
      → AreTexts (item v vs) ss

pub data IsTexts : Option Any → List Text → Type 0 where
  listed : {vs : Items} {ss : List Text} → AreTexts vs ss → IsTexts (some (arr vs)) ss
  not_list : {v : Option Any} → ((vs : Items) → v ≢ some (arr vs)) → IsTexts v []

-- The instant of a claim in Unix seconds, the zero Time where the claim is missing or no number.
pub data IsTime : Option Any → Instant → Type 0 where
  at : {n : ℤ} → IsTime (some (float n)) (unix n)
  not_number : {v : Option Any} → ((n : ℤ) → v ≢ some (float n)) → IsTime v 0

abbrev pub text_of : Option Any → Text
text_of v = elim (as_string v) [ none ↦ [] | some s ↦ s ]

text_of-IsText : (v : Option Any) → IsText v (text_of v)
text_of-IsText (some (str s)) = given
text_of-IsText _ = not_text (λ s e. cc)

IsText-text_of : (v : Option Any) (t : Text) → IsText v t → t ≡ text_of v
IsText-text_of (some (str s)) t given = refl
IsText-text_of (some (str s)) t (not_text away) = absurd (away s refl)
IsText-text_of _ t (not_text away) = refl

pub text_of_iff : (v : Option Any) (x : Text) → (x ≡ text_of v) ↔ IsText v x
text_of_iff v x = (λ e. subst (IsText v) (sym e) (text_of-IsText v), IsText-text_of v x)

abbrev pub time_at : Option Any → Instant
time_at v = elim (as_seconds v) [ none ↦ 0 | some n ↦ unix n ]

time_at-IsTime : (v : Option Any) → IsTime v (time_at v)
time_at-IsTime (some (float n)) = at
time_at-IsTime _ = not_number (λ n e. cc)

IsTime-time_at : (v : Option Any) (t : Instant) → IsTime v t → t ≡ time_at v
IsTime-time_at (some (float n)) t at = refl
IsTime-time_at (some (float n)) t (not_number away) = absurd (away n refl)
IsTime-time_at _ t (not_number away) = refl

pub time_at_iff : (v : Option Any) (x : Instant) → (x ≡ time_at v) ↔ IsTime v x
time_at_iff v x = (λ e. subst (IsTime v) (sym e) (time_at-IsTime v), IsTime-time_at v x)

strings_of-AreTexts : (vs : Items) → AreTexts vs (strings_of vs)
unfolding strings_of
strings_of-AreTexts no_items = none_left
strings_of-AreTexts (item (str s) vs) = kept (strings_of-AreTexts vs)
strings_of-AreTexts (item _ vs) = skipped (λ s e. cc) (strings_of-AreTexts vs)

AreTexts-strings_of : (vs : Items) (ss : List Text) → AreTexts vs ss → ss ≡ strings_of vs
unfolding strings_of
AreTexts-strings_of no_items ss none_left = refl
AreTexts-strings_of (item (str s) vs) _ (kept {ss} rest) =
    ap (λ r. s ∷ r) (AreTexts-strings_of vs ss rest)
AreTexts-strings_of (item (str s) vs) ss (skipped away rest) = absurd (away s refl)
AreTexts-strings_of (item _ vs) ss (skipped away rest) = AreTexts-strings_of vs ss rest

abbrev pub texts_of : Option Any → List Text
texts_of v = elim (as_items v) [ none ↦ [] | some vs ↦ strings_of vs ]

texts_of-IsTexts : (v : Option Any) → IsTexts v (texts_of v)
texts_of-IsTexts (some (arr vs)) = listed (strings_of-AreTexts vs)
texts_of-IsTexts _ = not_list (λ vs e. cc)

IsTexts-texts_of : (v : Option Any) (ss : List Text) → IsTexts v ss → ss ≡ texts_of v
IsTexts-texts_of (some (arr vs)) ss (listed rest) = AreTexts-strings_of vs ss rest
IsTexts-texts_of (some (arr vs)) ss (not_list away) = absurd (away vs refl)
IsTexts-texts_of _ ss (not_list away) = refl

pub texts_of_iff : (v : Option Any) (x : List Text) → (x ≡ texts_of v) ↔ IsTexts v x
texts_of_iff v x = (λ e. subst (IsTexts v) (sym e) (texts_of-IsTexts v), IsTexts-texts_of v x)

-- A field that is read only where its claim has a name, and else stays empty.
abbrev pub IfNamed : Text → {A : Type 0} → A → A → Type 0 → Type 0
IfNamed name x empty P = ((name ≡ []) × (x ≡ empty)) ⊎ ((name ≢ []) × P)

pub named_iff :
    {A : Type 0} {P : Type 0} (name : Text) (x empty y : A)
    → (x ≡ y) ↔ P
    → (x ≡ (if name =ᵗ [] then empty else y)) ↔ IfNamed name x empty P
named_iff name x empty y read = (
  λ e. elim (Bool-cases (name =ᵗ [])) [
    | inl none_set ↦ inl ((=ᵗ_iff name []).0 none_set, ground (arith, none_set, e))
    | inr set ↦ inr ((=ᵗ_ne_iff name []).0 set, read.0 (ground (arith, set, e)))
  ],
  λ is. elim is [
    | inl (none_set, e) ↦ ground (arith, (=ᵗ_iff name []).1 none_set, e)
    | inr (set, p) ↦ ground (arith, (=ᵗ_ne_iff name []).1 set, read.1 p)
  ],
)
