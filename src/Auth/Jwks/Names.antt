-- ===== src/Auth/Jwks/Names.antt =====
-- The names of the keys of a response, and the backup that takes them up.
use toolops.Base.{
  subst, ◌==◌, ◌≡◌, refl, ap, sym, ◌∙◌, Bool, true, false, ◌||◌, Option, none, some, List, [], ◌∷◌,
  map, Bool-cases, inl, inr, arith, if◌then◌else◌,
}
use toolops.Base.Text.{Text, ◌=ᵗ◌, =ᵗ_iff, member, IsUnique, bytes}
use toolops.Base.StringMap.{StringMap, lookup, insert, lookup-insert}
use toolops.Auth.Jwks.{
  RsaPublicKey, JwkKey, Reply, replied, no_reply, fetched, parse_keys, parse_rsa_public_key,
  add_key, insert_all, or_else,
}

abbrev pub Keys : Type 0
Keys = StringMap RsaPublicKey

abbrev pub names : Keys → List Text
names keys = map (λ (e : Text × RsaPublicKey). e.0) keys

member-insert :
    (n k : Text) (v : RsaPublicKey) (keys : Keys)
    → member n (names (insert k v keys)) ≡ (k =ᵗ n) || member n (names keys)
unfolding member insert
member-insert n k v [] = refl
member-insert n k v ((j, w) ∷ keys) =
    ground (arith, member-insert n k v keys, =ᵗ_iff j k, =ᵗ_iff k n, =ᵗ_iff j n)

insert-IsUnique :
    (k : Text) (v : RsaPublicKey) (keys : Keys)
    → IsUnique (names keys)
    → IsUnique (names (insert k v keys))
unfolding member insert
insert-IsUnique k v [] u = (refl, tt)
insert-IsUnique k v ((j, w) ∷ keys) (new, u) = elim (Bool-cases (j =ᵗ k)) [
  | inl same ↦
      let e : (j ≡ k) = (=ᵗ_iff j k).0 same in
      rw same (ground (arith, ap (λ n. member n (names keys)) e, new), u)
  | inr differs ↦ rw differs (
    ground (arith, member-insert j k v keys, =ᵗ_iff k j, =ᵗ_iff j k, differs, new),
    insert-IsUnique k v keys u,
  )
]

pub parse_keys-IsUnique :
    (decode : Text → Option Text) (jwks : List JwkKey) (keys : Keys)
    → IsUnique (names keys)
    → IsUnique (names (parse_keys decode jwks keys))
unfolding parse_keys
parse_keys-IsUnique decode [] keys u = u
parse_keys-IsUnique decode (jwk ∷ jwks) keys u =
    parse_keys-IsUnique decode jwks _
      (step (jwk.kty =ᵗ bytes "RSA") (parse_rsa_public_key decode jwk))
  where
    step :
        (is_rsa : Bool) (key : Option RsaPublicKey)
        → IsUnique (names (if is_rsa then add_key jwk.kid key keys else keys))
    step true none = u
    step true (some key) = insert-IsUnique jwk.kid key keys u
    step false key = u

absent : (k : Text) (keys : Keys) → member k (names keys) ≡ false → lookup k keys ≡ none
unfolding member lookup
absent k [] h = refl
absent k ((j, v) ∷ keys) h = ground (arith, absent k keys)

-- The newer key wins.
pub lookup-insert_all :
    (k : Text) (keys backup : Keys)
    → IsUnique (names keys)
    → lookup k (insert_all keys backup) ≡ or_else (lookup k keys) (lookup k backup)
unfolding insert_all lookup
lookup-insert_all k [] backup u = refl
lookup-insert_all k ((j, v) ∷ keys) backup (new, u) = elim (Bool-cases (j =ᵗ k)) [
  | inl same ↦
      let gone =
        absent k keys (ap (λ n. member n (names keys)) (sym ((=ᵗ_iff j k).0 same)) ∙ new) in
      ground (
        arith,
        same,
        gone,
        lookup-insert_all k keys (insert j v backup) u,
        lookup-insert j k v backup,
      )
  | inr differs ↦
      ground
        (arith, differs, lookup-insert_all k keys (insert j v backup) u, lookup-insert j k v backup)
]

-- The fetched keys have different names.
pub fetched-IsUnique :
    (decode : Text → Option Text) (reply : Reply) (keys : Keys)
    → fetched decode reply ≡ inr keys
    → IsUnique (names keys)
unfolding fetched
fetched-IsUnique decode (no_reply e) keys h = absurd (ground (arith, h))
fetched-IsUnique decode (replied status jwks) keys h = elim (Bool-cases (status == 200)) [
  | inl ok ↦
      let same : parse_keys decode jwks [] ≡ keys = ground (arith, h, ok) in
      subst (λ (ks : Keys). IsUnique (names ks)) same (parse_keys-IsUnique decode jwks [] tt)
  | inr bad ↦ absurd (ground (arith, h, bad))
]
