-- ===== src/Health/Aggregator/Registry.antt =====
-- The registry: the order of registration against the map of checkers, and which names have a result.
use toolops.Base.{
  ◌≡◌, refl, ◌∙◌, false, ◌&&◌, not, is_some, List, [], ◌∷◌, ◌++◌, Bool-cases, inl, inr, arith,
}
use toolops.Base.Text.{IsUnique, Text, ◌=ᵗ◌, =ᵗ_iff, member, member-append}
use toolops.Base.StringMap.{lookup, lookup-insert, lookup-erase}
use toolops.Health.Checker.{Checker}
use toolops.Health.Aggregator.{
  Aggregator, AggregatorConfig, remove_first, new_aggregator, register, unregister,
}

member-remove_first :
    (x k : Text) (xs : List Text)
    → IsUnique xs
    → member x (remove_first k xs) ≡ member x xs && not (k =ᵗ x)
unfolding member remove_first
member-remove_first x k [] u = refl
member-remove_first x k (y ∷ ys) (new, u) =
    ground (arith, member-remove_first x k ys u, =ᵗ_iff y k, =ᵗ_iff y x, =ᵗ_iff k x, new)

remove_first-IsUnique : (k : Text) (xs : List Text) → IsUnique xs → IsUnique (remove_first k xs)
unfolding member remove_first
remove_first-IsUnique k [] u = tt
remove_first-IsUnique k (y ∷ ys) (new, u) = elim (Bool-cases (y =ᵗ k)) [
  | inl same ↦ rw same u
  | inr differs ↦
      rw differs (ground (arith, member-remove_first y k ys u, new), remove_first-IsUnique k ys u)
]

append-IsUnique :
    (k : Text) (xs : List Text) → member k xs ≡ false → IsUnique xs → IsUnique (xs ++ k ∷ [])
unfolding member
append-IsUnique k [] new u = (refl, tt)
append-IsUnique k (y ∷ ys) new (here, u) = (
  ground (arith, member-append y ys (k ∷ []), =ᵗ_iff y k, =ᵗ_iff k y, new, here),
  append-IsUnique k ys (ground (arith, new)) u,
)

-- A call that takes the aggregator's lock for writing.
pub data Edit (W : Type 0) : Type 0 where
  registers : Text → Checker W → Edit W
  unregisters : Text → Edit W

module _ {W : Type 0} where
  -- The order lists each registered name once, and no other.
  pub record IsConsistent (a : Aggregator W) : Type 0 where
    pub unique : IsUnique a.order
    pub listed : (n : Text) → member n a.order ≡ is_some (lookup n a.checkers)

  unfoldable pub edit : Edit W → Aggregator W → Aggregator W
  edit (registers name checker) a = register name checker a
  edit (unregisters name) a = unregister name a

  pub edits : List (Edit W) → Aggregator W → Aggregator W
  unfolding edit
  edits [] a = a
  edits (e ∷ es) a = edits es (edit e a)

  register-IsConsistent :
      (name : Text) (checker : Checker W) (a : Aggregator W)
      → IsConsistent a
      → IsConsistent (register name checker a)
  unfolding register member
  register-IsConsistent name checker a ok = elim (Bool-cases (is_some (lookup name a.checkers))) [
    | inl known ↦ record {
      unique = rw known ok.unique;
      listed = λ n.
          ground
            (arith, known, ok.listed n, lookup-insert name n checker a.checkers, =ᵗ_iff name n);
    }
    | inr fresh ↦ record {
      unique = rw fresh (append-IsUnique name a.order (ok.listed name ∙ fresh) ok.unique);
      listed = λ n. ground (
        arith,
        fresh,
        ok.listed n,
        member-append n a.order (name ∷ []),
        lookup-insert name n checker a.checkers,
      );
    }
  ]

  unregister-IsConsistent :
      (name : Text) (a : Aggregator W) → IsConsistent a → IsConsistent (unregister name a)
  unfolding unregister
  unregister-IsConsistent name a ok = record {
    unique = remove_first-IsUnique name a.order ok.unique;
    listed = λ n. ground (
      arith,
      member-remove_first n name a.order ok.unique,
      ok.listed n,
      lookup-erase name n a.checkers,
    );
  }

  edits-IsConsistent :
      (es : List (Edit W)) (a : Aggregator W) → IsConsistent a → IsConsistent (edits es a)
  unfolding edits edit
  edits-IsConsistent [] a ok = ok
  edits-IsConsistent (registers name checker ∷ es) a ok =
      edits-IsConsistent es _ (register-IsConsistent name checker a ok)
  edits-IsConsistent (unregisters name ∷ es) a ok =
      edits-IsConsistent es _ (unregister-IsConsistent name a ok)

  -- After any registrations and removals, CheckerNames lists each name that has a checker once, and no
  -- other.
  pub edits_new-IsConsistent :
      (es : List (Edit W)) (configs : List AggregatorConfig)
      → IsConsistent (edits es (new_aggregator configs))
  unfolding new_aggregator member lookup
  edits_new-IsConsistent es configs =
      edits-IsConsistent es _ (record { unique = tt; listed = λ n. refl })
