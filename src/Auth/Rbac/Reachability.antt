-- ===== src/Auth/Rbac/Reachability.antt =====
-- The collected roles are those that inheritance reaches from the subject's roles.
use toolops.Base.{
  ℕ, zero, suc, ◌+◌, ◌≡◌, refl, ap, sym, subst, ◌∙◌, true, false, ◌||◌, ◌&&◌, not, List, [], ◌∷◌,
  ◌++◌, length, arith, Bool-cases, inl, inr, ◌↔◌,
}
use toolops.Base.Text.{Text, ◌=ᵗ◌, =ᵗ_iff, member, member-append}
use toolops.Base.StringMap.{lookup}
use toolops.Auth.Identity.{Identity}
use toolops.Auth.Rbac.{
  RbacConfig, Work, unseen, inherited, visit, rounds, start_roles, pending, collect_roles,
}
use toolops.Auth.Rbac.Collection.{work, collect_roles_ends}

member-unseen :
    (x : Text) (seen rs : List Text)
    → member x (unseen seen rs) ≡ member x rs && not (member x seen)
unfolding unseen member
member-unseen x seen [] = refl
member-unseen x seen (r ∷ rs) = ground (arith, member-unseen x seen rs, =ᵗ_iff r x)

module _ (config : RbacConfig) where
  abbrev inherits_of : Text → List Text
  inherits_of r = inherited (lookup r config.roles)

  -- `Reaches start r`: `r` is one of `start`, or a configured role that is reached inherits it.
  pub data Reaches (start : List Text) : Text → Type 0 where
    given : (r : Text) → member r start ≡ true → Reaches start r
    inherits : (r s : Text) → Reaches start r → member s (inherits_of r) ≡ true → Reaches start s

  record IsSound (start : List Text) (w : Work) : Type 0 where
    queued : (r : Text) → member r w.roles_to_process ≡ true → Reaches start r
    kept : (r : Text) → member r w.result ≡ true → Reaches start r

  record IsComplete (start : List Text) (w : Work) : Type 0 where
    covered :
        (r : Text) → member r start ≡ true → (member r w.seen || member r w.roles_to_process) ≡ true
    closed :
        (r s : Text)
        → member r w.seen ≡ true
        → member s (inherits_of r) ≡ true
        → (member s w.seen || member s w.roles_to_process) ≡ true
    same : (r : Text) → member r w.result ≡ member r w.seen

  extended : Text → List Text → List Text → List Text
  extended c seen queue = queue ++ unseen (c ∷ seen) (inherits_of c)

  member-extended :
      (x c : Text) (seen queue : List Text)
      → member x (extended c seen queue)
        ≡ member x queue || (member x (inherits_of c) && not (c =ᵗ x || member x seen))
  unfolding extended member
  member-extended x c seen queue = ground (
    arith,
    member-append x queue (unseen (c ∷ seen) (inherits_of c)),
    member-unseen x (c ∷ seen) (inherits_of c),
  )

  visit_old :
      (c : Text) (queue seen result : List Text)
      → member c seen ≡ true
      → visit config c (work queue seen result) ≡ work queue seen result
  unfolding visit
  visit_old c queue seen result old = rw old

  visit_new :
      (c : Text) (queue seen result : List Text)
      → member c seen ≡ false
      → visit config c (work queue seen result)
        ≡ work (extended c seen queue) (c ∷ seen) (result ++ c ∷ [])
  unfolding visit extended
  visit_new c queue seen result new = rw new

  add-IsSound :
      (start : List Text) (c : Text) (queue seen result : List Text)
      → IsSound start (work (c ∷ queue) seen result)
      → IsSound start (work (extended c seen queue) (c ∷ seen) (result ++ c ∷ []))
  unfolding member
  add-IsSound start c queue seen result s = record {
    queued = λ r h. elim (Bool-cases (member r queue)) [
      | inl waits ↦ s.queued r (ground arith)
      | inr fresh ↦ inherits c r reached (ground (arith, member-extended r c seen queue))
    ];
    kept = λ r h. elim (Bool-cases (member r result)) [
      | inl before ↦ s.kept r before
      | inr now ↦
          subst (Reaches start) ((=ᵗ_iff c r).0 (ground (arith, member-append r result (c ∷ []))))
            reached
    ];
  }
    where
      reached : Reaches start c
      reached = s.queued c (ground (arith, =ᵗ_iff c c))

  skip-IsSound :
      (start : List Text) (c : Text) (queue seen result : List Text)
      → IsSound start (work (c ∷ queue) seen result)
      → IsSound start (work queue seen result)
  unfolding member
  skip-IsSound start c queue seen result s = record {
    queued = λ r h. s.queued r (ground arith);
    kept = s.kept;
  }

  skip-IsComplete :
      (start : List Text) (c : Text) (queue seen result : List Text)
      → member c seen ≡ true
      → IsComplete start (work (c ∷ queue) seen result)
      → IsComplete start (work queue seen result)
  unfolding member
  skip-IsComplete start c queue seen result old s = record {
    covered = λ r h. ground (arith, s.covered r h, =ᵗ_iff c r);
    closed = λ r t h k. ground (arith, s.closed r t h k, =ᵗ_iff c t);
    same = s.same;
  }

  add-IsComplete :
      (start : List Text) (c : Text) (queue seen result : List Text)
      → IsComplete start (work (c ∷ queue) seen result)
      → IsComplete start (work (extended c seen queue) (c ∷ seen) (result ++ c ∷ []))
  unfolding member
  add-IsComplete start c queue seen result s = record {
    covered = λ r h. ground (arith, s.covered r h, =ᵗ_iff c r, member-extended r c seen queue);
    closed = λ r t h k. elim (Bool-cases (member r seen)) [
      | inl old ↦ ground (arith, s.closed r t old k, member-extended t c seen queue)
      | inr new ↦
          let k' : member t (inherits_of c) ≡ true =
            subst (λ x. member t (inherits_of x) ≡ true) (sym ((=ᵗ_iff c r).0 (ground arith))) k in
          ground (arith, k', member-extended t c seen queue)
    ];
    same = λ r. ground (arith, s.same r, member-append r result (c ∷ []));
  }

  rounds-IsSound :
      (start : List Text) (fuel : ℕ) (queue seen result : List Text)
      → IsSound start (work queue seen result)
      → IsSound start (rounds config fuel (work queue seen result))
  unfolding rounds
  rounds-IsSound start zero queue seen result s = s
  rounds-IsSound start (suc fuel) [] seen result s = rounds-IsSound start fuel [] seen result s
  rounds-IsSound start (suc fuel) (c ∷ queue) seen result s = elim (Bool-cases (member c seen)) [
    | inl old ↦
        rw (visit_old c queue seen result old)
          (rounds-IsSound start fuel queue seen result (skip-IsSound start c queue seen result s))
    | inr new ↦
        rw (visit_new c queue seen result new)
          (rounds-IsSound start fuel _ _ _ (add-IsSound start c queue seen result s))
  ]

  rounds-IsComplete :
      (start : List Text) (fuel : ℕ) (queue seen result : List Text)
      → IsComplete start (work queue seen result)
      → IsComplete start (rounds config fuel (work queue seen result))
  unfolding rounds
  rounds-IsComplete start zero queue seen result s = s
  rounds-IsComplete start (suc fuel) [] seen result s =
      rounds-IsComplete start fuel [] seen result s
  rounds-IsComplete start (suc fuel) (c ∷ queue) seen result s = elim (Bool-cases (member c seen)) [
    | inl old ↦ rw (visit_old c queue seen result old) (
        rounds-IsComplete start fuel queue seen result
          (skip-IsComplete start c queue seen result old s))
    | inr new ↦
        rw (visit_new c queue seen result new)
          (rounds-IsComplete start fuel _ _ _ (add-IsComplete start c queue seen result s))
  ]

  seen_of_Reaches :
      (start : List Text) (w : Work) (r : Text)
      → IsComplete start w
      → w.roles_to_process ≡ []
      → Reaches start r
      → member r w.seen ≡ true
  unfolding member
  seen_of_Reaches start w r s ended (given _ h) = ground (arith, s.covered r h, ap (member r) ended)
  seen_of_Reaches start w r s ended (inherits t _ reached h) =
      ground
        (arith, s.closed t r (seen_of_Reaches start w t s ended reached) h, ap (member r) ended)

  -- A role is collected exactly when it is one of the subject's roles (or the default role, where the
  -- subject has none), or is inherited, directly or not, from a configured one of these.
  pub collect_roles_iff :
      (subject : Identity) (r : Text)
      → (member r (collect_roles config subject) ≡ true) ↔ Reaches (start_roles config subject) r
  unfolding collect_roles member
  collect_roles_iff subject r =
      let start = start_roles config subject in
      let fuel = length start + pending [] config.roles in
      let sound =
        rounds-IsSound start fuel start [] []
          (record { queued = λ t h. given t h; kept = λ t h. cc }) in
      let complete =
        rounds-IsComplete start fuel start [] []
          (record { covered = λ t h. h; closed = λ t u h k. cc; same = λ t. refl }) in
      (
        sound.kept r,
        λ reached.
            complete.same r
            ∙ seen_of_Reaches start _ r complete (collect_roles_ends config subject) reached,
      )
