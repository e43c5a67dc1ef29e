-- ===== src/Auth/Rbac/Collection.antt =====
-- collectRoles ends, and collects exactly the roles that inheritance reaches.
use toolops.Base.{
  ℕ, zero, suc, ◌+◌, ◌≤◌, ◌≡◌, refl, ap, false, List, [], ◌∷◌, length, length-append, arith,
}
use toolops.Base.Text.{Text, =ᵗ_iff, member}
use toolops.Base.StringMap.{StringMap, lookup}
use toolops.Auth.Identity.{Identity}
use toolops.Auth.Rbac.{
  RoleConfig, RbacConfig, Work, unseen, inherited, visit, rounds, start_roles, pending, begin,
}

-- Termination: each round lowers the length of the queue and what is still pending.

pending_mono :
    (c : Text) (seen : List Text) (roles : StringMap RoleConfig)
    → pending (c ∷ seen) roles ≤ pending seen roles
unfolding pending member
pending_mono c seen [] = omega arith
pending_mono c seen ((name, role) ∷ roles) = ground (arith, pending_mono c seen roles)

pending_visit :
    (c : Text) (seen : List Text) (roles : StringMap RoleConfig)
    → member c seen ≡ false
    → pending (c ∷ seen) roles + length (inherited (lookup c roles)) ≤ pending seen roles
unfolding pending member lookup
pending_visit c seen [] new = omega arith
pending_visit c seen ((name, role) ∷ roles) new =
    ground (
      arith,
      pending_visit c seen roles new,
      pending_mono c seen roles,
      =ᵗ_iff name c,
      =ᵗ_iff c name,
    )

length-unseen : (seen rs : List Text) → length (unseen seen rs) ≤ length rs
unfolding unseen
length-unseen seen [] = omega arith
length-unseen seen (r ∷ rs) = ground (arith, length-unseen seen rs)

abbrev pub work : List Text → List Text → List Text → Work
work queue seen result = record { roles_to_process = queue; seen = seen; result = result }

module _ (config : RbacConfig) where
  left : Work → ℕ
  left w = length w.roles_to_process + pending w.seen config.roles

  left-visit :
      (c : Text) (queue seen result : List Text)
      → left (visit config c (work queue seen result)) ≤ length queue + pending seen config.roles
  unfolding left visit
  left-visit c queue seen result = ground (
    arith,
    pending_visit c seen config.roles,
    length-unseen (c ∷ seen) (inherited (lookup c config.roles)),
    length-append queue (unseen (c ∷ seen) (inherited (lookup c config.roles))),
  )

  rounds_idle :
      (fuel : ℕ) (seen result : List Text)
      → rounds config fuel (work [] seen result) ≡ work [] seen result
  unfolding rounds
  rounds_idle zero seen result = refl
  rounds_idle (suc fuel) seen result = rounds_idle fuel seen result

  pub rounds_done :
      (fuel : ℕ) (queue seen result : List Text)
      → length queue + pending seen config.roles ≤ fuel
      → (rounds config fuel (work queue seen result)).roles_to_process ≡ []
  unfolding rounds left
  rounds_done zero [] seen result h = refl
  rounds_done zero (c ∷ queue) seen result h = absurd (omega arith)
  rounds_done (suc fuel) [] seen result h =
      ap (λ v. v.roles_to_process) (rounds_idle fuel seen result)
  rounds_done (suc fuel) (c ∷ queue) seen result h =
      let v = visit config c (work queue seen result) in
      rounds_done fuel v.roles_to_process v.seen v.result
        (omega (arith, left-visit c queue seen result))

  -- The loop of collectRoles ends: after the rounds it is given here its queue is empty.
  pub collect_roles_ends :
      (subject : Identity)
      → (rounds config
          (length (start_roles config subject) + pending [] config.roles)
          (begin config subject)).roles_to_process
        ≡ []
  collect_roles_ends subject = rounds_done _ (start_roles config subject) [] [] (omega arith)
