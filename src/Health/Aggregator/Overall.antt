-- ===== src/Health/Aggregator/Overall.antt =====
-- The overall status, by what occurs among the results.
use toolops.Base.{
  ◌≡◌, refl, ap, Bool, true, false, ◌||◌, [], ◌∷◌, any, any-Memᴰ, Memᴰ-any, Memᴰ, Bool-cases, inl,
  inr, ◌↔◌, arith, if◌then◌else◌,
}
use toolops.Base.Text.{Text}
use toolops.Base.StringMap.{StringMap}
use toolops.Health.Checker.{
  Status, status_healthy, status_degraded, status_unhealthy, unknown_status, Result,
}
use toolops.Health.Aggregator.{is_unhealthy, is_degraded, scan, overall_status}

-- A result with the status.
pub record Has (s : Status) (results : StringMap Result) : Type 0 where
  pub entry : Text × Result
  pub listed : Memᴰ entry results
  pub status : entry.1.status ≡ s

abbrev pub unhealthy_in : StringMap Result → Bool
unhealthy_in results = any (λ e. is_unhealthy e.1.status) results

abbrev pub degraded_in : StringMap Result → Bool
degraded_in results = any (λ e. is_degraded e.1.status) results

abbrev pub verdict : Bool → Bool → Status
verdict u d = if u then status_unhealthy else if d then status_degraded else status_healthy

scan-verdict :
    (results : StringMap Result) (u d : Bool)
    → scan results u d ≡ verdict (u || unhealthy_in results) (d || degraded_in results)
unfolding scan
scan-verdict [] u d = ground arith
scan-verdict ((n, r) ∷ results) u d =
    ground (arith, scan-verdict results (u || is_unhealthy r.status) (d || is_degraded r.status))

pub overall_status-verdict :
    (results : StringMap Result)
    → overall_status results ≡ verdict (unhealthy_in results) (degraded_in results)
unfolding overall_status scan
overall_status-verdict [] = refl
overall_status-verdict (e ∷ results) = scan-verdict (e ∷ results) false false

unhealthy_status : (s : Status) → is_unhealthy s ≡ true → s ≡ status_unhealthy
unhealthy_status status_unhealthy h = refl
unhealthy_status status_healthy h = ground arith
unhealthy_status status_degraded h = ground arith
unhealthy_status unknown_status h = ground arith

degraded_status : (s : Status) → is_degraded s ≡ true → s ≡ status_degraded
degraded_status status_degraded h = refl
degraded_status status_healthy h = ground arith
degraded_status status_unhealthy h = ground arith
degraded_status unknown_status h = ground arith

pub unhealthy_in-Has :
    (results : StringMap Result) → (unhealthy_in results ≡ true) ↔ Has status_unhealthy results
unhealthy_in-Has results = (
  λ e.
      let (entry, listed, s) = any-Memᴰ _ results e in
      record { entry = entry; listed = listed; status = unhealthy_status _ s },
  λ r. Memᴰ-any _ r.listed (ap is_unhealthy r.status),
)

pub degraded_in-Has :
    (results : StringMap Result) → (degraded_in results ≡ true) ↔ Has status_degraded results
degraded_in-Has results = (
  λ e.
      let (entry, listed, s) = any-Memᴰ _ results e in
      record { entry = entry; listed = listed; status = degraded_status _ s },
  λ r. Memᴰ-any _ r.listed (ap is_degraded r.status),
)

-- The overall status is unhealthy exactly when some result is; degraded exactly when some result is and
-- none is unhealthy; and healthy exactly when no result is either, a result of an unknown status among
-- them. So it does not depend on the order in which a map is ranged over.
pub overall_status_iff :
    (results : StringMap Result)
    → ((overall_status results ≡ status_unhealthy) ↔ Has status_unhealthy results)
      × ((overall_status results ≡ status_degraded)
          ↔ (Has status_degraded results × ¬ Has status_unhealthy results))
      × ((overall_status results ≡ status_healthy)
          ↔ (¬ Has status_degraded results × ¬ Has status_unhealthy results))
overall_status_iff results =
    let is = overall_status-verdict results in
    let u = unhealthy_in-Has results in
    let d = degraded_in-Has results in
    (
      (λ e. u.0 (ground (arith, is, e)), λ r. ground (arith, is, u.1 r)),
      (
        λ e. (d.0 (ground (arith, is, e)), λ r. absurd (ground (arith, is, e, u.1 r))),
        λ r. elim (Bool-cases (unhealthy_in results)) [
          | inl bad ↦ absurd (r.1 (u.0 bad))
          | inr fine ↦ ground (arith, is, fine, d.1 r.0)
        ],
      ),
      (
        λ e. (
          λ r. absurd (ground (arith, is, e, d.1 r)),
          λ r. absurd (ground (arith, is, e, u.1 r)),
        ),
        λ r. elim (Bool-cases (unhealthy_in results)) [
          | inl bad ↦ absurd (r.1 (u.0 bad))
          | inr fine ↦ elim (Bool-cases (degraded_in results)) [
            | inl some_degraded ↦ absurd (r.0 (d.0 some_degraded))
            | inr none_degraded ↦ ground (arith, is, fine, none_degraded)
          ]
        ],
      ),
    )
