-- ===== src/Resilience/Retry/Attempts.antt =====
-- Execute against a relation that says what a sequence of attempts may do.
use toolops.Base.{
  ℕ, zero, suc, ◌+◌, ◌≤◌, ◌<◌, ◌≡◌, refl, ap, subst, ◌⊎◌, inl, inr, true, false, Option, none, some,
  arith, Bool-cases, sym, ◌∙◌,
}
use toolops.Base.Int.{pos, pos_part, leb_ℤ, ◌≤ℤ◌, ◌<ℤ◌}
use toolops.Base.Time.{Duration}
use toolops.Base.Float.{Float64}
use toolops.Resilience.Operation.{Err, Outcome, returned, panicked, Operation}
use toolops.Resilience.Retry.{
  RetryConfig, Host, retries, calculate_delay, announce, conclude, pause, resume, rounds, execute,
}

module _ {W : Type 0} (f : Float64) (h : Host W) (config : RetryConfig f) (op : Operation W) where
  -- `Run k n w o w'`: attempt `k` starts in `w`, attempt `n` is the last, and the end is `o` in `w'`.
  pub data Run : ℕ → ℕ → W → Outcome → W → Type 0 where
    succeeds : {k : ℕ} {w w' : W} → op w ≡ (returned none, w') → Run k k w (returned none) w'
    crashes : {k : ℕ} {w w' : W} → op w ≡ (panicked, w') → Run k k w panicked w'
    refuses :
        {k : ℕ} {w w' : W} {e : Err}
        → op w ≡ (returned (some e), w')
        → retries f config e ≡ false
        → Run k k w (returned (some e)) w'
    runs_out :
        {k : ℕ} {w w' : W} {e : Err}
        → op w ≡ (returned (some e), w')
        → config.max_attempts ≤ℤ pos k
        → Run k k w (returned (some e)) w'
    no_delay :
        {k : ℕ} {w w₁ w' : W} {e : Err}
        → op w ≡ (returned (some e), w₁)
        → calculate_delay f h config k w₁ ≡ (none, w')
        → Run k k w panicked w'
    cancelled :
        {k : ℕ} {w w₁ w₂ w' : W} {e c : Err} {d : Duration}
        → op w ≡ (returned (some e), w₁)
        → calculate_delay f h config k w₁ ≡ (some d, w₂)
        → h.wait d (announce f h config k e d w₂) ≡ (some c, w')
        → Run k k w (returned (some c)) w'
    again :
        {k n : ℕ} {w w₁ w₂ w₃ w' : W} {e : Err} {d : Duration} {o : Outcome}
        → op w ≡ (returned (some e), w₁)
        → retries f config e ≡ true
        → pos k <ℤ config.max_attempts
        → calculate_delay f h config k w₁ ≡ (some d, w₂)
        → h.wait d (announce f h config k e d w₂) ≡ (none, w₃)
        → Run (k + 1) n w₃ o w'
        → Run k n w o w'

  -- A run of the loop from attempt `k`, its last attempt within the limit.
  abbrev Bounded : ℕ → ℕ → W → Outcome × W → Type 0
  Bounded limit k w r = (n : ℕ) × (k ≤ n) × (n ≤ limit) × Run k n w r.0 r.1

  module _ (limit k : ℕ) (within : k ≤ limit) (is_limit : config.max_attempts ≡ pos limit) where
    resume-Bounded :
        (w w₁ w₂ : W) (e : Err) (d : Duration) (next : Operation W) (r : Option Err × W)
        → op w ≡ (returned (some e), w₁)
        → retries f config e ≡ true
        → k < limit
        → calculate_delay f h config k w₁ ≡ (some d, w₂)
        → h.wait d (announce f h config k e d w₂) ≡ r
        → ((v : W) → Bounded limit (k + 1) v (next v))
        → Bounded limit k w (resume f h config next r)
    resume-Bounded w w₁ w₂ e d next (some c, w₃) ran retry more delayed waited later =
        (k, omega arith, within, cancelled ran delayed waited)
    resume-Bounded w w₁ w₂ e d next (none, w₃) ran retry more delayed waited later =
        let (n, low, high, run) = later w₃ in
        (n, omega arith, high, again ran retry (ground arith) delayed waited run)

    pause-Bounded :
        (w w₁ : W) (e : Err) (next : Operation W) (r : Option Duration × W)
        → op w ≡ (returned (some e), w₁)
        → retries f config e ≡ true
        → k < limit
        → calculate_delay f h config k w₁ ≡ r
        → ((v : W) → Bounded limit (k + 1) v (next v))
        → Bounded limit k w (pause f h config k e next r)
    pause-Bounded w w₁ e next (none, w₂) ran retry more delayed later =
        (k, omega arith, within, no_delay ran delayed)
    pause-Bounded w w₁ e next (some d, w₂) ran retry more delayed later =
        resume-Bounded w w₁ w₂ e d next _ ran retry more delayed refl later

    conclude-Bounded :
        (w : W) (next : Err → Operation W) (r : Outcome × W)
        → op w ≡ r
        → ((e : Err) (v : W) → k < limit → Bounded limit (k + 1) v (next e v))
        → Bounded limit k w (conclude f h config k next r)
    conclude-Bounded w next (panicked, w₁) ran later = (k, omega arith, within, crashes ran)
    conclude-Bounded w next (returned none, w₁) ran later = (k, omega arith, within, succeeds ran)
    conclude-Bounded w next (returned (some e), w₁) ran later =
        elim (Bool-cases (retries f config e)) [
          | inr stop ↦ rw stop (k, omega arith, within, refuses ran stop)
          | inl retry ↦ elim (Bool-cases (leb_ℤ config.max_attempts (pos k))) [
            | inl last ↦ rw (retry, last) (k, omega arith, within, runs_out ran (ground arith))
            | inr more ↦
                let more' : k < limit = ground arith in
                rw (retry, more)
                  (pause-Bounded w w₁ e (next e) _ ran retry more' refl (λ v. later e v more'))
          ]
        ]

  rounds-Bounded :
      (limit : ℕ)
      → config.max_attempts ≡ pos limit
      → (left k : ℕ) (last_err : Option Err) (w : W) → k ≤ limit
      → k + left ≡ limit + 1
      → Bounded limit k w (rounds f h config left k last_err op w)
  unfolding rounds
  rounds-Bounded limit is_limit zero k last_err w within e = absurd (omega arith)
  rounds-Bounded limit is_limit (suc left) k last_err w within e =
      conclude-Bounded limit k within is_limit w
        (λ err. rounds f h config left (k + 1) (some err) op) (op w) refl
        λ err v more.
          rounds-Bounded limit is_limit left (k + 1) (some err) v (omega arith) (omega arith)

  -- For a positive MaxAttempts, Execute is a run of attempts from the first: the operation is
  -- called at least once and at most MaxAttempts times, and each way in which the run may end is
  -- one of the relation's.
  pub execute-Run :
      (limit : ℕ) (w : W)
      → config.max_attempts ≡ pos limit
      → 0 < limit
      → (n : ℕ) × (1 ≤ n)
        × (n ≤ limit)
        × Run 1 n w (execute f h config op w).0 (execute f h config op w).1
  unfolding execute
  execute-Run limit w is_limit some_attempt =
      subst (λ left. Bounded limit 1 w (rounds f h config left 1 none op w))
        (sym (ap pos_part is_limit))
        (rounds-Bounded limit is_limit limit 1 none w some_attempt (omega arith))

  -- Where an error can come from: a call of the operation, or the end of the context in a wait.
  abbrev pub HasSource : Err → Type 0
  HasSource e =
      ((w : W) × ((op w).0 ≡ returned (some e)))
      ⊎ ((d : Duration) × (w : W) × ((h.wait d w).0 ≡ some e))

  Run-HasSource :
      {k n : ℕ} {w w' : W} {o : Outcome}
      → Run k n w o w'
      → (e : Err) → o ≡ returned (some e)
      → HasSource e
  Run-HasSource (succeeds ran) e is = cc
  Run-HasSource (crashes ran) e is = cc
  Run-HasSource (refuses {w} ran no_retry) e is = inl (w, ap (λ r. r.0) ran ∙ is)
  Run-HasSource (runs_out {w} ran last) e is = inl (w, ap (λ r. r.0) ran ∙ is)
  Run-HasSource (no_delay ran delayed) e is = cc
  Run-HasSource (cancelled {c} ran delayed waited) e is =
      inr (_, _, ap (λ r. r.0) waited ∙ ground arith)
  Run-HasSource (again ran retry more delayed waited run) e is = Run-HasSource run e is

  -- For a positive MaxAttempts, Execute makes no error of its own: what it returns was returned by
  -- the operation, or is the context's. In particular it does not turn the last error into
  -- ErrMaxRetriesExceeded.
  pub execute-HasSource :
      (limit : ℕ) (w : W) (e : Err)
      → config.max_attempts ≡ pos limit
      → 0 < limit
      → (execute f h config op w).0 ≡ returned (some e)
      → HasSource e
  execute-HasSource limit w e is_limit some_attempt is =
      let (n, low, high, run) = execute-Run limit w is_limit some_attempt in Run-HasSource run e is
