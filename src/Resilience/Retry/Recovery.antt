-- ===== src/Resilience/Retry/Recovery.antt =====
-- Execute on an operation that fails for a while and then succeeds.
use toolops.Base.{
  ℕ, zero, suc, ◌+◌, ◌/◌, ◌<◌, ◌≡◌, refl, ap, sym, subst, ◌∙◌, true, false, Option, none, some,
  is_some, arith, Bool-cases, inl, inr,
}
use toolops.Base.Int.{pos, pos_part, leb_ℤ, ◌≤ℤ◌}
use toolops.Base.Time.{Duration}
use toolops.Base.Float.{Float64}
use toolops.Resilience.Operation.{Err, Outcome, returned, panicked, Operation}
use toolops.Resilience.Retry.{
  RetryConfig, Host, retries, capped_delay, calculate_delay, announce, conclude, pause, resume,
  rounds, execute,
}

module _ {W : Type 0} (f : Float64) (h : Host W) (config : RetryConfig f) (op : Operation W) where
  -- What the operation and the runtime leave alone.
  pub record Keeps {A : Type 0} (g : W → A) : Type 0 where
    pub keeps-op : (w : W) → g (op w).1 ≡ g w
    pub keeps-int64_n : (n : ℕ) (w : W) → g (h.int64_n n w).1 ≡ g w
    pub keeps-on_retry : (k : ℕ) (e : Err) (d : Duration) (w : W) → g (h.on_retry k e d w) ≡ g w
    pub keeps-wait : (d : Duration) (w : W) → g (h.wait d w).1 ≡ g w

  -- An operation that has `left w` failures ahead in the world `w`, all of them retried, while no
  -- context ends.
  pub record IsTransient (left : W → ℕ) : Type 0 where
    pub succeeds : (w : W) → left w ≡ 0 → (op w).0 ≡ returned none
    pub fails :
        (w : W) (n : ℕ)
        → left w ≡ suc n
        → (e : Err) × ((op w).0 ≡ returned (some e))
          × (retries f config e ≡ true)
          × (left (op w).1 ≡ n)
    pub left-int64_n : (n : ℕ) (w : W) → left (h.int64_n n w).1 ≡ left w
    pub left-on_retry :
        (k : ℕ) (e : Err) (d : Duration) (w : W) → left (h.on_retry k e d w) ≡ left w
    pub waits : (d : Duration) (w : W) → (h.wait d w).0 ≡ none
    pub left-wait : (d : Duration) (w : W) → left (h.wait d w).1 ≡ left w

  calculate_delay_keeps :
      {A : Type 0} (g : W → A) (k : ℕ) (w : W)
      → ((n : ℕ) (v : W) → g (h.int64_n n v).1 ≡ g v)
      → g (calculate_delay f h config k w).1 ≡ g w
  unfolding calculate_delay
  calculate_delay_keeps g k w keeps =
      ground (arith, keeps (pos_part (capped_delay f config k) / 4) w)

  calculate_delay_found :
      (k : ℕ) (w : W)
      → (config.jitter ≡ true → pos 4 ≤ℤ capped_delay f config k)
      → is_some (calculate_delay f h config k w).0 ≡ true
  unfolding calculate_delay
  calculate_delay_found k w enough = ground arith

  announce_keeps :
      {A : Type 0} (g : W → A) (k : ℕ) (e : Err) (d : Duration) (w : W)
      → ((k : ℕ) (e : Err) (d : Duration) (v : W) → g (h.on_retry k e d v) ≡ g v)
      → g (announce f h config k e d w) ≡ g w
  announce_keeps g k e d w keeps = elim (Bool-cases config.on_retry) [
    | inl set ↦ rw set (keeps k e d w)
    | inr unset ↦ rw unset refl
  ]

  -- Whatever the four leave alone, Execute leaves alone.
  module _ {A : Type 0} (g : W → A) (keeps : Keeps g) where
    resume_keeps :
        (next : Operation W) (r : Option Err × W)
        → ((v : W) → g (next v).1 ≡ g v)
        → g (resume f h config next r).1 ≡ g r.1
    resume_keeps next (some c, w) later = refl
    resume_keeps next (none, w) later = later w

    pause_keeps :
        (k : ℕ) (e : Err) (next : Operation W) (r : Option Duration × W)
        → ((v : W) → g (next v).1 ≡ g v)
        → g (pause f h config k e next r).1 ≡ g r.1
    pause_keeps k e next (none, w) later = refl
    pause_keeps k e next (some d, w) later =
        resume_keeps next (h.wait d (announce f h config k e d w)) later
        ∙ keeps.keeps-wait d _
        ∙ announce_keeps g k e d w keeps.keeps-on_retry

    conclude_keeps :
        (k : ℕ) (next : Err → Operation W) (r : Outcome × W)
        → ((e : Err) (v : W) → g (next e v).1 ≡ g v)
        → g (conclude f h config k next r).1 ≡ g r.1
    conclude_keeps k next (panicked, w) later = refl
    conclude_keeps k next (returned none, w) later = refl
    conclude_keeps k next (returned (some e), w) later = elim (Bool-cases (retries f config e)) [
      | inr stop ↦ rw stop refl
      | inl retry ↦ elim (Bool-cases (leb_ℤ config.max_attempts (pos k))) [
        | inl last ↦ rw (retry, last) refl
        | inr more ↦
            rw (retry, more)
              (pause_keeps k e (next e) (calculate_delay f h config k w) (later e)
                ∙ calculate_delay_keeps g k w keeps.keeps-int64_n)
      ]
    ]

    rounds_keeps :
        (left k : ℕ) (last_err : Option Err) (w : W)
        → g (rounds f h config left k last_err op w).1 ≡ g w
    unfolding rounds
    rounds_keeps zero k last_err w = refl
    rounds_keeps (suc left) k last_err w =
        conclude_keeps k (λ err. rounds f h config left (k + 1) (some err) op) (op w)
          (λ e v. rounds_keeps left (k + 1) (some e) v)
        ∙ keeps.keeps-op w

    pub execute_keeps : (w : W) → g (execute f h config op w).1 ≡ g w
    unfolding execute
    execute_keeps w = rounds_keeps (pos_part config.max_attempts) 1 none w

  -- The last attempt that succeeds is within the limit.
  module _ (limit : ℕ) (is_limit : config.max_attempts ≡ pos limit) (left : W → ℕ)
      (transient : IsTransient left)
      (enough : (k : ℕ) → config.jitter ≡ true → pos 4 ≤ℤ capped_delay f config k) where
    resume_recovers :
        (n : ℕ) (next : Operation W) (r : Option Err × W)
        → r.0 ≡ none
        → left r.1 ≡ n
        → ((v : W) → left v ≡ n → (next v).0 ≡ returned none)
        → (resume f h config next r).0 ≡ returned none
    resume_recovers n next (some c, w) is at later = absurd (ground (arith, is))
    resume_recovers n next (none, w) is at later = later w at

    pause_recovers :
        (n k : ℕ) (e : Err) (next : Operation W) (r : Option Duration × W)
        → is_some r.0 ≡ true
        → left r.1 ≡ n
        → ((v : W) → left v ≡ n → (next v).0 ≡ returned none)
        → (pause f h config k e next r).0 ≡ returned none
    pause_recovers n k e next (none, w) is at later = absurd (ground (arith, is))
    pause_recovers n k e next (some d, w) is at later =
        resume_recovers n next (h.wait d (announce f h config k e d w)) (transient.waits d _)
          (transient.left-wait d _ ∙ announce_keeps left k e d w transient.left-on_retry ∙ at) later

    conclude_recovers :
        (n k : ℕ) (e : Err) (next : Err → Operation W) (r : Outcome × W)
        → r.0 ≡ returned (some e)
        → retries f config e ≡ true
        → k < limit
        → left r.1 ≡ n
        → ((v : W) → left v ≡ n → (next e v).0 ≡ returned none)
        → (conclude f h config k next r).0 ≡ returned none
    conclude_recovers n k e next (o, w) is retry more at later =
        let delayed = calculate_delay f h config k w in
        let not_last : leb_ℤ config.max_attempts (pos k) ≡ false = ground arith in
        rw (is, retry, not_last)
          (pause_recovers n k e (next e) delayed (calculate_delay_found k w (enough k))
            (calculate_delay_keeps left k w transient.left-int64_n ∙ at) later)

    conclude_succeeds :
        (k : ℕ) (next : Err → Operation W) (r : Outcome × W)
        → r.0 ≡ returned none
        → (conclude f h config k next r).0 ≡ returned none
    conclude_succeeds k next (o, w) is = rw is refl

    rounds_recovers :
        (n rest k : ℕ) (last_err : Option Err) (w : W)
        → left w ≡ n
        → n < rest
        → k + rest ≡ limit + 1
        → (rounds f h config rest k last_err op w).0 ≡ returned none
    unfolding rounds
    rounds_recovers n zero k last_err w at fits e = absurd (omega arith)
    rounds_recovers zero (suc rest) k last_err w at fits e =
        conclude_succeeds k (λ err. rounds f h config rest (k + 1) (some err) op) (op w)
          (transient.succeeds w at)
    rounds_recovers (suc n) (suc rest) k last_err w at fits e =
        let (err, ran, retry, at') = transient.fails w n at in
        conclude_recovers n k err (λ err. rounds f h config rest (k + 1) (some err) op) (op w) ran
          retry (omega arith) at'
          (λ v at''. rounds_recovers n rest (k + 1) (some err) v at'' (omega arith) (omega arith))

  -- An operation that fails fewer than MaxAttempts times, each time with an error that is retried, and
  -- then succeeds, has success as the result of Execute, where no context ends in a wait and no delay
  -- before jitter is below 4 nanoseconds.
  pub execute_recovers :
      (limit : ℕ) (left : W → ℕ) (w : W)
      → config.max_attempts ≡ pos limit
      → IsTransient left
      → ((k : ℕ) → config.jitter ≡ true → pos 4 ≤ℤ capped_delay f config k)
      → left w < limit
      → (execute f h config op w).0 ≡ returned none
  unfolding execute
  execute_recovers limit left w is_limit transient enough fits =
      subst (λ rest. (rounds f h config rest 1 none op w).0 ≡ returned none)
        (sym (ap pos_part is_limit))
        (rounds_recovers limit is_limit left transient enough (left w) limit 1 none w refl fits
          (omega arith))
