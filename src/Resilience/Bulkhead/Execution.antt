-- ===== src/Resilience/Bulkhead/Execution.antt =====
-- Acquire and Execute where no other goroutine is between its channel operation and its counter.
use toolops.Base.{◌≡◌, refl, ap, ◌∙◌, true, false, Option, none, some, arith, Bool-cases, inl, inr}
use toolops.Base.Int.{ℤ, pos, leb_ℤ, ◌≤ℤ◌}
use toolops.Resilience.Operation.{Err, err_bulkhead_full, returned, Operation}
use toolops.Resilience.Bulkhead.{
  Bulkhead, Host, Woken, sent, timed_out, done, has_room, send, count_in, count_rejected, release,
  acquire, execute, update, woken, enter, leave,
}

pub record IsSettled (b : Bulkhead) : Type 0 where
  pub counted : b.active ≡ pos b.sem
  pub within : pos b.sem ≤ℤ b.max_concurrent

acquired-IsSettled :
    (b : Bulkhead) → has_room b ≡ true → IsSettled b → IsSettled (count_in (send b))
acquired-IsSettled b room s = ground arith

rejected-IsSettled : (b : Bulkhead) → IsSettled b → IsSettled (count_rejected b)
rejected-IsSettled b s = ground arith

release-IsSettled : (b : Bulkhead) → IsSettled b → IsSettled (release b)
unfolding release
release-IsSettled b s = ground arith

release_taken :
    (b : Bulkhead)
    → let c = release (count_in (send b)) in
      (c.sem ≡ b.sem) × (c.active ≡ b.active) × (c.rejected ≡ b.rejected)
unfolding release
release_taken b = ground arith

module _ {W : Type 0} (h : Host W) where
  open h use {bulkhead, wait_slot}

  -- What Acquire makes of the bulkhead it ends on: a slot taken and counted, or only the rejection
  -- counted, or nothing.
  pub data Acquired (b : Bulkhead) : Option Err → Bulkhead → Type 0 where
    takes : has_room b ≡ true → Acquired b none (count_in (send b))
    full : Acquired b (some err_bulkhead_full) (count_rejected b)
    gives_up : (err : Err) → Acquired b (some err) b

  Acquired-IsSettled :
      {b b' : Bulkhead} {o : Option Err} → Acquired b o b' → IsSettled b → IsSettled b'
  Acquired-IsSettled (takes room) s = acquired-IsSettled _ room s
  Acquired-IsSettled full s = rejected-IsSettled _ s
  Acquired-IsSettled (gives_up err) s = s

  woken-Acquired :
      (r : Woken × W)
      → ((r.0 ≡ sent) → has_room (bulkhead.get r.1) ≡ true)
      → Acquired (bulkhead.get r.1) (woken h r).0 (bulkhead.get (woken h r).1)
  woken-Acquired (sent, w') room = rw bulkhead.get-put (takes (room refl))
  woken-Acquired (timed_out, w') room = rw bulkhead.get-put full
  woken-Acquired (done err, w') room = gives_up err

  acquire-IsSettled :
      (w : W)
      → ((d : ℤ) (v : W) → IsSettled (bulkhead.get v) → IsSettled (bulkhead.get (wait_slot d v).1))
      → IsSettled (bulkhead.get w)
      → IsSettled (bulkhead.get (acquire h w).1)
  unfolding acquire
  acquire-IsSettled w quiet s = elim (Bool-cases (has_room (bulkhead.get w))) [
    | inl room ↦ rw (room, bulkhead.get-put) (acquired-IsSettled _ room s)
    | inr crowded ↦ elim (Bool-cases (leb_ℤ (bulkhead.get w).max_wait (pos 0))) [
      | inl at_once ↦ rw (crowded, at_once, bulkhead.get-put) (rejected-IsSettled _ s)
      | inr waits ↦
          rw (crowded, waits)
            (Acquired-IsSettled
              (woken-Acquired (wait_slot (bulkhead.get w).max_wait w) (h.sent-room _ w))
              (quiet _ w s))
    ]
  ]

  acquire_room :
      (w : W)
      → has_room (bulkhead.get w) ≡ true
      → acquire h w ≡ (none, update h (λ c. count_in (send c)) w)
  unfolding acquire
  acquire_room w room = rw room

  -- With room, Execute runs the operation in a slot and gives the slot back, also when the operation
  -- panics: the outcome is the operation's, and the channel, `active` and `rejected` are as before.
  -- The operation, and other goroutines meanwhile, are taken to leave the bulkhead as they find it.
  pub execute_restores :
      (op : Operation W) (w : W)
      → has_room (bulkhead.get w) ≡ true
      → bulkhead.get (op (update h (λ c. count_in (send c)) w)).1
        ≡ bulkhead.get (update h (λ c. count_in (send c)) w)
      → let b = bulkhead.get w in
        let b' = bulkhead.get (execute h op w).1 in
        ((execute h op w).0 ≡ (op (update h (λ c. count_in (send c)) w)).0)
        × (b'.sem ≡ b.sem)
        × (b'.active ≡ b.active)
        × (b'.rejected ≡ b.rejected)
  unfolding execute
  execute_restores op w room quiet =
      let b = bulkhead.get w in
      let ran : execute h op w ≡ leave h (op (update h (λ c. count_in (send c)) w)) =
        ap (enter h op) (acquire_room w room) in
      let final : bulkhead.get (execute h op w).1 ≡ release (count_in (send b)) =
        ap (λ r. bulkhead.get r.1) ran
        ∙ bulkhead.get-put _ _
        ∙ ap release (quiet ∙ bulkhead.get-put _ _) in
      let (sem, active, rejected) = release_taken b in
      (
        ap (λ r. r.0) ran,
        ap (λ c. c.sem) final ∙ sem,
        ap (λ c. c.active) final ∙ active,
        ap (λ c. c.rejected) final ∙ rejected,
      )

  -- Without room and without MaxWait, Execute returns ErrBulkheadFull at once: the operation does not
  -- run, and only `rejected` changes.
  pub execute_full :
      (op : Operation W) (w : W)
      → has_room (bulkhead.get w) ≡ false
      → (bulkhead.get w).max_wait ≤ℤ pos 0
      → execute h op w ≡ (returned (some err_bulkhead_full), update h count_rejected w)
  unfolding execute acquire
  execute_full op w crowded at_once =
      let at_once' : leb_ℤ (bulkhead.get w).max_wait (pos 0) ≡ true = ground arith in
      rw crowded (rw at_once')
