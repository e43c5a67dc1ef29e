-- ===== src/Resilience/Bulkhead.antt =====
-- resilience/bulkhead.go: a semaphore channel with counters beside it.
--
-- The channel is its length `sem` and its capacity, which is MaxConcurrent. Each of the pieces below
-- is one step that no other goroutine can divide: a send or a receive on the channel, and each section
-- that the mutex guards.
pub mod Interleaving
pub mod Execution
pub mod Sources
use toolops.Base.{ℕ, suc, ◌+◌, ◌-◌, ◌==◌, ◌≡◌, Bool, true, false, Option, none, some, if◌then◌else◌}
use toolops.Base.Int.{ℤ, pos, negsuc, leb_ℤ, ltb_ℤ, ◌+ℤ◌, ◌<ℤ◌, wrap64, or_default}
use toolops.Base.Time.{Duration}
use toolops.Base.World.{Cell}
use toolops.Resilience.Operation.{Err, err_bulkhead_full, Outcome, returned, panicked, Operation}

pub record BulkheadConfig : Type 0 where
  pub max_concurrent : ℤ
  pub max_wait : Duration

pub record Bulkhead : Type 0 where
  pub max_concurrent : ℤ
  pub max_wait : Duration
  pub sem : ℕ
  pub active : ℤ
  pub max_active : ℤ
  pub rejected : ℤ

unfoldable pub new_bulkhead : BulkheadConfig → Bulkhead
new_bulkhead config = record {
  max_concurrent = or_default config.max_concurrent 10;
  max_wait = config.max_wait;
  sem = 0;
  active = pos 0;
  max_active = pos 0;
  rejected = pos 0;
}

-- Whether a send on the channel would not block.
abbrev pub has_room : Bulkhead → Bool
has_room b = ltb_ℤ (pos b.sem) b.max_concurrent

abbrev pub send : Bulkhead → Bulkhead
send b = record b { sem = b.sem + 1 }

abbrev pub count_in : Bulkhead → Bulkhead
count_in b = record b {
  active = b.active +ℤ pos 1;
  max_active = if ltb_ℤ b.max_active (b.active +ℤ pos 1) then b.active +ℤ pos 1 else b.max_active;
}

abbrev pub receive : Bulkhead → Bulkhead
receive b = record b { sem = b.sem - 1 }

abbrev pub count_out : Bulkhead → Bulkhead
count_out b = record b { active = b.active +ℤ negsuc 0 }

abbrev pub count_rejected : Bulkhead → Bulkhead
count_rejected b = record b { rejected = wrap64 (b.rejected +ℤ pos 1) }

-- Release; an empty channel is left alone.
unfoldable pub release : Bulkhead → Bulkhead
release b = if b.sem == 0 then b else count_out (receive b)

pub record BulkheadMetrics : Type 0 where
  pub active : ℤ
  pub max_active : ℤ
  pub available : ℤ
  pub max_concurrent : ℤ
  pub rejected : ℤ

abbrev minus : ℤ → ℤ
minus (pos ℕ.zero) = pos 0
minus (pos (suc n)) = negsuc n
minus (negsuc n) = pos (suc n)

unfoldable pub metrics : Bulkhead → BulkheadMetrics
metrics b = record {
  active = b.active;
  max_active = b.max_active;
  available = b.max_concurrent +ℤ minus b.active;
  max_concurrent = b.max_concurrent;
  rejected = b.rejected;
}

-- The case that the `select` of the waiting path takes.
pub data Woken : Type 0 where
  sent timed_out : Woken
  done : Err → Woken

-- The bulkhead in the world, and the wait for a slot, the timer or the context. It ends in the world in
-- which the chosen case is taken; a send is chosen only where it does not block.
pub record Host (W : Type 0) : Type 0 where
  pub bulkhead : Cell W Bulkhead
  pub wait_slot : Duration → W → Woken × W
  pub sent-room :
      (d : Duration) (w : W)
      → (wait_slot d w).0 ≡ sent
      → has_room (bulkhead.get (wait_slot d w).1) ≡ true

module _ {W : Type 0} (h : Host W) where
  open h use {bulkhead, wait_slot}

  abbrev pub update : (Bulkhead → Bulkhead) → W → W
  update f w = bulkhead.put (f (bulkhead.get w)) w

  abbrev woken : Woken × W → Option Err × W
  woken (sent, w) = (none, update (λ b. count_in (send b)) w)
  woken (timed_out, w) = (some err_bulkhead_full, update count_rejected w)
  woken (done err, w) = (some err, w)

  unfoldable pub acquire : W → Option Err × W
  acquire w =
      if has_room (bulkhead.get w)
      then (none, update (λ b. count_in (send b)) w)
      else if leb_ℤ (bulkhead.get w).max_wait (pos 0)
      then (some err_bulkhead_full, update count_rejected w)
      else woken (wait_slot (bulkhead.get w).max_wait w)

  -- The deferred Release runs after a panic too.
  abbrev leave : Outcome × W → Outcome × W
  leave (o, w) = (o, update release w)

  abbrev enter : Operation W → Option Err × W → Outcome × W
  enter op (some err, w) = (returned (some err), w)
  enter op (none, w) = leave (op w)

  unfoldable pub execute : Operation W → Operation W
  execute op w = enter op (acquire w)
