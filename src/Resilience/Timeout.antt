-- ===== src/Resilience/Timeout.antt =====
-- resilience/timeout.go: a deadline on an operation.
pub mod Sources
use toolops.Base.{◌≡◌, ◌*◌, Option, some}
use toolops.Base.Int.{or_default}
use toolops.Base.Time.{Duration, second}
use toolops.Resilience.Operation.{Err, err_timeout, deadline_exceeded, Outcome, returned, Operation}

pub record TimeoutConfig : Type 0 where
  pub timeout : Duration

unfoldable pub new_timeout : TimeoutConfig → TimeoutConfig
new_timeout config = record { timeout = or_default config.timeout (30 * second) }

-- The case of the `select`: the operation's end, or the end of the derived context with its error.
pub data Raced : Type 0 where
  finished : Option Err → Raced
  expired : Err → Raced

-- context.WithTimeout, the goroutine and the `select`: the runtime runs the operation under the
-- deadline until it has ended or the context has. A panic in the goroutine ends the program, so there
-- is no case for it.
pub record Host (W : Type 0) : Type 0 where
  pub race : Duration → Operation W → W → Raced × W
  -- What has ended is the operation.
  pub race-finished :
      (d : Duration) (op : Operation W) (w : W) (err : Option Err)
      → (race d op w).0 ≡ finished err
      → (v : W) × ((op v).0 ≡ returned err)

abbrev pub settle : Raced → Outcome
settle (finished err) = returned err
settle (expired deadline_exceeded) = returned (some err_timeout)
settle (expired err) = returned (some err)

module _ {W : Type 0} (h : Host W) where
  unfoldable pub execute : TimeoutConfig → Operation W → Operation W
  execute t op w = let (r, w') = h.race t.timeout op w in (settle r, w')

  -- ExecuteWithTimeout
  unfoldable pub execute_with_timeout : Duration → Operation W → Operation W
  execute_with_timeout timeout op w = execute (new_timeout (record { timeout = timeout })) op w
