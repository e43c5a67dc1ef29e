-- ===== src/Resilience/Bulkhead/Interleaving.antt =====
-- Goroutines that enter and leave at once: what always holds of the counters, and that the number of
-- active operations can be counted above the limit.
use toolops.Base.{ℕ, zero, suc, ◌+◌, ◌-◌, ◌≤◌, ◌<◌, ◌≡◌, true, arith}
use toolops.Base.Int.{pos, negsuc, pos_part, neg_part, ◌≤ℤ◌}
use toolops.Resilience.Bulkhead.{
  Bulkhead, BulkheadConfig, new_bulkhead, has_room, send, count_in, receive, count_out,
  count_rejected, metrics,
}

-- The bulkhead, the goroutines between their send and `active++`, and those between their receive
-- and `active--`.
pub record Scene : Type 0 where
  pub bulkhead : Bulkhead
  pub entering : ℕ
  pub leaving : ℕ

pub data Step : Scene → Scene → Type 0 where
  sends :
      (s : Scene)
      → has_room s.bulkhead ≡ true
      → Step s (record s { bulkhead = send s.bulkhead; entering = s.entering + 1 })
  counts_in :
      (s : Scene)
      → 0 < s.entering
      → Step s (record s { bulkhead = count_in s.bulkhead; entering = s.entering - 1 })
  receives :
      (s : Scene)
      → 0 < s.bulkhead.sem
      → Step s (record s { bulkhead = receive s.bulkhead; leaving = s.leaving + 1 })
  counts_out :
      (s : Scene)
      → 0 < s.leaving
      → Step s (record s { bulkhead = count_out s.bulkhead; leaving = s.leaving - 1 })
  rejects : (s : Scene) → Step s (record s { bulkhead = count_rejected s.bulkhead })

pub data Reach (s : Scene) : Scene → Type 0 where
  here : Reach s s
  next : {t u : Scene} → Reach s t → Step t u → Reach s u

abbrev pub start : BulkheadConfig → Scene
start config = record { bulkhead = new_bulkhead config; entering = 0; leaving = 0 }

pub record IsConsistent (s : Scene) : Type 0 where
  pub within : pos s.bulkhead.sem ≤ℤ s.bulkhead.max_concurrent
  -- active + entering = sem + leaving
  pub balanced :
      pos_part s.bulkhead.active + s.entering
      ≡ s.bulkhead.sem + s.leaving + neg_part s.bulkhead.active
  pub peaked : s.bulkhead.active ≤ℤ s.bulkhead.max_active

Step-IsConsistent : {s t : Scene} → Step s t → IsConsistent s → IsConsistent t
Step-IsConsistent (sends s room) c = ground arith
Step-IsConsistent (counts_in s some) c = ground arith
Step-IsConsistent (receives s some) c = ground arith
Step-IsConsistent (counts_out s some) c = ground arith
Step-IsConsistent (rejects s) c = ground arith

Reach-IsConsistent : {s t : Scene} → Reach s t → IsConsistent s → IsConsistent t
Reach-IsConsistent here c = c
Reach-IsConsistent (next r step) c = Step-IsConsistent step (Reach-IsConsistent r c)

-- However goroutines enter and leave, when none is between its channel operation and its counter,
-- `active` is the number of slots taken and is at most MaxConcurrent, and `maxActive` is no less.
pub Reach-active_settled :
    (config : BulkheadConfig) {s : Scene}
    → Reach (start config) s
    → s.entering ≡ 0
    → s.leaving ≡ 0
    → (s.bulkhead.active ≡ pos s.bulkhead.sem)
      × (pos s.bulkhead.sem ≤ℤ s.bulkhead.max_concurrent)
      × (s.bulkhead.active ≤ℤ s.bulkhead.max_active)
unfolding new_bulkhead
Reach-active_settled config r none_in none_out =
    ground (arith, Reach-IsConsistent r (let c : IsConsistent (start config) = ground arith in c))

record IsFilled (m k : ℕ) (s : Scene) : Type 0 where
  limit : s.bulkhead.max_concurrent ≡ pos m
  taken : s.bulkhead.sem ≡ k
  counted : s.bulkhead.active ≡ pos k
  none_in : s.entering ≡ 0
  none_out : s.leaving ≡ 0

enters : (s : Scene) → Scene
enters s = record s { bulkhead = count_in (send s.bulkhead); entering = s.entering + 1 - 1 }

enters-Reach : (z s : Scene) → has_room s.bulkhead ≡ true → Reach z s → Reach z (enters s)
unfolding enters
enters-Reach z s room r = next (next r (sends s room)) (counts_in _ (omega arith))

fill :
    (config : BulkheadConfig) (m k : ℕ)
    → config.max_concurrent ≡ pos (suc m)
    → k ≤ suc m
    → (s : Scene) × Reach (start config) s × IsFilled (suc m) k s
unfolding new_bulkhead enters
fill config m zero e fits = (start config, here, ground arith)
fill config m (suc k) e fits =
    let (s, r, full) = fill config m k e (omega arith) in
    (enters s, enters-Reach (start config) s (ground arith) r, ground arith)

-- For every limit there is an order of steps after which Metrics reports one operation more than
-- MaxConcurrent as active, and -1 slots as available: a goroutine that has left the channel and not yet
-- decremented `active` is counted beside the one that took its slot.
pub active_overshoots :
    (config : BulkheadConfig) (m : ℕ)
    → config.max_concurrent ≡ pos (suc m)
    → (s : Scene) × Reach (start config) s
      × ((metrics s.bulkhead).active ≡ pos (suc (suc m)))
      × ((metrics s.bulkhead).available ≡ negsuc 0)
unfolding metrics enters
active_overshoots config m e =
    let (s, r, full) = fill config m (suc m) e (omega arith) in
    let t = record s { bulkhead = receive s.bulkhead; leaving = s.leaving + 1 } in
    (
      enters t,
      enters-Reach (start config) t (ground arith) (next r (receives s (ground arith))),
      ground arith,
      ground arith,
    )
