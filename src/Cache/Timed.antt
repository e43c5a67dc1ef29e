-- ===== src/Cache/Timed.antt =====
-- cache/cache.go: what callers of the interface Cache rely on.
use toolops.Base.{◌≡◌, ◌≤◌, some}
use toolops.Base.Int.{pos, ◌<ℤ◌}
use toolops.Base.Time.{Instant, Duration, add}
use toolops.Base.Text.{Text}
use toolops.Cache.Key.{Cache}

-- A cache that keeps what it holds where `view` sees it: what Set stored with a positive TTL is found until the
-- TTL has passed, if the cache was left alone meanwhile.
pub record IsTimed {W S : Type 0} (cache : Cache W) (now : W → Instant) (view : W → S)
    : Type 0 where
  pub get-set :
      (key value : Text) (ttl : Duration) (w v : W)
      → pos 0 <ℤ ttl
      → view v ≡ view (cache.set key value ttl w).1
      → now v ≤ add (now w) ttl
      → (cache.get key v).0 ≡ some value
