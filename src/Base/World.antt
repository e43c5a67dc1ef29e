-- ===== src/Base/World.antt =====
-- The world that code runs in, and the places in it where state is kept.
use toolops.Base.{◌≡◌}

-- A part of the world that a pattern keeps its state in.
pub record Cell (W S : Type 0) : Type 0 where
  pub get : W → S
  pub put : S → W → W
  pub get-put : (s : S) (w : W) → get (put s w) ≡ s
