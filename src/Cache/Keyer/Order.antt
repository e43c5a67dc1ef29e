-- ===== src/Cache/Keyer/Order.antt =====
-- Sorting forgets the order of different keys.
use toolops.Base.{◌≡◌, false, Option, List, [], ◌∷◌, arith}
use toolops.Base.Text.{Text, ◌=ᵗ◌}
use toolops.Base.Sort.{before_total, before_trans}
use toolops.Cache.Keyer.{insert_key}

pub insert_key_swap :
    (j k : Text) (v w : Option Text) (es : List (Text × Option Text))
    → (j =ᵗ k) ≡ false
    → insert_key j v (insert_key k w es) ≡ insert_key k w (insert_key j v es)
unfolding insert_key
insert_key_swap j k v w [] h = ground (arith, before_total j k h)
insert_key_swap j k v w ((i, u) ∷ es) h = ground (
  arith,
  before_total j k h,
  before_trans j k i,
  before_trans k j i,
  insert_key_swap j k v w es h,
)
