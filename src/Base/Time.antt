-- ===== src/Base/Time.antt =====
-- The time package: an instant is the number of nanoseconds since the zero Time (so `0` is the zero
-- Time), a Duration is an int64 of nanoseconds.
use toolops.Base.{◌*◌, ℕ, ◌+◌, ◌-◌, Bool, ltb, leb, ◌==◌, if◌then◌else◌, min}
use toolops.Base.Int.{◌+ℤ◌, wrap64, ℤ, pos, negsuc, pos_part, neg_part, two_63}

abbrev pub Instant : Type 0
Instant = ℕ

abbrev pub Duration : Type 0
Duration = ℤ

abbrev pub millisecond : ℕ
millisecond = 1_000_000

abbrev pub second : ℕ
second = 1_000_000_000

-- `now.Sub(t)` saturates at the ends of the int64 range.
unfoldable pub since : Instant → Instant → Duration
since now t =
    if leb t now then pos (min (now - t) (two_63 - 1)) else negsuc (min (t - now - 1) (two_63 - 1))

-- `t.Add(d)`
abbrev pub add : Instant → Duration → Instant
add t d = t + pos_part d - neg_part d

-- `t.After(u)`
abbrev pub after : Instant → Instant → Bool
after t u = ltb u t

-- `t.IsZero()`
abbrev pub is_zero : Instant → Bool
is_zero t = t == 0

-- The seconds from the zero Time to the Unix epoch.
abbrev unix_to_internal : ℕ
unix_to_internal = 62_135_596_800

-- An instant before the zero Time stands as the first nanosecond after it: it is past and not zero.
abbrev internal : ℤ → Instant
internal (pos s) = s * second
internal (negsuc s) = 1

-- `time.Unix(sec, 0)`, which adds within int64.
unfoldable pub unix : ℤ → Instant
unfolding wrap64
unix sec = internal (wrap64 (sec +ℤ pos unix_to_internal))
