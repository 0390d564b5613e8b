-- ===== src/Calendar/Intersection/Throughout.antt =====
-- When the two moments that app/calendar/intersection.py tests stand for the whole slot.
use hound_bot.Base.{ℕ, ◌+◌, ◌/◌, ◌%◌, ◌≤◌, ◌<◌, ◌≡◌, String, Option, some, List, All}
use hound_bot.Time.{DateTime, hour, day}
use hound_bot.Exec.{BusyBlock, LocalTime}
use hound_bot.Calendar.Intersection.{zone_of}
use hound_bot.Calendar.Intersection.Slots.{AtWork}

-- What a clock shows that is `z` ahead of UTC; as the weeks repeat, `z` may stand for a clock behind.
abbrev pub clock_at : ℕ → DateTime → LocalTime
clock_at z t = record { weekday = (t + z) / day % 7; hour = (t + z) % day / hour }

-- A zone whose clock is never changed.
abbrev pub OneOffset : (String → DateTime → Option LocalTime) → String → Type 0
OneOffset local tz = (z : ℕ) × ((t : DateTime) → local tz t ≡ some (clock_at z t))

abbrev pub IsAtWork : LocalTime → Type 0
IsAtWork t = (t.weekday < 5) × (9 ≤ t.hour) × (t.hour < 17)

-- Everyone of the calendars is at work at the moment `m`.
abbrev pub AllAtWork :
    (String → DateTime → Option LocalTime)
    → List (String × String)
    → List (String × List BusyBlock)
    → DateTime
    → Type 0
AllAtWork local zones busy m =
    All (λ p. (tz : String) × (zone_of p.0 zones ≡ some tz) × AtWork local m tz) busy
