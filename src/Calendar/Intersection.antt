-- ===== src/Calendar/Intersection.antt =====
-- app/calendar/intersection.py: the earliest slot at which every participant is at work and free.
-- `local` is `moment.astimezone(ZoneInfo(tz))`, none where the zone is unknown.
pub mod Slots
pub mod Search
pub mod Total
pub mod Throughout
use hound_bot.Base.{
  ℕ, zero, suc, ◌+◌, ◌-◌, ◌/◌, String, Bool, true, false, not, ◌&&◌, Option, none, some, List, [],
  ◌∷◌, map, ◌==◌, contains, string_eq, any, ltb, leb, if◌then◌else◌,
}
use hound_bot.Base.Int.{ℤ, pos, negsuc}
use hound_bot.Time.{DateTime, TimeDelta, minute, add_delta, sub_delta}
use hound_bot.Exec.{
  Error, Result, ok, err, overflow_error, value_error, external, BusyBlock, LocalTime,
}

abbrev pub search_granularity : ℕ
search_granularity = 900_000_000

-- Python's `and` on tests that may raise.
abbrev pub and_then : Result Bool → Result Bool → Result Bool
and_then (ok true) r = r
and_then (ok false) r = ok false
and_then (err e) r = err e

abbrev pub hours_test : Option LocalTime → Result Bool
hours_test none = err (external "ZoneInfoNotFoundError")
hours_test (some t) = ok (if leb 5 t.weekday then false else leb 9 t.hour && ltb t.hour 17)

abbrev pub overlaps : DateTime → DateTime → BusyBlock → Bool
overlaps start stop block = ltb start block.end_utc && ltb block.start_utc stop

unfoldable pub overlaps_any : DateTime → DateTime → List BusyBlock → Bool
overlaps_any start stop busy_blocks = any (overlaps start stop) busy_blocks

-- `timezone_by_participant[participant]`
abbrev pub zone_of : String → List (String × String) → Option String
zone_of p [] = none
zone_of p ((q, tz) ∷ zones) = if q == p then some tz else zone_of p zones

abbrev pub keys : {V : Type 0} → List (String × V) → List String
keys [] = []
keys ((k, _) ∷ d) = k ∷ keys d

abbrev pub covers : List String → List String → Bool
covers [] ys = true
covers (x ∷ xs) ys = contains ys x && covers xs ys

abbrev pub same_keys : List String → List String → Bool
same_keys xs ys = covers xs ys && covers ys xs

-- What one turn of the loop does: it returns or raises, or goes on with the next candidate.
pub data Turn : Type 0 where
  halt : Result (Option DateTime) → Turn
  next : DateTime → Turn

module _ (local : String → DateTime → Option LocalTime) where
  unfoldable pub within_working_hours : DateTime → String → Result Bool
  within_working_hours moment tz = hours_test (local tz moment)

  unfoldable pub fits :
      DateTime → DateTime → DateTime → List BusyBlock → Option String → Result Bool
  unfolding within_working_hours overlaps_any
  fits candidate slot_end last_minute busy none = err (external "KeyError")
  fits candidate slot_end last_minute busy (some tz) =
      and_then (within_working_hours candidate tz) (
        and_then (within_working_hours last_minute tz)
          (ok (not (overlaps_any candidate slot_end busy))))

  module _ (zones : List (String × String)) where
    unfoldable pub fits_everyone :
        DateTime → DateTime → DateTime → List (String × List BusyBlock) → Result Bool
    unfolding fits
    fits_everyone candidate slot_end last_minute [] = ok true
    fits_everyone candidate slot_end last_minute ((p, busy) ∷ rest) =
        and_then (fits candidate slot_end last_minute busy (zone_of p zones))
          (fits_everyone candidate slot_end last_minute rest)

    module _ (busy : List (String × List BusyBlock)) (duration : TimeDelta)
        (window_end : DateTime) where
      -- `candidate += SEARCH_GRANULARITY`
      abbrev pub advance : Option DateTime → Turn
      advance none = halt (err overflow_error)
      advance (some candidate) = next candidate

      abbrev pub decide_turn : DateTime → Result Bool → Turn
      decide_turn candidate (err e) = halt (err e)
      decide_turn candidate (ok true) = halt (ok (some candidate))
      decide_turn candidate (ok false) = advance (add_delta candidate (pos search_granularity))

      abbrev pub try_slot : DateTime → DateTime → Option DateTime → Turn
      try_slot candidate slot_end none = halt (err overflow_error)
      try_slot candidate slot_end (some last_minute) =
          decide_turn candidate (fits_everyone candidate slot_end last_minute busy)

      abbrev pub within_window : DateTime → Option DateTime → Turn
      within_window candidate none = halt (err overflow_error)
      within_window candidate (some slot_end) =
          if leb slot_end window_end
          then try_slot candidate slot_end (sub_delta slot_end minute)
          else halt (ok none)

      unfoldable pub turn : DateTime → Turn
      turn candidate = within_window candidate (add_delta candidate duration)

      abbrev pub follow : (DateTime → Result (Option DateTime)) → Turn → Result (Option DateTime)
      follow rest (halt r) = r
      follow rest (next candidate) = rest candidate

      unfoldable pub search_from : ℕ → DateTime → Result (Option DateTime)
      search_from zero candidate = ok none
      search_from (suc fuel) candidate = follow (search_from fuel) (turn candidate)

-- How far before the end of the window the last candidate can lie past it.
abbrev pub magnitude : TimeDelta → ℕ
magnitude (pos d) = 0
magnitude (negsuc d) = suc d

-- More turns than the loop makes.
abbrev pub turns : DateTime → DateTime → TimeDelta → ℕ
turns start stop duration = suc ((stop + magnitude duration - start) / search_granularity)

unfoldable pub find_earliest_slot :
    (String → DateTime → Option LocalTime)
    → List (String × List BusyBlock)
    → List (String × String)
    → TimeDelta
    → DateTime
    → DateTime
    → Result (Option DateTime)
unfolding search_from turn fits_everyone
find_earliest_slot local busy zones duration window_start window_end =
    if same_keys (keys busy) (keys zones)
    then search_from local zones busy duration window_end (turns window_start window_end duration)
        window_start
    else err (
        value_error
          "busy_by_participant and timezone_by_participant must cover the same participants")
