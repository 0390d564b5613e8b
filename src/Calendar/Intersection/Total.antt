-- ===== src/Calendar/Intersection/Total.antt =====
-- The search raises nothing where the zones are known and the window is away from the calendar's
-- end.
use hound_bot.Base.{
  ℕ, zero, suc, ◌+◌, ◌≤◌, ◌≡◌, refl, String, Bool, true, false, Option, none, some, List, [], ◌∷◌,
  leb, Bool-cases, inl, inr, All, arith,
}
use hound_bot.Base.Int.{pos}
use hound_bot.Time.{DateTime, minute, datetime_max}
use hound_bot.Exec.{Result, ok, BusyBlock, LocalTime}
use hound_bot.Calendar.Intersection.{
  search_granularity, Turn, halt, next, and_then, hours_test, zone_of, fits, fits_everyone,
  decide_turn, turn, search_from, turns, follow, within_working_hours, keys, same_keys,
  find_earliest_slot,
}

-- A result that is not an exception.
abbrev pub Returns : {A : Type 0} → Result A → Type 0
Returns {A = A} r = (a : A) × (r ≡ ok a)

and_then-Returns : (r s : Result Bool) → Returns r → Returns s → Returns (and_then r s)
and_then-Returns r s (true, e) h = rw e h
and_then-Returns r s (false, e) h = rw e (false, refl)

module _ (local : String → DateTime → Option LocalTime) (zones : List (String × String)) where
  -- Every participant has a time zone, and the zone is known.
  abbrev pub IsKnown : String × List BusyBlock → Type 0
  IsKnown p =
      (tz : String) × (zone_of p.0 zones ≡ some tz)
      × ((t : DateTime) → (l : LocalTime) × (local tz t ≡ some l))

  hours-Returns : (o : Option LocalTime) (l : LocalTime) → o ≡ some l → Returns (hours_test o)
  hours-Returns o l e = rw e (_, refl)

  fits-Returns :
      (c stop last : DateTime) (busy : List BusyBlock) (o : Option String) (tz : String)
      → o ≡ some tz
      → ((t : DateTime) → (l : LocalTime) × (local tz t ≡ some l))
      → Returns (fits local c stop last busy o)
  unfolding fits within_working_hours
  fits-Returns c stop last busy o tz e known = rw e (
      and_then-Returns _ _ (hours-Returns (local tz c) (known c).0 (known c).1) (
        and_then-Returns _ _ (hours-Returns (local tz last) (known last).0 (known last).1)
          (_, refl)))

  fits_everyone-Returns :
      (c stop last : DateTime) (busy : List (String × List BusyBlock))
      → All IsKnown busy
      → Returns (fits_everyone local zones c stop last busy)
  unfolding fits_everyone
  fits_everyone-Returns c stop last [] h = (true, refl)
  fits_everyone-Returns c stop last ((p, b) ∷ rest) ((tz, e, known), h) =
      and_then-Returns _ _ (fits-Returns c stop last b (zone_of p zones) tz e known)
        (fits_everyone-Returns c stop last rest h)

  module _ (busy : List (String × List BusyBlock)) (d : ℕ) (window_end : DateTime)
      (known : All IsKnown busy) (long : minute ≤ d)
      (room : window_end + search_granularity ≤ datetime_max) where
    -- A turn at a candidate whose end is in the calendar returns, or goes on to such a candidate.
    data Steps (c : DateTime) : Turn → Type 0 where
      halts : (o : Option DateTime) → Steps c (halt (ok o))
      goes_on : c + search_granularity + d ≤ datetime_max → Steps c (next (c + search_granularity))

    decide-Steps :
        (c : DateTime) (r : Result Bool)
        → c + d ≤ window_end
        → Returns r
        → Steps c (decide_turn local zones busy (pos d) window_end c r)
    decide-Steps c r fit (true, e) = rw e (halts (some c))
    decide-Steps c r fit (false, e) =
        let in_range : leb (c + search_granularity) datetime_max ≡ true = ground arith in
        rw (e, in_range) (goes_on (omega arith))

    turn-Steps :
        (c : DateTime) → c + d ≤ datetime_max → Steps c (turn local zones busy (pos d) window_end c)
    unfolding turn
    turn-Steps c h =
        let in_range : leb (c + d) datetime_max ≡ true = ground arith in
        let late : leb minute (c + d) ≡ true = ground arith in
        rw in_range (elim (Bool-cases (leb (c + d) window_end)) [
          | inl e ↦
              rw (e, late)
                (decide-Steps c _ (ground arith) (fits_everyone-Returns c _ _ busy known))
          | inr e ↦ rw e (halts none)
        ])

    follow-Returns :
        (rest : DateTime → Result (Option DateTime)) (c : DateTime) (t : Turn)
        → Steps c t
        → (c + search_granularity + d ≤ datetime_max → Returns (rest (c + search_granularity)))
        → Returns (follow local zones busy (pos d) window_end rest t)
    follow-Returns rest c t? (halts o) k = (o, refl)
    follow-Returns rest c t? (goes_on h) k = k h

    search-Returns :
        (fuel : ℕ) (c : DateTime)
        → c + d ≤ datetime_max
        → Returns (search_from local zones busy (pos d) window_end fuel c)
    unfolding search_from
    search-Returns zero c h = (none, refl)
    search-Returns (suc fuel) c h =
        follow-Returns (search_from local zones busy (pos d) window_end fuel) c _ (turn-Steps c h)
          (search-Returns fuel (c + search_granularity))

    -- `find_earliest_slot` raises nothing where both maps are of the same participants, every time
    -- zone is known, the meeting lasts at least a minute and its first candidate ends within the
    -- calendar, and the window ends at least 15 minutes before the calendar does.
    pub find_earliest_slot-Returns :
        (window_start : DateTime)
        → window_start + d ≤ datetime_max
        → same_keys (keys busy) (keys zones) ≡ true
        → Returns (find_earliest_slot local busy zones (pos d) window_start window_end)
    unfolding find_earliest_slot
    find_earliest_slot-Returns window_start h same =
        rw same (search-Returns (turns window_start window_end (pos d)) window_start h)
