-- ===== src/Calendar/Intersection/Search.antt =====
-- The loop: the slot it returns is the earliest on the grid, and without a slot there is none.
use hound_bot.Base.{
  ℕ, zero, suc, ◌+◌, ◌*◌, ◌≤◌, ◌<◌, ◌≡◌, String, Bool, true, false, Option, none, some, List, arith,
  Bool-cases, inl, inr, refl, leb, leb→le, ap, ◌∙◌,
}
use hound_bot.Base.Int.{pos, negsuc}
use hound_bot.Time.{DateTime, TimeDelta, minute, add_delta, sub_delta, datetime_max}
use hound_bot.Exec.{Result, ok, err, Error, overflow_error, BusyBlock, LocalTime}
use hound_bot.Calendar.Intersection.{
  search_granularity, Turn, halt, next, fits_everyone, advance, decide_turn, try_slot,
  within_window, turn, search_from, magnitude, turns, follow, find_earliest_slot, keys, same_keys,
}
use hound_bot.Calendar.Intersection.Slots.{SuitsAll, fits_everyone-SuitsAll, SuitsAll-fits_everyone}

add_delta_mono :
    (a b : DateTime) (d : TimeDelta) {x y : DateTime}
    → add_delta a d ≡ some x
    → add_delta b d ≡ some y
    → a ≤ b
    → x ≤ y
add_delta_mono a b (pos d) e e' h = ground arith
add_delta_mono a b (negsuc d) e e' h = ground arith

add_delta-lower :
    (a : DateTime) (d : TimeDelta) {x : DateTime} → add_delta a d ≡ some x → a ≤ x + magnitude d
add_delta-lower a (pos d) e = ground arith
add_delta-lower a (negsuc d) e = ground arith

module _ (local : String → DateTime → Option LocalTime) (zones : List (String × String))
    (busy : List (String × List BusyBlock)) (duration : TimeDelta) (window_end : DateTime) where
  -- The slot that begins at `start` ends in the window, and suits every participant.
  pub data IsSlot (start : DateTime) : Type 0 where
    slot :
        (stop last : DateTime)
        → add_delta start duration ≡ some stop
        → stop ≤ window_end
        → sub_delta stop minute ≡ some last
        → SuitsAll local zones start stop last busy
        → IsSlot start

  -- How a turn of the loop at a candidate came to its decision.
  data Decided (c : DateTime) : Turn → Type 0 where
    found : IsSlot c → Decided c (halt (ok (some c)))
    ended :
        (stop : DateTime)
        → add_delta c duration ≡ some stop
        → window_end < stop
        → Decided c (halt (ok none))
    rejected : ¬ (IsSlot c) → Decided c (next (c + search_granularity))
    raised : (e : Error) → Decided c (halt (err e))

  IsSlot-fits_everyone :
      (c stop last : DateTime)
      → IsSlot c
      → add_delta c duration ≡ some stop
      → sub_delta stop minute ≡ some last
      → fits_everyone local zones c stop last busy ≡ ok true
  IsSlot-fits_everyone c stop last (slot stop' last' e _ f all) e' f' =
      let p : stop ≡ stop' = cc in
      let q : last ≡ last' = cc (ap (λ s. sub_delta s minute) p) in
      rw (p, q) (SuitsAll-fits_everyone local zones c stop' last' busy all)

  advance-Decided :
      (c : DateTime)
      → ¬ (IsSlot c)
      → Decided c
          (advance local zones busy duration window_end (add_delta c (pos search_granularity)))
  advance-Decided c no_slot = elim (Bool-cases (leb (c + search_granularity) datetime_max)) [
    | inl e ↦ rw e (rejected no_slot)
    | inr e ↦ rw e (raised overflow_error)
  ]

  decide_turn-Decided :
      (c stop last : DateTime) (r : Result Bool)
      → add_delta c duration ≡ some stop
      → stop ≤ window_end
      → sub_delta stop minute ≡ some last
      → fits_everyone local zones c stop last busy ≡ r
      → Decided c (decide_turn local zones busy duration window_end c r)
  decide_turn-Decided c stop last (err e) p le q fit = raised e
  decide_turn-Decided c stop last (ok true) p le q fit =
      found (slot stop last p le q (fits_everyone-SuitsAll local zones c stop last busy fit))
  decide_turn-Decided c stop last (ok false) p le q fit =
      advance-Decided c (λ s. cc (IsSlot-fits_everyone c stop last s p q))

  try_slot-Decided :
      (c stop : DateTime) (o : Option DateTime)
      → add_delta c duration ≡ some stop
      → stop ≤ window_end
      → sub_delta stop minute ≡ o
      → Decided c (try_slot local zones busy duration window_end c stop o)
  try_slot-Decided c stop none p le q = raised overflow_error
  try_slot-Decided c stop (some last) p le q = decide_turn-Decided c stop last _ p le q refl

  within_window-Decided :
      (c : DateTime) (o : Option DateTime)
      → add_delta c duration ≡ o
      → Decided c (within_window local zones busy duration window_end c o)
  within_window-Decided c none p = raised overflow_error
  within_window-Decided c (some stop) p = elim (Bool-cases (leb stop window_end)) [
    | inl e ↦ rw e (try_slot-Decided c stop _ p (leb→le _ _ e) refl)
    | inr e ↦ rw e (ended stop p (ground arith))
  ]

  turn-Decided : (c : DateTime) → Decided c (turn local zones busy duration window_end c)
  unfolding turn
  turn-Decided c = within_window-Decided c _ refl

  -- The slot found is the first on the grid from `c`.
  pub data IsEarliest (c : DateTime) (s : DateTime) : Type 0 where
    earliest :
        (k : ℕ)
        → s ≡ c + k * search_granularity
        → IsSlot s
        → ((j : ℕ) → j < k → ¬ (IsSlot (c + j * search_granularity)))
        → IsEarliest c s

  -- A result of the search that began at `c`: what a slot, and what no slot, says of the grid.
  abbrev pub Answers : DateTime → Result (Option DateTime) → Type 0
  Answers c (ok (some s)) = IsEarliest c s
  Answers c (ok none) = (k : ℕ) → ¬ (IsSlot (c + k * search_granularity))
  Answers c (err e) = Unit

  no-IsSlot_after :
      (c stop : DateTime)
      → add_delta c duration ≡ some stop
      → window_end < stop
      → (k : ℕ) → ¬ (IsSlot (c + k * search_granularity))
  no-IsSlot_after c stop e late k (slot stop' last e' le f all) =
      absurd (omega (arith, add_delta_mono c (c + k * search_granularity) duration e e'))

  none_left :
      (c : DateTime)
      → window_end + magnitude duration < c
      → (k : ℕ) → ¬ (IsSlot (c + k * search_granularity))
  none_left c h k (slot stop' last e' le f all) =
      absurd (omega (arith, add_delta-lower (c + k * search_granularity) duration e'))

  -- To leave out the first candidate is to shift the index.
  after_first_below :
      (c : DateTime)
      → ¬ (IsSlot c)
      → (k : ℕ) → ((j : ℕ) → j < k → ¬ (IsSlot (c + search_granularity + j * search_granularity)))
      → (j : ℕ) → j < suc k
      → ¬ (IsSlot (c + j * search_granularity))
  after_first_below c no_slot k before zero h s =
      let p : c + 0 * search_granularity ≡ c = omega arith in no_slot (rw p at s)
  after_first_below c no_slot k before (suc j) h s =
      let p : c + suc j * search_granularity ≡ c + search_granularity + j * search_granularity =
        omega arith in
      before j (omega arith) (rw p at s)

  after_first :
      (c : DateTime)
      → ¬ (IsSlot c)
      → ((j : ℕ) → ¬ (IsSlot (c + search_granularity + j * search_granularity)))
      → (j : ℕ) → ¬ (IsSlot (c + j * search_granularity))
  after_first c no_slot rest j = after_first_below c no_slot j (λ i _. rest i) j (omega arith)

  Answers-next :
      (c : DateTime) (r : Result (Option DateTime))
      → ¬ (IsSlot c)
      → Answers (c + search_granularity) r
      → Answers c r
  Answers-next c (err e) no_slot h = tt
  Answers-next c (ok none) no_slot h = after_first c no_slot h
  Answers-next c (ok (some s)) no_slot (earliest k e s' before) =
      earliest (suc k) (e ∙ omega arith) s' (after_first_below c no_slot k before)

  follow-Answers :
      (rest : DateTime → Result (Option DateTime)) (c : DateTime) (t : Turn)
      → Decided c t
      → Answers (c + search_granularity) (rest (c + search_granularity))
      → Answers c (follow local zones busy duration window_end rest t)
  follow-Answers rest c t (found s) h = earliest 0 (omega arith) s (λ j lt. absurd (omega arith))
  follow-Answers rest c t (ended stop e late) h = no-IsSlot_after c stop e late
  follow-Answers rest c t (rejected no_slot) h = Answers-next c (rest _) no_slot h
  follow-Answers rest c t (raised e) h = tt

  search_from-Answers :
      (fuel : ℕ) (c : DateTime)
      → window_end + magnitude duration < c + fuel * search_granularity
      → Answers c (search_from local zones busy duration window_end fuel c)
  unfolding search_from
  search_from-Answers zero c h = none_left c (omega arith)
  search_from-Answers (suc fuel) c h =
      follow-Answers (search_from local zones busy duration window_end fuel) c _ (turn-Decided c)
        (search_from-Answers fuel (c + search_granularity) (omega arith))

-- Where both maps are of the same participants, `find_earliest_slot`, unless it raises, answers for
-- its whole window: a slot that it returns lies on the 15-minute grid from the window's start, ends
-- within the window, finds every participant free throughout, and at work when it begins and in its
-- last minute, the two moments that the code tests, and no earlier candidate of the grid does; if it
-- returns none, no candidate of the grid does. The search thus never stops early for want of turns.
pub find_earliest_slot-Answers :
    (local : String → DateTime → Option LocalTime) (busy : List (String × List BusyBlock))
    (zones : List (String × String)) (duration : TimeDelta) (window_start window_end : DateTime)
    → same_keys (keys busy) (keys zones) ≡ true
    → Answers local zones busy duration window_end window_start
        (find_earliest_slot local busy zones duration window_start window_end)
unfolding find_earliest_slot
find_earliest_slot-Answers local busy zones duration window_start window_end same = rw same (
    search_from-Answers local zones busy duration window_end
      (turns window_start window_end duration) window_start (omega arith))
