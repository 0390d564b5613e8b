-- ===== src/Repositories/ProcessedEvents/Dedup.antt =====
-- An event is processed once, and remembered for seven days.
use hound_bot.Base.{
  ◌≡◌, refl, ◌*◌, ◌-◌, ◌≤◌, String, Bool, true, false, not, ◌&&◌, List, [], ◌∷◌, ◌++◌, string_eq,
  ==_refl, any, select, length, arith,
}
use hound_bot.Time.{DateTime, day}
use hound_bot.Models.{ProcessedEvent}
use hound_bot.Exec.{ok, World, exec}
use hound_bot.Repositories.ProcessedEvents
use hound_bot.Repositories.ProcessedEvents.{has_event, is_known, is_old}

pub any-appended :
    (id : String) (es : List ProcessedEvent) (e : ProcessedEvent)
    → e.event_id ≡ id
    → any (has_event id) (es ++ e ∷ []) ≡ true
any-appended id [] e h = ground (arith, ==_refl id)
any-appended id (x ∷ xs) e h = ground (arith, any-appended id xs e h)

-- `mark_processed_if_new` says whether the event was unknown; after it the event is known, and a
-- second call with that event, whatever the team, returns false and leaves the tables alone.
pub mark_processed_if_new-twice :
    (id team team' : String) (w : World)
    → let (r, v) = ProcessedEvents.mark_processed_if_new id team w in
      let (r', v') = ProcessedEvents.mark_processed_if_new id team' v in
      (r ≡ ok (not (is_known id w.db)))
      × (is_known id v.db ≡ true)
      × (r' ≡ ok false)
      × (v'.db ≡ v.db)
unfolding ProcessedEvents.mark_processed_if_new exec
mark_processed_if_new-twice id team team' w = ground (
  arith,
  any-appended id w.db.processed_events
      (record { event_id = id; team_id = team; processed_at = w.outside.clock w.calls }) refl,
)

-- A row of the event that is not older than the cutoff.
abbrev pub recent : DateTime → String → ProcessedEvent → Bool
recent cutoff id e = has_event id e && not (is_old cutoff e)

any-swept :
    (cutoff : DateTime) (id : String) (es : List ProcessedEvent)
    → any (has_event id) (select (λ e. not (is_old cutoff e)) es) ≡ any (recent cutoff id) es
any-swept cutoff id [] = refl
any-swept cutoff id (e ∷ es) = ground (arith, any-swept cutoff id es)

-- The sweep, at a time at least seven days after the calendar's start: an event is known after it
-- just where a row of it is at most seven days old, so that a retry within that time is still
-- recognised. No older row is left, and the result is the number of those that there were.
pub sweep-recent :
    (id : String) (w : World)
    → 7 * day ≤ w.outside.clock w.calls
    → let cutoff = w.outside.clock w.calls - 7 * day in
      let (r, v) = ProcessedEvents.sweep_old_processed_events w in
      (r ≡ ok (length (select (is_old cutoff) w.db.processed_events)))
      × (is_known id v.db ≡ any (recent cutoff id) w.db.processed_events)
      × (select (is_old cutoff) v.db.processed_events ≡ [])
unfolding ProcessedEvents.sweep_old_processed_events exec
sweep-recent id w h =
    let cutoff = w.outside.clock w.calls - 7 * day in
    ground (arith, any-swept cutoff id w.db.processed_events, none_old cutoff w.db.processed_events)
  where
    none_old :
        (cutoff : DateTime) (es : List ProcessedEvent)
        → select (is_old cutoff) (select (λ e. not (is_old cutoff e)) es) ≡ []
    none_old cutoff [] = refl
    none_old cutoff (e ∷ es) = ground (arith, none_old cutoff es)
