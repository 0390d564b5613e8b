-- ===== src/Repositories/ProcessedEvents.antt =====
-- app/repositories/processed_event_repository.py
pub mod Dedup
use hound_bot.Base.{
  ℕ, ◌*◌, String, Bool, true, false, not, [], ◌∷◌, ◌++◌, ◌==◌, string_eq, any, select, length, ltb,
  if◌then◌else◌,
}
use hound_bot.Time.{DateTime, day, sub_delta}
use hound_bot.Models.{Db, ProcessedEvent}
use hound_bot.Exec.{overflow_error, Exec, pure, or_raise, query, ◌>>=◌, ◌>>◌, modify, now}

abbrev pub has_event : String → ProcessedEvent → Bool
has_event event_id e = e.event_id == event_id

abbrev pub is_known : String → Db → Bool
is_known event_id db = any (has_event event_id) db.processed_events

-- INSERT ... ON CONFLICT (event_id) DO NOTHING; the row count says whether a row was inserted.
unfoldable pub mark_processed_if_new : String → String → Exec Bool
mark_processed_if_new event_id team_id = do
  t ← now
  known ← query (is_known event_id)
  if known then pure false else do
    modify (λ db. record db {
      processed_events =
          db.processed_events
          ++ record { event_id = event_id; team_id = team_id; processed_at = t } ∷ [];
    })
    pure true

abbrev pub is_old : DateTime → ProcessedEvent → Bool
is_old cutoff e = ltb e.processed_at cutoff

unfoldable pub sweep_old_processed_events : Exec ℕ
sweep_old_processed_events = do
  t ← now
  cutoff ← or_raise overflow_error (sub_delta t (7 * day))
  old ← query (λ db. select (is_old cutoff) db.processed_events)
  modify (λ db. record db {
    processed_events = select (λ e. not (is_old cutoff e)) db.processed_events;
  })
  pure (length old)
