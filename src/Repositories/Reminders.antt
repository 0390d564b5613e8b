-- ===== src/Repositories/Reminders.antt =====
-- app/repositories/reminder_repository.py
use hound_bot.Base.{
  ℕ, String, Bool, not, ◌&&◌, none, some, List, [], ◌∷◌, ◌++◌, map, ◌==◌, contains, nat_eq, take,
  select, update, leb, is_none,
}
use hound_bot.Base.Sort.{order_by}
use hound_bot.Time.{DateTime}
use hound_bot.Models.{Db, Reminder, Uuid}
use hound_bot.Exec.{Exec, pure, query, ask, ◌>>=◌, ◌>>◌, modify, now, fresh_uuid}

abbrev pub insert : Reminder → Db → Db
insert r db = record db { reminders = db.reminders ++ r ∷ [] }

abbrev pub new_reminder : Uuid → Uuid → String → DateTime → ℕ → Reminder
new_reminder id task_id team_id fire_at_utc escalation_level = record {
  id = id;
  task_id = task_id;
  team_id = team_id;
  fire_at_utc = fire_at_utc;
  sent_at = none;
  claimed_at = none;
  escalation_level = escalation_level;
}

unfoldable pub create : Uuid → String → DateTime → ℕ → Exec Unit
create task_id team_id fire_at_utc escalation_level = do
  id ← fresh_uuid
  modify (insert (new_reminder id task_id team_id fire_at_utc escalation_level))

-- `fire_at_utc <= now`, `sent_at IS NULL`, `claimed_at IS NULL`, and not locked (SKIP LOCKED).
abbrev pub is_due : DateTime → List Uuid → Reminder → Bool
is_due t locked r =
    leb r.fire_at_utc t && is_none r.sent_at && is_none r.claimed_at && not (contains locked r.id)

unfoldable pub due_batch : ℕ → DateTime → List Uuid → List Reminder → List Reminder
due_batch limit t locked reminders =
    take limit (order_by (λ (r : Reminder). r.fire_at_utc) (select (is_due t locked) reminders))

abbrev pub reminder_id : Reminder → Uuid
reminder_id r = r.id

abbrev pub in_batch : List Reminder → Reminder → Bool
in_batch batch r = contains (map reminder_id batch) r.id

abbrev pub claim : DateTime → Reminder → Reminder
claim t r = record r { claimed_at = some t }

abbrev pub write : (Reminder → Bool) → (Reminder → Reminder) → Db → Db
write rows f db = record db { reminders = update rows f db.reminders }

unfoldable pub claim_due_batch : ℕ → Exec (List Reminder)
unfolding due_batch
claim_due_batch limit = do
  t ← now
  locked ← ask (λ o n. o.locked_reminders n)
  reminders ← query (λ db. due_batch limit t locked db.reminders)
  claimed_at ← now
  modify (write (in_batch reminders) (claim claimed_at))
  pure (map (claim claimed_at) reminders)

abbrev pub is_row : Uuid → Reminder → Bool
is_row id r = r.id == id

unfoldable pub write_sent : Uuid → List Reminder → Exec Unit
write_sent id [] = pure tt
write_sent id (_ ∷ _) = do t ← now; modify (write (is_row id) (λ r. record r { sent_at = some t }))

unfoldable pub mark_sent : Uuid → Exec Unit
unfolding write_sent
mark_sent id = do reminder ← query (λ db. select (is_row id) db.reminders); write_sent id reminder

abbrev pub is_pending_for : Uuid → Reminder → Bool
is_pending_for task_id r = r.task_id == task_id && is_none r.sent_at

-- The rows that the query finds are deleted, and no other.
unfoldable pub cancel_pending_for_task : Uuid → Exec Unit
cancel_pending_for_task task_id =
    modify
      (λ db. record db { reminders = select (λ r. not (is_pending_for task_id r)) db.reminders })
