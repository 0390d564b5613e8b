-- ===== src/Services/Tasks/Recurrence.antt =====
-- What `mark_task_done` makes of a recurring task.
use hound_bot.Base.{
  ℕ, suc, ◌+◌, ◌*◌, ◌≤◌, ◌≡◌, ◌≢◌, sym, refl, ◌∙◌, ap, String, true, not, some, List, [], ◌∷◌, ◌++◌,
  select, select-append, update, arith, nat_eq,
}
use hound_bot.Time.{DateTime, day, datetime_max}
use hound_bot.Models.{open_status, Db, Task, Reminder, Uuid}
use hound_bot.Exec.{ok, World}
use hound_bot.Repositories.Tasks
use hound_bot.Repositories.Constraints.{has_workspace, fits_integer}
use hound_bot.Repositories.Reminders.{is_pending_for}
use hound_bot.Services.Tasks.{may_change, finish, mark_task_done}
use hound_bot.Services.Tasks.Schedule.{
  plan_of, rungs, new_rows, added, create_task-db, create_task-rungs,
}
use hound_bot.Services.Tasks.Completion.{
  select-not_self, finished, next_fields, mark_task_done-next, mark_task_done-next_db,
}

pending-new_rows :
    (w : World) (id j : Uuid) (team : String) (due : DateTime)
    → j ≢ id
    → select (is_pending_for j) (new_rows w id team due) ≡ []
pending-new_rows w id j team due h = ground arith

plan_of-cancelled :
    (id j : Uuid) (rs : List Reminder)
    → plan_of j rs ≡ []
    → plan_of j (select (λ r. not (is_pending_for id r)) rs) ≡ []
plan_of-cancelled id j [] h = refl
plan_of-cancelled id j (r ∷ rs) h = ground (arith, plan_of-cancelled id j rs)

-- A recurring task of the team, whose id is not empty and which has a workspace, with an interval
-- that fits its column, that its assignee or creator marks done,
-- whatever its status was before: the task ends done with no reminder left to send, and exactly one
-- task is added, open, with the same people, title, channel and interval, due `n` days after the
-- old deadline and with the reminder ladder of that deadline. The id drawn for it is assumed new and
-- to have no reminders; the new deadline is assumed to be at least a day from both ends of the
-- calendar.
pub mark_task_done-recurs :
    (w : World) (team : String) (id : Uuid) (user : String) (task : Task) (tenant : team ≢ "")
    (found : (Tasks.get team id w).0 ≡ ok (some task)) (allowed : may_change user task ≡ true)
    (n : ℕ) (recurs : task.recurrence_interval_days ≡ some n)
    (home : has_workspace team w.db ≡ true) (fits : fits_integer (some n) ≡ true)
    (lo : day ≤ task.due_at_utc + n * day) (hi : task.due_at_utc + n * day + day ≤ datetime_max)
    → w.outside.uuid4 w.calls ≢ task.id
    → plan_of (w.outside.uuid4 w.calls) w.db.reminders ≡ []
    → let new_id = w.outside.uuid4 w.calls in
      let next = record task {
        id = new_id;
        team_id = team;
        due_at_utc = task.due_at_utc + n * day;
        status = open_status;
        recurrence_interval_days = some n;
        created_at = w.outside.clock (suc w.calls);
      } in
      let (r, w') = mark_task_done team id user w in
      (r ≡ ok (some (finish task)))
      × (w'.db.tasks ≡ update (Tasks.has_id task.id) finish w.db.tasks ++ next ∷ [])
      × (select (is_pending_for task.id) w'.db.reminders ≡ [])
      × (plan_of new_id w'.db.reminders
          ≡ rungs (w.outside.clock (suc (suc w.calls))) (task.due_at_utc + n * day))
mark_task_done-recurs w team id user task tenant found allowed n recurs home fits lo hi new fresh =
    let fields = next_fields w team id user task tenant found allowed n recurs home fits lo hi in
    let v = finished w team id user task tenant found allowed in
    let new_id = w.outside.uuid4 w.calls in
    let same =
      mark_task_done-next_db w team id user task tenant found allowed n recurs home fits lo hi in
    let stored =
      create_task-rungs fields v tenant home fits lo hi
        (plan_of-cancelled task.id new_id w.db.reminders fresh) task.id (λ e. new (sym e)) in
    let rows =
      new_rows (added fields v tenant home fits lo hi) new_id team (task.due_at_utc + n * day) in
    (
      mark_task_done-next w team id user task tenant found allowed n recurs home fits lo hi,
      ap (λ (u : World). u.db.tasks) same ∙ stored.1,
      ap (λ (u : World). select (is_pending_for task.id) u.db.reminders) same
          ∙ ap (λ (db : Db). select (is_pending_for task.id) db.reminders)
              (create_task-db fields v tenant home fits lo hi)
          ∙ select-append (is_pending_for task.id) v.db.reminders rows
          ∙ ap (λ (l : List Reminder). l ++ select (is_pending_for task.id) rows)
              (select-not_self (is_pending_for task.id) w.db.reminders)
          ∙ pending-new_rows (added fields v tenant home fits lo hi) new_id task.id team
              (task.due_at_utc + n * day) (λ e. new (sym e)),
      ap (λ (u : World). plan_of new_id u.db.reminders) same ∙ stored.2,
    )
