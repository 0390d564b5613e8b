-- ===== src/Services/Tasks/Completion.antt =====
-- Who may finish or reassign a task, and what is left of its reminders when it is done.
use hound_bot.Base.{
  ℕ, suc, ◌+◌, ◌*◌, ◌≤◌, ◌≡◌, ◌≢◌, refl, String, Bool, true, not, none, some, List, [], ◌∷◌, ◌==◌,
  string_eq, nat_eq, select, update, arith,
}
use hound_bot.Time.{day, datetime_max}
use hound_bot.Models.{Db, Task, Reminder, Uuid}
use hound_bot.Exec.{ok, err, task_authorization, World, exec}
use hound_bot.Exec.Laws.{scalar_one_or_none-same_world}
use hound_bot.Repositories.Tenant
use hound_bot.Repositories.Constraints.{has_workspace, fits_integer}
use hound_bot.Repositories.Tasks
use hound_bot.Repositories.Reminders
use hound_bot.Repositories.Reminders.{is_pending_for, new_reminder}
use hound_bot.Services.Tasks.{
  TaskFields, new_task, may_change, next_occurrence, finish, create_task, mark_task_done,
  reassign_task,
}
use hound_bot.Services.Tasks.Schedule.{create_task-ok}

-- Reading a task changes nothing.
pub get-same_world : (team : String) (id : Uuid) (w : World) → (Tasks.get team id w).1 ≡ w
unfolding Tasks.get exec Tenant.get
get-same_world team id w =
    scalar_one_or_none-same_world
      (Tenant.filter_by (λ db. db.tasks) Tasks.team_of team (Tasks.has_id id) w.db) w

module _ (w : World) (team : String) (id : Uuid) (user : String) (task : Task) (tenant : team ≢ "")
    (found : (Tasks.get team id w).0 ≡ ok (some task)) where
  -- A user who is neither the assignee nor the creator can neither finish nor reassign a task that
  -- the team, whose id is not empty, has: both calls raise TaskAuthorizationError, and the whole
  -- world is as it was.
  pub changes_refused :
      user ≢ task.assignee_slack_id
      → user ≢ task.creator_slack_id
      → (new_assignee : String)
      → (mark_task_done team id user w ≡ (
        err (task_authorization "Only the assignee or the creator can mark this task done."),
        w,
      ))
        × (reassign_task team id user new_assignee w ≡ (
          err (task_authorization "Only the assignee or the creator can reassign this task."),
          w,
        ))
  unfolding mark_task_done reassign_task Tenant.open_repository exec
  changes_refused na nc new_assignee = ground (arith, get-same_world team id w)

-- Deleting the pending reminders of a task leaves none, and leaves every other reminder.
pub select-not_self {ℓ} :
    {A : Type ℓ} (p : A → Bool) (xs : List A) → select p (select (λ x. not (p x)) xs) ≡ []
select-not_self p [] = refl
select-not_self p (x ∷ xs) = ground (arith, select-not_self p xs)

abbrev pub has_task : Uuid → Reminder → Bool
has_task id r = r.task_id == id

select-other_task :
    (id j : Uuid) (rs : List Reminder)
    → j ≢ id
    → select (has_task j) (select (λ r. not (is_pending_for id r)) rs) ≡ select (has_task j) rs
select-other_task id j [] h = refl
select-other_task id j (r ∷ rs) h = ground (arith, select-other_task id j rs h)

-- The task's id is the one it was looked up by.
select-update_other :
    (id j : Uuid) (f : Task → Task) (ts : List Task)
    → ((t : Task) → (f t).id ≡ t.id)
    → j ≢ id
    → select (Tasks.has_id j) (update (Tasks.has_id id) f ts) ≡ select (Tasks.has_id j) ts
select-update_other id j f [] keep h = refl
select-update_other id j f (t ∷ ts) keep h =
    ground (arith, keep t, select-update_other id j f ts keep h)

module _ (w : World) (team : String) (id : Uuid) (user : String) (task : Task) (tenant : team ≢ "")
    (found : (Tasks.get team id w).0 ≡ ok (some task)) (allowed : may_change user task ≡ true) where
  -- The database after the status is written and the pending reminders are deleted.
  abbrev pub finished_db : Db
  finished_db = record w.db {
    tasks = update (Tasks.has_id task.id) finish w.db.tasks;
    reminders = select (λ r. not (is_pending_for task.id r)) w.db.reminders;
  }

  abbrev pub finished : World
  finished = record w { db = finished_db }

  pub mark_task_done-once :
      task.recurrence_interval_days ≡ none
      → mark_task_done team id user w ≡ (ok (some (finish task)), finished)
  unfolding mark_task_done Tenant.open_repository Reminders.cancel_pending_for_task exec
  mark_task_done-once once = ground (arith, get-same_world team id w)

  -- A task of the team, whose id is not empty, without recurrence, that its assignee or creator
  -- marks done, ends done, with no reminder
  -- left to send; the row of any other task and its reminders are as they were.
  pub mark_task_done-cancels :
      task.recurrence_interval_days ≡ none
      → (j : Uuid) → j ≢ task.id
      → let (r, w') = mark_task_done team id user w in
        (r ≡ ok (some (finish task)))
        × (w'.db.tasks ≡ update (Tasks.has_id task.id) finish w.db.tasks)
        × (select (is_pending_for task.id) w'.db.reminders ≡ [])
        × (select (Tasks.has_id j) w'.db.tasks ≡ select (Tasks.has_id j) w.db.tasks)
        × (select (has_task j) w'.db.reminders ≡ select (has_task j) w.db.reminders)
  mark_task_done-cancels once j h = rw (mark_task_done-once once) (
    refl,
    refl,
    select-not_self (is_pending_for task.id) w.db.reminders,
    select-update_other task.id j finish w.db.tasks (λ t. refl) h,
    select-other_task task.id j w.db.reminders h,
  )

  module _ (n : ℕ) (recurs : task.recurrence_interval_days ≡ some n)
      (home : has_workspace team w.db ≡ true) (fits : fits_integer (some n) ≡ true)
      (lo : day ≤ task.due_at_utc + n * day)
      (hi : task.due_at_utc + n * day + day ≤ datetime_max) where
    abbrev pub next_fields : TaskFields
    next_fields = next_occurrence team task (task.due_at_utc + n * day) n

    abbrev pub next_task : Task
    next_task = new_task (w.outside.uuid4 w.calls) (w.outside.clock (suc w.calls)) next_fields

    pub mark_task_done-next : (mark_task_done team id user w).0 ≡ ok (some (finish task))
    unfolding mark_task_done Tenant.open_repository Reminders.cancel_pending_for_task exec
    mark_task_done-next = ground (
      arith,
      get-same_world team id w,
      create_task-ok next_fields finished tenant home fits lo hi,
    )

    pub mark_task_done-next_db :
        (mark_task_done team id user w).1 ≡ (create_task next_fields finished).1
    unfolding mark_task_done Tenant.open_repository Reminders.cancel_pending_for_task exec
    mark_task_done-next_db = ground (
      arith,
      get-same_world team id w,
      create_task-ok next_fields finished tenant home fits lo hi,
    )
