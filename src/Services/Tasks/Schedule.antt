-- ===== src/Services/Tasks/Schedule.antt =====
-- What `create_task` writes: one open task, and the rungs of its reminder ladder.
use hound_bot.Base.{
  ℕ, suc, ◌+◌, ◌-◌, ◌≤◌, ◌≡◌, ◌≢◌, refl, ◌∙◌, ap, String, List, [], ◌∷◌, ◌++◌, append_assoc,
  append-nil, true, ◌==◌, string_eq, nat_eq, ltb, if◌then◌else◌, arith, ==_refl,
}
use hound_bot.Time.{DateTime, day, datetime_max}
use hound_bot.Models.{Db, Task, Reminder, Uuid}
use hound_bot.Exec.{ok, World, exec}
use hound_bot.Repositories.Tenant
use hound_bot.Repositories.Constraints.{has_workspace, references_workspace, fits_integer}
use hound_bot.Repositories.Tasks
use hound_bot.Repositories.Reminders
use hound_bot.Repositories.Reminders.{new_reminder}
use hound_bot.Services.Tasks.{TaskFields, new_task, create_task, schedule_reminders}

-- The moments and levels of the reminders that a task due at `due` should have, seen at time `t`:
-- a day before, unless that has passed, at the deadline, and a day after.
abbrev pub rungs : DateTime → DateTime → List (DateTime × ℕ)
rungs t due =
    (if ltb (t + day) due then (due - day, 0) ∷ [] else []) ++ (due, 1) ∷ (due + day, 2) ∷ []

-- The moments and levels of the reminders of a task, in the order of the table.
abbrev pub plan_of : Uuid → List Reminder → List (DateTime × ℕ)
plan_of id [] = []
plan_of id (r ∷ rs) =
    let rest = plan_of id rs in
    if r.task_id == id then (r.fire_at_utc, r.escalation_level) ∷ rest else rest

-- The rows that `schedule_reminders` adds, with the ids that it draws.
abbrev pub new_rows : World → Uuid → String → DateTime → List Reminder
new_rows w id team due =
    let o = w.outside in
    let n = w.calls in
    if ltb (o.clock n) (due - day)
    then new_reminder (o.uuid4 (suc n)) id team (due - day) 0
      ∷ new_reminder (o.uuid4 (suc (suc n))) id team due 1
      ∷ new_reminder (o.uuid4 (suc (suc (suc n)))) id team (due + day) 2
      ∷ []
    else new_reminder (o.uuid4 (suc n)) id team due 1
      ∷ new_reminder (o.uuid4 (suc (suc n))) id team (due + day) 2
      ∷ []

append_three :
    (xs : List Reminder) (a b c : Reminder)
    → ((xs ++ a ∷ []) ++ b ∷ []) ++ c ∷ [] ≡ xs ++ a ∷ b ∷ c ∷ []
append_three xs a b c = simp append_assoc

append_two : (xs : List Reminder) (a b : Reminder) → (xs ++ a ∷ []) ++ b ∷ [] ≡ xs ++ a ∷ b ∷ []
append_two xs a b = simp append_assoc

module _ (w : World) (id : Uuid) (team : String) (due : DateTime) (lo : day ≤ due)
    (hi : due + day ≤ datetime_max) where
  pub schedule_reminders-ok : (schedule_reminders id team due w).0 ≡ ok tt
  unfolding schedule_reminders Reminders.create exec
  schedule_reminders-ok = ground arith

  pub schedule_reminders-db :
      (schedule_reminders id team due w).1.db
      ≡ record w.db { reminders = w.db.reminders ++ new_rows w id team due }
  unfolding schedule_reminders Reminders.create exec
  schedule_reminders-db = grind (arith, append_three, append_two)

plan_of-append :
    (id : Uuid) (xs ys : List Reminder) → plan_of id (xs ++ ys) ≡ plan_of id xs ++ plan_of id ys
plan_of-append id [] ys = refl
plan_of-append id (x ∷ xs) ys = ground (arith, plan_of-append id xs ys)

plan_of-new_rows :
    (w : World) (id : Uuid) (team : String) (due : DateTime)
    → day ≤ due
    → plan_of id (new_rows w id team due) ≡ rungs (w.outside.clock w.calls) due
plan_of-new_rows w id team due lo = ground (arith, ==_refl id)

plan_of-new_rows_ne :
    (w : World) (id j : Uuid) (team : String) (due : DateTime)
    → j ≢ id
    → plan_of j (new_rows w id team due) ≡ []
plan_of-new_rows_ne w id j team due h = ground arith

module _ (f : TaskFields) (w : World) (team : f.team_id ≢ "")
    (home : has_workspace f.team_id w.db ≡ true)
    (fits : fits_integer f.recurrence_interval_days ≡ true) (lo : day ≤ f.due_at_utc)
    (hi : f.due_at_utc + day ≤ datetime_max) where
  -- The row that a call at this world makes.
  abbrev pub created : Task
  created = new_task (w.outside.uuid4 w.calls) (w.outside.clock (suc w.calls)) f

  -- The world at which the reminders are made.
  abbrev pub added : World
  added = record w {
    db = record w.db { tasks = w.db.tasks ++ created ∷ [] };
    calls = suc (suc w.calls);
  }

  pub create_task-ok : (create_task f w).0 ≡ ok created
  unfolding create_task Tenant.open_repository Tasks.add references_workspace Tenant.add exec
  create_task-ok =
      ground (arith, schedule_reminders-ok added created.id f.team_id f.due_at_utc lo hi)

  pub create_task-db : (create_task f w).1.db ≡ record w.db {
    tasks = w.db.tasks ++ created ∷ [];
    reminders = w.db.reminders ++ new_rows added created.id f.team_id f.due_at_utc;
  }
  unfolding create_task Tenant.open_repository Tasks.add references_workspace Tenant.add exec
  create_task-db = ground (
    arith,
    schedule_reminders-ok added created.id f.team_id f.due_at_utc lo hi,
    schedule_reminders-db added created.id f.team_id f.due_at_utc lo hi,
  )

-- A task of a team that has a workspace, with a recurrence that fits its column and whose deadline is at least a day from both ends of the calendar is stored, open
-- and with the given fields, and its reminders, as they stand in the table, are exactly the
-- ladder's rungs as seen at the third reading of the clock; no other task's reminders change. The
-- id drawn for the task is assumed to have no reminders yet.
pub create_task-rungs :
    (f : TaskFields) (w : World) (team : f.team_id ≢ "")
    (home : has_workspace f.team_id w.db ≡ true)
    (fits : fits_integer f.recurrence_interval_days ≡ true) (lo : day ≤ f.due_at_utc)
    (hi : f.due_at_utc + day ≤ datetime_max)
    → plan_of (w.outside.uuid4 w.calls) w.db.reminders ≡ []
    → (j : Uuid) → j ≢ w.outside.uuid4 w.calls
    → let id = w.outside.uuid4 w.calls in
      let (r, w') = create_task f w in
      (r ≡ ok (new_task id (w.outside.clock (suc w.calls)) f))
      × (w'.db.tasks ≡ w.db.tasks ++ new_task id (w.outside.clock (suc w.calls)) f ∷ [])
      × (plan_of id w'.db.reminders ≡ rungs (w.outside.clock (suc (suc w.calls))) f.due_at_utc)
      × (plan_of j w'.db.reminders ≡ plan_of j w.db.reminders)
create_task-rungs f w team home fits lo hi fresh j h =
    let id = w.outside.uuid4 w.calls in
    let rows = new_rows (added f w team home fits lo hi) id f.team_id f.due_at_utc in
    let e = create_task-db f w team home fits lo hi in
    (
      create_task-ok f w team home fits lo hi,
      ap (λ (db : Db). db.tasks) e,
      ap (λ (db : Db). plan_of id db.reminders) e
          ∙ plan_of-append id w.db.reminders rows
          ∙ ap (λ (l : List (DateTime × ℕ)). l ++ plan_of id rows) fresh
          ∙ plan_of-new_rows (added f w team home fits lo hi) id f.team_id f.due_at_utc lo,
      ap (λ (db : Db). plan_of j db.reminders) e
          ∙ plan_of-append j w.db.reminders rows
          ∙ ap (λ (l : List (DateTime × ℕ)). plan_of j w.db.reminders ++ l)
              (plan_of-new_rows_ne (added f w team home fits lo hi) id j f.team_id f.due_at_utc h)
          ∙ append-nil _,
    )
