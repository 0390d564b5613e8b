-- ===== src/Tests/Tasks.antt =====
-- Tasks and their reminders at the concrete world.
use hound_bot.Base.{
  ◌+◌, ◌*◌, ◌≡◌, refl, none, some, [], ◌∷◌, ◌++◌, nat_eq, string_eq, select, update, arith, true,
}
use hound_bot.Time.{day}
use hound_bot.Models.{open_status}
use hound_bot.Exec.{ok, err, task_authorization, exec}
use hound_bot.Repositories.Tasks
use hound_bot.Repositories.Constraints.{has_workspace}
use hound_bot.Repositories.Tenant
use hound_bot.Repositories.Reminders.{is_pending_for}
use hound_bot.Services.Tasks.{
  TaskFields, new_task, create_task, mark_task_done, reassign_task, finish,
}
use hound_bot.Services.Tasks.Schedule.{plan_of, rungs, create_task-rungs}
use hound_bot.Services.Tasks.Completion.{has_task, changes_refused, mark_task_done-cancels}
use hound_bot.Services.Tasks.Recurrence.{mark_task_done-recurs}
use hound_bot.Tests.Setting.{world, task, monday, different}

abbrev fields : TaskFields
fields = record {
  team_id = "T1";
  creator_slack_id = "UA";
  assignee_slack_id = "UB";
  title = "Slides";
  due_at_utc = monday + 3 * day;
  channel_id = "C1";
  recurrence_interval_days = none;
}

at_home : has_workspace "T1" world.db ≡ true
unfolding string_eq
at_home = refl

create_task-rungs_example :
    let (r, w') = create_task fields world in
    (r ≡ ok (new_task 100 (world.outside.clock 1) fields))
    × (w'.db.tasks ≡ world.db.tasks ++ new_task 100 (world.outside.clock 1) fields ∷ [])
    × (plan_of 100 w'.db.reminders ≡ rungs (world.outside.clock 2) (monday + 3 * day))
    × (plan_of 1 w'.db.reminders ≡ plan_of 1 world.db.reminders)
unfolding string_eq nat_eq
create_task-rungs_example =
    create_task-rungs fields world (different "T1" "" refl) at_home refl (omega arith) (omega arith)
      refl 1 (omega arith)

found_once : (Tasks.get "T1" 1 world).0 ≡ ok (some (task 1 open_status none))
unfolding Tasks.get Tenant.get Tenant.filter_by string_eq nat_eq exec
found_once = refl

found_weekly : (Tasks.get "T1" 3 world).0 ≡ ok (some (task 3 open_status (some 7)))
unfolding Tasks.get Tenant.get Tenant.filter_by string_eq nat_eq exec
found_weekly = refl

changes_refused_example :
    (mark_task_done "T1" 1 "UC" world ≡ (
      err (task_authorization "Only the assignee or the creator can mark this task done."),
      world,
    ))
    × (reassign_task "T1" 1 "UC" "UD" world ≡ (
      err (task_authorization "Only the assignee or the creator can reassign this task."),
      world,
    ))
unfolding string_eq nat_eq
changes_refused_example =
    changes_refused world "T1" 1 "UC" (task 1 open_status none) (different "T1" "" refl) found_once
      (different "UC" "UB" refl) (different "UC" "UA" refl) "UD"

mark_task_done-cancels_example :
    let (r, w') = mark_task_done "T1" 1 "UB" world in
    (r ≡ ok (some (finish (task 1 open_status none))))
    × (w'.db.tasks ≡ update (Tasks.has_id 1) finish world.db.tasks)
    × (select (is_pending_for 1) w'.db.reminders ≡ [])
    × (select (Tasks.has_id 3) w'.db.tasks ≡ select (Tasks.has_id 3) world.db.tasks)
    × (select (has_task 3) w'.db.reminders ≡ select (has_task 3) world.db.reminders)
unfolding string_eq nat_eq
mark_task_done-cancels_example =
    mark_task_done-cancels world "T1" 1 "UB" (task 1 open_status none) (different "T1" "" refl)
      found_once refl refl 3 (omega arith)

mark_task_done-recurs_example :
    let old = task 3 open_status (some 7) in
    let (r, w') = mark_task_done "T1" 3 "UB" world in
    (r ≡ ok (some (finish old)))
    × (w'.db.tasks
        ≡ update (Tasks.has_id 3) finish world.db.tasks
          ++ record old {
            id = 100;
            due_at_utc = monday + 9 * day;
            created_at = world.outside.clock 1;
          }
            ∷ [])
    × (select (is_pending_for 3) w'.db.reminders ≡ [])
    × (plan_of 100 w'.db.reminders ≡ rungs (world.outside.clock 2) (monday + 9 * day))
unfolding string_eq nat_eq
mark_task_done-recurs_example =
    mark_task_done-recurs world "T1" 3 "UB" (task 3 open_status (some 7)) (different "T1" "" refl)
      found_weekly refl 7 refl at_home refl (omega arith) (omega arith) (omega arith) refl
