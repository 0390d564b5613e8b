-- ===== src/Services/Tasks.antt =====
-- app/services/task_service.py: tasks and the reminder schedule that goes with each.

pub mod Schedule
pub mod Completion
pub mod Recurrence
use hound_bot.Base.{
  ℕ, ◌*◌, String, Bool, not, ◌&&◌, ◌||◌, Option, none, some, List, ◌==◌, string_eq, ltb,
  if◌then◌else◌,
}
use hound_bot.Base.Int.{pos}
use hound_bot.Time.{DateTime, day, hour, add_delta, sub_delta}
use hound_bot.Models.{Task, open_status, done_status, task_status_eq, Uuid}
use hound_bot.Exec.{
  overflow_error, task_authorization, Exec, pure, or_raise, ◌>>=◌, ◌>>◌, modify, raise_if, now,
  fresh_uuid,
}
use hound_bot.Repositories.Tenant.{open_repository}
use hound_bot.Repositories.Tasks
use hound_bot.Repositories.Reminders

abbrev pub reminder_before_due : ℕ
reminder_before_due = 24 * hour

abbrev pub escalation_level_upcoming : ℕ
escalation_level_upcoming = 0

abbrev pub escalation_level_due_today : ℕ
escalation_level_due_today = 1

abbrev pub escalation_level_overdue : ℕ
escalation_level_overdue = 2

-- The arguments of `create_task`.
pub record TaskFields : Type 0 where
  pub team_id : String
  pub creator_slack_id : String
  pub assignee_slack_id : String
  pub title : String
  pub due_at_utc : DateTime
  pub channel_id : String
  pub recurrence_interval_days : Option ℕ

-- The row that `TaskRepository.add` makes of them.
abbrev pub new_task : Uuid → DateTime → TaskFields → Task
new_task id created_at f = record {
  id = id;
  team_id = f.team_id;
  creator_slack_id = f.creator_slack_id;
  assignee_slack_id = f.assignee_slack_id;
  title = f.title;
  due_at_utc = f.due_at_utc;
  status = open_status;
  channel_id = f.channel_id;
  recurrence_interval_days = f.recurrence_interval_days;
  created_at = created_at;
}

-- The rung 24 hours before the deadline is skipped where that moment has passed.
unfoldable pub create_upcoming : Uuid → String → DateTime → DateTime → Exec Unit
create_upcoming task_id team_id fire_at t =
    if ltb t fire_at
    then Reminders.create task_id team_id fire_at escalation_level_upcoming
    else pure tt

unfoldable pub schedule_reminders : Uuid → String → DateTime → Exec Unit
unfolding create_upcoming
schedule_reminders task_id team_id due_at_utc = do
  upcoming_fire_at ← or_raise overflow_error (sub_delta due_at_utc reminder_before_due)
  t ← now
  create_upcoming task_id team_id upcoming_fire_at t
  Reminders.create task_id team_id due_at_utc escalation_level_due_today
  overdue_fire_at ← or_raise overflow_error (add_delta due_at_utc (pos reminder_before_due))
  Reminders.create task_id team_id overdue_fire_at escalation_level_overdue

unfoldable pub create_task : TaskFields → Exec Task
create_task f = do
  open_repository f.team_id
  id ← fresh_uuid
  created_at ← now
  task ← Tasks.add (new_task id created_at f)
  schedule_reminders task.id f.team_id f.due_at_utc
  pure task

abbrev pub is_open_for : Option String → Task → Bool
is_open_for none t = t.status == open_status
is_open_for (some assignee) t = t.status == open_status && t.assignee_slack_id == assignee

unfoldable pub list_open_tasks : String → Option String → Exec (List Task)
list_open_tasks team_id assignee = do
  open_repository team_id
  Tasks.list team_id (is_open_for assignee)

-- `requesting_slack_user_id in (task.assignee_slack_id, task.creator_slack_id)`
abbrev pub may_change : String → Task → Bool
may_change user t = user == t.assignee_slack_id || user == t.creator_slack_id

-- The next occurrence of a recurring task has the fields of the one that is done.
abbrev pub next_occurrence : String → Task → DateTime → ℕ → TaskFields
next_occurrence team_id t due_at_utc interval = record {
  team_id = team_id;
  creator_slack_id = t.creator_slack_id;
  assignee_slack_id = t.assignee_slack_id;
  title = t.title;
  due_at_utc = due_at_utc;
  channel_id = t.channel_id;
  recurrence_interval_days = some interval;
}

unfoldable pub create_next : String → Task → Option ℕ → Exec Unit
create_next team_id task none = pure tt
create_next team_id task (some interval) = do
  next_due_at ← or_raise overflow_error (add_delta task.due_at_utc (pos (interval * day)))
  create_task (next_occurrence team_id task next_due_at interval)
  pure tt

abbrev pub finish : Task → Task
finish t = record t { status = done_status }

unfoldable pub complete_task : String → String → Option Task → Exec (Option Task)
unfolding create_next
complete_task team_id user none = pure none
complete_task team_id user (some task) = do
  raise_if (not (may_change user task))
      (task_authorization "Only the assignee or the creator can mark this task done.")
  modify (Tasks.write task.id finish)
  Reminders.cancel_pending_for_task task.id
  create_next team_id task task.recurrence_interval_days
  pure (some (finish task))

unfoldable pub mark_task_done : String → Uuid → String → Exec (Option Task)
unfolding complete_task
mark_task_done team_id task_id requesting_slack_user_id = do
  open_repository team_id
  task ← Tasks.get team_id task_id
  complete_task team_id requesting_slack_user_id task

abbrev pub assign_to : String → Task → Task
assign_to user t = record t { assignee_slack_id = user }

unfoldable pub assign : String → String → Option Task → Exec (Option Task)
assign user assignee none = pure none
assign user assignee (some task) = do
  raise_if (not (may_change user task))
      (task_authorization "Only the assignee or the creator can reassign this task.")
  modify (Tasks.write task.id (assign_to assignee))
  pure (some (assign_to assignee task))

unfoldable pub reassign_task : String → Uuid → String → String → Exec (Option Task)
unfolding assign
reassign_task team_id task_id requesting_slack_user_id new_assignee_slack_id = do
  open_repository team_id
  task ← Tasks.get team_id task_id
  assign requesting_slack_user_id new_assignee_slack_id task
