-- ===== src/Scheduler.antt =====
-- app/scheduler.py: the reminders that are due go out as direct messages.
pub mod Delivery
use hound_bot.Base.{
  ℕ, String, ◌<>◌, Option, none, some, List, [], ◌∷◌, ◌==◌, string_eq, nat_eq, is_some, select,
  length, if◌then◌else◌, not,
}
use hound_bot.Models.{Task, Reminder, Workspace, open_status, task_status_eq}
use hound_bot.Exec.{
  open_conversation, direct_message, Exec, pure, query, scalar_one_or_none, ◌>>=◌, ◌>>◌, commit,
  perform, for_each,
}
use hound_bot.Core.Security.{TokenCipher, decrypt}
use hound_bot.Repositories.Tasks
use hound_bot.Repositories.Workspaces
use hound_bot.Repositories.Reminders
use hound_bot.Services.Tasks.{escalation_level_overdue}

abbrev pub reminder_text : ℕ → Task → String
reminder_text escalation_level task =
    if escalation_level == escalation_level_overdue
    then "Overdue: \"" <> task.title <> "\""
    else "Reminder: \"" <> task.title <> "\" is due soon."

-- The set {assignee} or {assignee, creator}; Python leaves the order of a set open.
abbrev pub recipients : ℕ → Task → List String
recipients escalation_level task =
    if escalation_level == escalation_level_overdue
    then (if task.creator_slack_id == task.assignee_slack_id
        then task.assignee_slack_id ∷ []
        else task.assignee_slack_id ∷ task.creator_slack_id ∷ [])
    else task.assignee_slack_id ∷ []

unfoldable pub notify : String → String → Task → String → Exec Unit
notify token text task slack_user_id = do
  channel ← perform (open_conversation token slack_user_id)
  perform (direct_message token channel text task.id)
  pure tt

module _ (cipher : TokenCipher) where
  unfoldable pub send_reminder : Reminder → Task → Workspace → Exec Unit
  unfolding notify
  send_reminder reminder task workspace = do
    token ← decrypt cipher workspace.bot_token_enc workspace.key_version
    for_each (recipients reminder.escalation_level task)
        (notify token (reminder_text reminder.escalation_level task) task)

  -- No message goes out for a workspace that is gone or has removed the bot.
  unfoldable pub send_if_installed : Reminder → Task → Option Workspace → Exec Unit
  unfolding send_reminder
  send_if_installed reminder task none = pure tt
  send_if_installed reminder task (some workspace) =
      if is_some workspace.uninstalled_at then pure tt else send_reminder reminder task workspace

  -- Nor for a task that is gone or done.
  unfoldable pub send_if_open : Reminder → Option Task → Exec Unit
  unfolding send_if_installed
  send_if_open reminder none = pure tt
  send_if_open reminder (some task) =
      if not (task.status == open_status)
      then pure tt
      else do workspace ← Workspaces.get reminder.team_id; send_if_installed reminder task workspace

  -- One turn of the loop. Each of its three ends marks the reminder sent and commits.
  unfoldable pub process_reminder : Reminder → Exec Unit
  unfolding send_if_open
  process_reminder reminder = do
    rows ← query (λ db. select (Tasks.has_id reminder.task_id) db.tasks)
    task ← scalar_one_or_none rows
    send_if_open reminder task
    Reminders.mark_sent reminder.id
    commit

  unfoldable pub process_due_reminders : Exec ℕ
  unfolding process_reminder
  process_due_reminders = do
    due ← Reminders.claim_due_batch 10
    for_each due process_reminder
    pure (length due)
