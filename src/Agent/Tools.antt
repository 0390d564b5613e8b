-- ===== src/Agent/Tools.antt =====
-- app/agent/tools.py: the tool handlers. The team and the user come from the context alone.
use hound_bot.Base.{String, ◌<>◌, Option, none, some, List, [], ◌∷◌}
use hound_bot.Base.Int.{ℤ}
use hound_bot.Time.{DateTime, minutes_delta}
use hound_bot.Models.{Task, Meeting}
use hound_bot.Exec.{overflow_error, external, Exec, pure, raise, or_raise, ask, ◌>>=◌, ◌>>◌, commit}
use hound_bot.Core.Security.{TokenCipher}
use hound_bot.Services.Tasks
use hound_bot.Services.Tasks.{TaskFields}
use hound_bot.Services.Analytics.{build_weekly_digest}
use hound_bot.Services.Meetings.Propose.{ProposalResult, propose_meeting}

-- `class AgentContext`. The cipher is none where no calendar is configured.
pub record AgentContext : Type 0 where
  pub team_id : String
  pub slack_user_id : String
  pub calendar_cipher : Option TokenCipher

abbrev pub fields_of_call : AgentContext → String → String → DateTime → TaskFields
fields_of_call ctx assignee title due_at_utc = record {
  team_id = ctx.team_id;
  creator_slack_id = ctx.slack_user_id;
  assignee_slack_id = assignee;
  title = title;
  due_at_utc = due_at_utc;
  channel_id = "agent";
  recurrence_interval_days = none;
}

unfoldable pub handle_create_task : AgentContext → String → String → DateTime → Exec String
handle_create_task ctx assignee title due_at_utc = do
  task ← Tasks.create_task (fields_of_call ctx assignee title due_at_utc)
  commit
  id ← ask (λ o _. o.decimal task.id)
  due ← ask (λ o _. o.isoformat due_at_utc)
  pure ("Created task \"" <> task.title <> "\" (id " <> id <> "), due " <> due <> ".")

unfoldable pub task_lines : List Task → String → Exec String
task_lines [] acc = pure acc
task_lines (t ∷ ts) acc = do
  due ← ask (λ o _. o.isoformat t.due_at_utc)
  task_lines ts (acc <> "\n- " <> t.title <> " (due " <> due <> ")")

unfoldable pub list_text : List Task → Exec String
unfolding task_lines
list_text [] = pure "No open tasks."
list_text (t ∷ ts) = do
  due ← ask (λ o _. o.isoformat t.due_at_utc)
  task_lines ts ("- " <> t.title <> " (due " <> due <> ")")

unfoldable pub handle_list_tasks : AgentContext → Exec String
unfolding list_text
handle_list_tasks ctx = do
  tasks ← Tasks.list_open_tasks ctx.team_id (some ctx.slack_user_id)
  list_text tasks

unfoldable pub handle_get_digest : AgentContext → Exec String
handle_get_digest ctx = build_weekly_digest ctx.team_id

abbrev pub not_configured : String
not_configured = "Calendar scheduling isn't configured on this workspace yet."

abbrev pub no_slot_text : String
no_slot_text = "No mutual free slot exists in that window for the linked calendars."

-- `", ".join(names)`
abbrev pub join_names : List String → String
join_names [] = ""
join_names (p ∷ []) = p
join_names (p ∷ ps) = p <> ", " <> join_names ps

abbrev pub note_text : List String → String
note_text [] = ""
note_text (p ∷ ps) =
    " (couldn't check " <> join_names (p ∷ ps) <> " — they haven't linked a calendar yet)"

-- A result with a meeting has its slot too.
unfoldable pub proposal_text :
    ProposalResult → Option Meeting → Option DateTime → String → Exec String
proposal_text result none slot_start_utc duration = pure no_slot_text
proposal_text result (some meeting) none duration = raise (external "AttributeError")
proposal_text result (some meeting) (some slot_start) duration = do
  start ← ask (λ o _. o.isoformat slot_start)
  id ← ask (λ o _. o.decimal meeting.id)
  pure (
      "Proposed "
      <> duration
      <> " min at "
      <> start
      <> " UTC"
      <> note_text result.unavailable_participants
      <> ". Not booked yet — run `/meet book "
      <> id
      <> "` to confirm it.")

unfoldable pub propose_with :
    AgentContext → Option TokenCipher → List String → ℤ → DateTime → DateTime → Exec String
unfolding proposal_text
propose_with ctx none participants minutes window_start window_end = pure not_configured
propose_with ctx (some cipher) participants minutes window_start window_end = do
  duration ← or_raise overflow_error (minutes_delta minutes)
  result ←
      propose_meeting cipher ctx.team_id ctx.slack_user_id participants duration window_start
        window_end
  commit
  text ← ask (λ o _. o.integer minutes)
  proposal_text result result.meeting result.slot_start_utc text

unfoldable pub handle_propose_meeting :
    AgentContext → List String → ℤ → DateTime → DateTime → Exec String
unfolding propose_with
handle_propose_meeting ctx = propose_with ctx ctx.calendar_cipher
