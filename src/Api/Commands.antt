-- ===== src/Api/Commands.antt =====
-- app/api/routes_commands.py: the slash commands. `uuid.UUID`, `datetime.fromisoformat`,
-- the reading of the form, the repr of a text and the text of an integer are parameters.
use hound_bot.Base.{
  String, ◌<>◌, Bool, not, ◌&&◌, Option, none, some, List, [], map, ◌==◌, string_eq, ◌⊎◌, inl, inr,
  if◌then◌else◌,
}
use hound_bot.Base.Int.{ℤ}
use hound_bot.Models.{Task, act_on, propose, google_link, Uuid}
use hound_bot.Exec.{
  Result, ok, err, http_exception, task_authorization, Exec, pure, raise, lift, ask, ◌>>=◌, ◌>>◌,
  commit, attempt,
}
use hound_bot.Core.Security.{truthy}
use hound_bot.Text.{strip, lstrip, rstrip_slash}
use hound_bot.Text.Mention.{match_mention}
use hound_bot.Text.Split.{after_prefix, split_word}
use hound_bot.Services.Parsers.{IsoTime, AddFields, MeetFields, parse_task_add, parse_meet_command}
use hound_bot.Repositories.Jobs.{enqueue}
use hound_bot.Repositories.OAuthStates.{issue, default_ttl_seconds}
use hound_bot.Services.Tasks.{create_task, list_open_tasks, mark_task_done, reassign_task}
use hound_bot.Api.Http.{Request, Response, ephemeral, task_blocks, check_signature}

-- The fields of the form, empty where one is missing.
pub record Form : Type 0 where
  pub command : String
  pub text : String
  pub team_id : String
  pub user_id : String
  pub channel_id : String
  pub response_url : String

-- `rest.split(maxsplit=1)` of a stripped text, where it has two parts
abbrev pub split_once : String → Option (String × String)
split_once text =
    let parts = split_word text in
    if lstrip parts.1 == "" then none else some (parts.0, lstrip parts.1)

-- The part of `Settings` that the commands read.
pub record CommandSettings : Type 0 where
  pub google_client_id : Option String
  pub google_client_secret : Option String
  pub encryption_key : Option String
  pub public_base_url : Option String

abbrev pub calendar_configured : CommandSettings → Bool
calendar_configured s =
    truthy s.google_client_id && truthy s.google_client_secret && truthy s.encryption_key

abbrev pub task_usage : String
task_usage =
    "Usage:\n`/task add @assignee Title | 2026-09-10T17:00+00:00 | repeat:7`\n`/task list`\n`/task done <task-id>`\n`/task reassign <task-id> @newassignee`"

abbrev pub reassign_usage : String
reassign_usage = "Usage: /task reassign <task-id> @newassignee"

abbrev pub task_id : Task → Uuid
task_id t = t.id

-- A command's text by its verb, as the chain of `startswith` tests finds it.
pub data Verb : Type 0 where
  add_verb done_verb reassign_verb : String → Verb
  list_verb no_verb : Verb

unfoldable pub verb_of : String → Option String → Option String → Option String → Verb
verb_of text (some rest) _ _ = add_verb (strip rest)
verb_of text none (some rest) _ = if text == "list" then list_verb else done_verb (strip rest)
verb_of text none none (some rest) =
    if text == "list" then list_verb else reassign_verb (strip rest)
verb_of text none none none = if text == "list" then list_verb else no_verb

unfoldable pub task_verb : String → Verb
unfolding verb_of after_prefix
task_verb text =
    verb_of text (after_prefix "add " text) (after_prefix "done " text)
      (after_prefix "reassign " text)

module _ (parse_uuid : String → Option Uuid) (repr : String → String)
    (fromisoformat : String → IsoTime) (str : ℤ → String) (settings : CommandSettings) where
  unfoldable pub add_task : Form → AddFields ⊎ String → Exec Response
  add_task form (inr text) = pure (ephemeral text)
  add_task form (inl f) = do
    task ← create_task (record {
      team_id = form.team_id;
      creator_slack_id = form.user_id;
      assignee_slack_id = f.assignee;
      title = f.title;
      due_at_utc = f.due_at_utc;
      channel_id = form.channel_id;
      recurrence_interval_days = f.recurrence_interval_days;
    })
    commit
    due ← ask (λ o _. o.isoformat f.due_at_utc)
    pure (ephemeral ("Created task \"" <> task.title <> "\", due " <> due <> "."))

  abbrev pub list_response : List Task → Response
  list_response [] = ephemeral "No open tasks assigned to you."
  list_response tasks = task_blocks (map task_id tasks)

  -- `except TaskAuthorizationError`, and the answer where there is a task.
  unfoldable pub answer_task : (Task → String) → Result (Option Task) → Exec Response
  answer_task text (err (task_authorization refusal)) = pure (ephemeral refusal)
  answer_task text (err e) = raise e
  answer_task text (ok none) = do
    commit
    pure (ephemeral "No task found with that ID in this workspace.")
  answer_task text (ok (some task)) = do commit; pure (ephemeral (text task))

  unfoldable pub finish_task : Form → String → Option Uuid → Exec Response
  unfolding answer_task
  finish_task form raw_id none = pure (ephemeral (repr raw_id <> " isn't a valid task ID."))
  finish_task form raw_id (some id) = do
    task ← attempt (mark_task_done form.team_id id form.user_id)
    answer_task (λ t. "Marked \"" <> t.title <> "\" done.") task

  unfoldable pub reassign_to : Form → Uuid → Option (String × String) → Exec Response
  unfolding answer_task
  reassign_to form id none = pure (ephemeral reassign_usage)
  reassign_to form id (some (new_assignee, _)) = do
    task ← attempt (reassign_task form.team_id id form.user_id new_assignee)
    answer_task (λ t. "Reassigned \"" <> t.title <> "\" to <@" <> new_assignee <> ">.") task

  unfoldable pub reassign_parts : Form → Option (String × String) → Exec Response
  unfolding reassign_to
  reassign_parts form none = pure (ephemeral reassign_usage)
  reassign_parts form (some (raw_id, mention)) = elim (parse_uuid raw_id) [
    | none ↦ pure (ephemeral (repr raw_id <> " isn't a valid task ID."))
    | some id ↦ reassign_to form id (match_mention mention)
  ]

  unfoldable pub run_task_verb : Form → Verb → Exec Response
  unfolding add_task finish_task reassign_parts
  run_task_verb form (add_verb rest) = do
    parsed ← lift (parse_task_add fromisoformat repr str rest)
    add_task form parsed
  run_task_verb form list_verb = do
    tasks ← list_open_tasks form.team_id (some form.user_id)
    pure (list_response tasks)
  run_task_verb form (done_verb raw_id) = finish_task form raw_id (parse_uuid raw_id)
  run_task_verb form (reassign_verb rest) = reassign_parts form (split_once rest)
  run_task_verb form no_verb = pure (ephemeral task_usage)

  unfoldable pub handle_task_command : Form → Exec Response
  unfolding run_task_verb task_verb
  handle_task_command form = run_task_verb form (task_verb (strip form.text))

  abbrev pub not_configured : Response
  not_configured = ephemeral "Calendar scheduling isn't configured on this workspace yet."

  -- `_handle_meet_book` and `_handle_meet_cancel`, which differ in two texts.
  unfoldable pub queue_action : Form → String → String → String → Option Uuid → Exec Response
  queue_action form event_type text raw_id none =
      pure (ephemeral (repr raw_id <> " isn't a valid meeting ID."))
  queue_action form event_type text raw_id (some id) =
      if not (calendar_configured settings) then pure not_configured else do
        enqueue form.team_id event_type (act_on id form.user_id form.response_url)
        commit
        pure (ephemeral text)

  unfoldable pub handle_meet_book : Form → String → Exec Response
  unfolding queue_action
  handle_meet_book form raw_id =
      queue_action form "meet_book" "Booking that meeting — I'll follow up here shortly." raw_id
        (parse_uuid raw_id)

  unfoldable pub handle_meet_cancel : Form → String → Exec Response
  unfolding queue_action
  handle_meet_cancel form raw_id =
      queue_action form "meet_cancel" "Cancelling that meeting — I'll follow up here shortly."
        raw_id (parse_uuid raw_id)

  unfoldable pub queue_proposal : Form → MeetFields ⊎ String → Exec Response
  queue_proposal form (inr text) = pure (ephemeral text)
  queue_proposal form (inl f) =
      if not (calendar_configured settings) then pure not_configured else do
        enqueue form.team_id "meet_propose" (
            propose form.user_id f.participants f.duration_minutes f.window_start f.window_end
              form.response_url)
        commit
        pure (ephemeral "Looking for a mutual free slot — I'll follow up here shortly.")

  unfoldable pub run_meet : Form → String → Option String → Option String → Exec Response
  unfolding handle_meet_book handle_meet_cancel queue_proposal
  run_meet form text (some rest) _ = handle_meet_book form (strip rest)
  run_meet form text none (some rest) = handle_meet_cancel form (strip rest)
  run_meet form text none none = do
    parsed ← lift (parse_meet_command fromisoformat repr str text)
    queue_proposal form parsed

  unfoldable pub handle_meet_command : Form → Exec Response
  unfolding run_meet
  handle_meet_command form =
      let text = strip form.text in
      run_meet form text (after_prefix "book " text) (after_prefix "cancel " text)

  unfoldable pub link_calendar_url : Option String → String → Exec String
  unfolding rstrip_slash
  link_calendar_url none state = raise (http_exception 500 "PUBLIC_BASE_URL is not configured")
  link_calendar_url (some base) state =
      if base == ""
      then raise (http_exception 500 "PUBLIC_BASE_URL is not configured")
      else pure (rstrip_slash base <> "/google/link?state=" <> state)

  -- The state is issued here, where the signature has shown who asks.
  unfoldable pub handle_link_calendar_command : Form → Exec Response
  unfolding link_calendar_url
  handle_link_calendar_command form = do
    state ← issue google_link (some form.team_id) (some form.user_id) default_ttl_seconds
    commit
    url ← link_calendar_url settings.public_base_url state
    pure (ephemeral ("Link your Google Calendar: " <> url))

  unfoldable pub run_command : Form → Exec Response
  unfolding handle_task_command handle_link_calendar_command handle_meet_command
  run_command form =
      if form.command == "/task"
      then handle_task_command form
      else if form.command == "/link-calendar"
      then handle_link_calendar_command form
      else if form.command == "/meet"
      then handle_meet_command form
      else pure (ephemeral ("Unknown command " <> repr form.command <> "."))

  module _ (hmac : String → String → String) (signing_secret : String)
      (form_of : String → Form) where
    unfoldable pub slack_commands : Request → Exec Response
    unfolding run_command
    slack_commands request = do
      check_signature hmac signing_secret request
      run_command (form_of request.raw_body)
