-- ===== src/Worker/Handlers.antt =====
-- app/worker.py: one handler for each type of job.
pub mod Queue
use hound_bot.Exec.Responses.{json_text}
use hound_bot.Json.{is_true, text as json_string}
use hound_bot.Base.{
  ℕ, String, ◌<>◌, Bool, not, ◌&&◌, Option, none, some, List, [], ◌∷◌, ◌==◌, string_eq, map,
  is_some, if◌then◌else◌,
}
use hound_bot.Base.Int.{ℤ}
use hound_bot.Time.{DateTime, minutes_delta}
use hound_bot.Models.{Workspace, Task, Meeting, InboundJob, Payload, event, propose, act_on, Uuid}
use hound_bot.Exec.{
  Error, Result, ok, err, overflow_error, meeting_confirmation, external, respond, post_message,
  publish_home, Exec, pure, raise, or_raise, ask, ◌>>=◌, ◌>>◌, commit, perform, attempt,
}
use hound_bot.Core.Security.{TokenCipher, decrypt, truthy}
use hound_bot.Text.{lstrip, strip}
use hound_bot.Text.Mention.{match_mention}
use hound_bot.Agent.Tools.{AgentContext, join_names, no_slot_text, not_configured}
use hound_bot.Agent.Loop.{run_agent_turn}
use hound_bot.Repositories.Workspaces
use hound_bot.Services.Tasks.{list_open_tasks}
use hound_bot.Services.Meetings.Propose.{ProposalResult, propose_meeting}
use hound_bot.Services.Meetings.Booking.{confirm_meeting, cancel_meeting}

-- The part of `Settings` (app/core/config.py) that the handlers read.
pub record Settings : Type 0 where
  pub google_client_id : Option String
  pub google_client_secret : Option String
  pub groq_api_key : Option String

abbrev pub has_google : Settings → Bool
has_google s = truthy s.google_client_id && truthy s.google_client_secret

-- `_respond`: no response_url, no reply.
unfoldable pub reply_to : String → String → Option (String × Uuid) → Exec Unit
reply_to response_url text button =
    if response_url == "" then pure tt else do perform (respond response_url text button); pure tt

abbrev pub text_or_empty : Option String → String
text_or_empty none = ""
text_or_empty (some s) = s

abbrev pub missing_key : Error
missing_key = external "KeyError"

-- `workspace is None or workspace.uninstalled_at is not None`: nothing is done.
unfoldable pub if_installed : Option Workspace → (Workspace → Exec Unit) → Exec Unit
if_installed none body = pure tt
if_installed (some s) body = if is_some s.uninstalled_at then pure tt else body s

abbrev pub mention_names : List String → List String
mention_names ps = map (λ p. "<@" <> p <> ">") ps

abbrev pub unavailable_note : List String → String
unavailable_note [] = ""
unavailable_note (p ∷ ps) =
    "\n(Couldn't check "
    <> join_names (mention_names (p ∷ ps))
    <> " — not linked yet: `/link-calendar`)"

abbrev pub without_mention : String → Option (String × String) → String
without_mention text none = text
without_mention text (some (_, rest)) = lstrip rest

-- `_strip_bot_mention`
unfoldable pub strip_bot_mention : String → String
unfolding lstrip match_mention strip
strip_bot_mention text = strip (without_mention text (match_mention text))

module _ (settings : Settings) (cipher : TokenCipher) where
  abbrev pub context : InboundJob → Option String → AgentContext
  context job user = record {
    team_id = job.team_id;
    slack_user_id = text_or_empty user;
    calendar_cipher = if has_google settings then some cipher else none;
  }

  unfoldable pub answer_mention :
      InboundJob → String → String → Option String → Option String → Exec Unit
  unfolding json_text
  answer_mention job token channel body user =
      if not (truthy settings.groq_api_key)
      then (do
        perform (
            post_message token channel
              "Natural-language requests aren't set up on this workspace yet.")
        pure tt)
      else do
        reply ←
            run_agent_turn (context job user) (text_or_empty settings.groq_api_key)
              (strip_bot_mention (text_or_empty body))
        said ← json_text (if is_true (some reply) then reply else json_string "Done.")
        perform (post_message token channel said)
        pure tt

  unfoldable pub mention_in : InboundJob → Payload → Workspace → Exec Unit
  unfolding answer_mention
  mention_in job (event (some channel) text user) workspace = do
    token ← decrypt cipher workspace.bot_token_enc workspace.key_version
    answer_mention job token channel text user
  mention_in job payload workspace = raise missing_key

  unfoldable pub handle_app_mention : InboundJob → Exec Unit
  unfolding mention_in if_installed
  handle_app_mention job = do
    workspace ← Workspaces.get job.team_id
    if_installed workspace (mention_in job job.payload)

  -- The reply is sent only after the proposal has been committed.
  unfoldable pub reply_proposal :
      String → ℤ → ProposalResult → Option Meeting → Option DateTime → Exec Unit
  reply_proposal url minutes result (some meeting) (some slot_start) = do
    start ← ask (λ o _. o.isoformat slot_start)
    duration ← ask (λ o _. o.integer minutes)
    reply_to url
        ("Earliest mutual slot: "
          <> start
          <> " UTC, "
          <> duration
          <> " min."
          <> unavailable_note result.unavailable_participants)
        (some ("meet_book", meeting.id))
  reply_proposal url minutes result _ _ = reply_to url no_slot_text none

  unfoldable pub propose_from : InboundJob → Payload → Exec Unit
  unfolding reply_proposal
  propose_from job (propose organiser participants minutes window_start window_end url) =
      if not (has_google settings) then reply_to url not_configured none else do
        duration ← or_raise overflow_error (minutes_delta minutes)
        result ←
            propose_meeting cipher job.team_id organiser participants duration window_start
              window_end
        commit
        reply_proposal url minutes result result.meeting result.slot_start_utc
  propose_from job payload = raise missing_key

  unfoldable pub handle_meet_propose : InboundJob → Exec Unit
  unfolding propose_from
  handle_meet_propose job = propose_from job job.payload

  -- `except MeetingConfirmationError`; any other exception goes on.
  unfoldable pub or_refusal : {A : Type 0} → String → (A → Exec Unit) → Result A → Exec Unit
  or_refusal url k (ok a) = k a
  or_refusal url k (err (meeting_confirmation text)) = reply_to url text none
  or_refusal url k (err e) = raise e

  abbrev pub start_text : Option DateTime → (DateTime → String) → String
  start_text none f = "None"
  start_text (some t) f = f t

  unfoldable pub reply_booked : String → Meeting → Exec Unit
  reply_booked url meeting = do
    commit
    start ← ask (λ o _. start_text meeting.proposed_start_utc o.isoformat)
    reply_to url ("Booked for " <> start <> " UTC.") (some ("meet_cancel", meeting.id))

  unfoldable pub book_from : InboundJob → Payload → Exec Unit
  unfolding or_refusal reply_booked
  book_from job (act_on meeting_id user url) =
      if not (has_google settings) then reply_to url not_configured none else do
        meeting ← attempt (confirm_meeting cipher job.team_id meeting_id user "Meeting")
        or_refusal url (reply_booked url) meeting
  book_from job payload = raise missing_key

  unfoldable pub handle_meet_book : InboundJob → Exec Unit
  unfolding book_from
  handle_meet_book job = book_from job job.payload

  unfoldable pub reply_cancelled : String → Meeting → Exec Unit
  reply_cancelled url meeting = do commit; reply_to url "Cancelled that meeting." none

  unfoldable pub cancel_from : InboundJob → Payload → Exec Unit
  unfolding or_refusal reply_cancelled
  cancel_from job (act_on meeting_id user url) =
      if not (has_google settings) then reply_to url not_configured none else do
        meeting ← attempt (cancel_meeting cipher job.team_id meeting_id user)
        or_refusal url (reply_cancelled url) meeting
  cancel_from job payload = raise missing_key

  unfoldable pub handle_meet_cancel : InboundJob → Exec Unit
  unfolding cancel_from
  handle_meet_cancel job = cancel_from job job.payload

  unfoldable pub handle_app_uninstalled : InboundJob → Exec Unit
  handle_app_uninstalled job = Workspaces.mark_uninstalled job.team_id

  abbrev pub task_id : Task → Uuid
  task_id t = t.id

  unfoldable pub home_for : InboundJob → Payload → Workspace → Exec Unit
  home_for job (event channel text (some user)) workspace = do
    token ← decrypt cipher workspace.bot_token_enc workspace.key_version
    tasks ← list_open_tasks job.team_id (some user)
    perform (publish_home token user (map task_id tasks))
    pure tt
  home_for job payload workspace = raise missing_key

  unfoldable pub handle_app_home_opened : InboundJob → Exec Unit
  unfolding home_for if_installed
  handle_app_home_opened job = do
    workspace ← Workspaces.get job.team_id
    if_installed workspace (home_for job job.payload)

  -- HANDLERS
  unfoldable pub handler_for : String → Option (InboundJob → Exec Unit)
  handler_for event_type =
      if event_type == "app_mention"
      then some handle_app_mention
      else if event_type == "meet_propose"
      then some handle_meet_propose
      else if event_type == "meet_book"
      then some handle_meet_book
      else if event_type == "meet_cancel"
      then some handle_meet_cancel
      else if event_type == "app_uninstalled"
      then some handle_app_uninstalled
      else if event_type == "app_home_opened"
      then some handle_app_home_opened
      else none
