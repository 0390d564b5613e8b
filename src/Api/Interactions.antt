-- ===== src/Api/Interactions.antt =====
-- app/api/routes_interactions.py: clicks on the buttons of messages. Slack puts the team and the
-- user into every interaction; a missing response_url is empty. A background task that sends a reply
-- is an entry of the outcome: it runs after the response.
use hound_bot.Base.{
  String, ◌<>◌, not, Option, none, some, List, [], ◌∷◌, ◌==◌, string_eq, if◌then◌else◌,
}
use hound_bot.Models.{Task, Meeting, act_on, Uuid}
use hound_bot.Exec.{
  Result, ok, err, http_exception, task_authorization, external, Exec, pure, raise, lift, ◌>>=◌,
  ◌>>◌, commit, attempt,
}
use hound_bot.Repositories.Jobs.{enqueue}
use hound_bot.Services.Tasks.{mark_task_done}
use hound_bot.Services.Meetings.Booking.{find_meeting}
use hound_bot.Api.Http.{Request, check_signature}

pub record Action : Type 0 where
  pub action_id : String
  pub value : Option String

pub record Interaction : Type 0 where
  pub actions : List Action
  pub team_id : String
  pub user_id : String
  pub response_url : String

-- The status of the response, and the replies that are sent after it.
pub record Outcome : Type 0 where
  pub status : String
  pub background_tasks : List (String × String)

abbrev pub reply : String → String → Outcome
reply response_url text = record {
  status = "ok";
  background_tasks = if response_url == "" then [] else (response_url, text) ∷ [];
}

-- `uuid.UUID` is a parameter; none is ValueError.
module _ (parse_uuid : String → Option Uuid) where
  -- The id of an action's value; a missing value is a TypeError.
  unfoldable pub with_id :
      Interaction → String → Option String → (Uuid → Exec Outcome) → Exec Outcome
  with_id i text none k =
      raise (external "one of the hex, bytes, bytes_le, fields, or int arguments must be given")
  with_id i text (some value) k = elim (parse_uuid value) [
    | none ↦ pure (reply i.response_url text)
    | some id ↦ k id
  ]

  -- `except TaskAuthorizationError`
  unfoldable pub answer_done : Interaction → Result (Option Task) → Exec Outcome
  answer_done i (err (task_authorization text)) = do commit; pure (reply i.response_url text)
  answer_done i (err e) = raise e
  answer_done i (ok none) = do
    commit
    pure (reply i.response_url "No task found with that ID in this workspace.")
  answer_done i (ok (some task)) = do
    commit
    pure (reply i.response_url ("Marked \"" <> task.title <> "\" done."))

  unfoldable pub on_task_done : Interaction → Uuid → Exec Outcome
  unfolding answer_done
  on_task_done i task_id = do
    task ← attempt (mark_task_done i.team_id task_id i.user_id)
    answer_done i task

  unfoldable pub queue_meeting : Interaction → String → Uuid → String → Exec Outcome
  queue_meeting i event_type meeting_id text = do
    enqueue i.team_id event_type (act_on meeting_id i.user_id i.response_url)
    commit
    pure (reply i.response_url text)

  unfoldable pub on_meet_book : Interaction → Uuid → Exec Outcome
  unfolding queue_meeting
  on_meet_book i meeting_id =
      queue_meeting i "meet_book" meeting_id "Booking that meeting — I'll follow up here shortly."

  unfoldable pub cancel_if_organiser : Interaction → Uuid → Option Meeting → Exec Outcome
  unfolding queue_meeting
  cancel_if_organiser i meeting_id none =
      pure (reply i.response_url "No meeting with that ID in this workspace.")
  cancel_if_organiser i meeting_id (some meeting) =
      if not (meeting.organiser_slack_id == i.user_id)
      then pure (reply i.response_url "Only the meeting organiser can cancel it.")
      else queue_meeting i "meet_cancel" meeting_id
          "Cancelling that meeting — I'll follow up here shortly."

  unfoldable pub on_meet_cancel : Interaction → Uuid → Exec Outcome
  unfolding cancel_if_organiser
  on_meet_cancel i meeting_id = do
    meeting ← find_meeting i.team_id meeting_id
    cancel_if_organiser i meeting_id meeting

  unfoldable pub act : Interaction → List Action → Exec Outcome
  unfolding with_id on_task_done on_meet_book on_meet_cancel
  act i [] = pure (record { status = "ignored"; background_tasks = [] })
  act i (a ∷ _) =
      if a.action_id == "task_done"
      then with_id i "Invalid task ID." a.value (on_task_done i)
      else if a.action_id == "meet_book"
      then with_id i "Invalid meeting ID." a.value (on_meet_book i)
      else if a.action_id == "meet_cancel"
      then with_id i "Invalid meeting ID." a.value (on_meet_cancel i)
      else pure (reply i.response_url "Unknown action.")

  -- `form.get("payload")` and `json.loads` are parameters.
  module _ (hmac : String → String → String) (signing_secret : String)
      (payload_of : String → Option String) (loads : String → Result Interaction) where
    unfoldable pub payload_or_400 : Option String → Exec Interaction
    payload_or_400 none = raise (http_exception 400 "missing payload")
    payload_or_400 (some text) =
        if text == "" then raise (http_exception 400 "missing payload") else lift (loads text)

    unfoldable pub slack_interactions : Request → Exec Outcome
    unfolding act payload_or_400
    slack_interactions request = do
      check_signature hmac signing_secret request
      i ← payload_or_400 (payload_of request.raw_body)
      act i i.actions
