-- ===== src/Ui/Blocks/Buttons.antt =====
-- What a click on a button of the blocks does: the value that the button holds comes back to
-- app/api/routes_interactions.py.
use hound_bot.Base.{
  suc, ◌≡◌, refl, ap, String, ◌<>◌, true, not, Option, none, some, List, [], ◌∷◌, ◌++◌, map,
  string_eq, nat_eq, ◌==◌, select, update, All, Bool-cases, inl, inr, if◌then◌else◌,
}
use hound_bot.Time.{DateTime}
use hound_bot.Models.{Db, Task, Meeting, Uuid, act_on}
use hound_bot.Exec.{Exec, Result, ok, World, exec}
use hound_bot.Repositories.Tasks
use hound_bot.Repositories.Jobs.{new_job, enqueue}
use hound_bot.Repositories.Reminders.{is_pending_for}
use hound_bot.Repositories.Constraints.{has_workspace, references_workspace}
use hound_bot.Services.Tasks.{may_change, finish}
use hound_bot.Services.Meetings.Booking.{find_meeting, is_team_row}
use hound_bot.Exec.Laws.{scalar_one_or_none-same_world}
use hound_bot.Ui.Blocks.{Block, section, actions, build_meeting_action_blocks}
use hound_bot.Api.Interactions.{
  Action, Interaction, Outcome, reply, act, with_id, on_meet_book, on_meet_cancel, queue_meeting,
  cancel_if_organiser,
}

-- The actions that clicks on the blocks' buttons send, from the first to the last.
abbrev pub buttons : List Block → List Action
buttons [] = []
buttons (section _ ∷ blocks) = buttons blocks
buttons (actions _ action_id value ∷ blocks) =
    record { action_id = action_id; value = some value } ∷ buttons blocks

-- What a click on the button of a task without recurrence comes to, at the world `w`: the task ends
-- done with no reminder left to send, or the click is refused; either is committed and answered.
abbrev pub task_clicked : Interaction → World → Task → Result Outcome × World
task_clicked i w t =
    let done : Db = record w.db {
      tasks = update (Tasks.has_id t.id) finish w.db.tasks;
      reminders = select (λ r. not (is_pending_for t.id r)) w.db.reminders;
    } in
    if may_change i.user_id t
    then (
      ok (reply i.response_url ("Marked \"" <> t.title <> "\" done.")),
      record w { db = done; saved = done },
    )
    else (
      ok (reply i.response_url "Only the assignee or the creator can mark this task done."),
      record w { saved = w.db },
    )

-- The world in which a job of the click is queued and committed.
abbrev pub queued : Interaction → String → Uuid → World → World
queued i kind id w =
    let db : Db = record w.db {
      jobs =
          w.db.jobs
          ++ new_job (w.outside.uuid4 (suc w.calls)) i.team_id kind
              (act_on id i.user_id i.response_url) (w.outside.clock w.calls)
            ∷ [];
    } in
    record w { db = db; saved = db; calls = suc (suc w.calls) }

-- What a click on the button that cancels a meeting of the team comes to.
abbrev pub cancel_clicked : Interaction → World → Meeting → Result Outcome × World
cancel_clicked i w m =
    if m.organiser_slack_id == i.user_id
    then (
      ok (reply i.response_url "Cancelling that meeting — I'll follow up here shortly."),
      queued i "meet_cancel" m.id w,
    )
    else (ok (reply i.response_url "Only the meeting organiser can cancel it."), w)

-- The rows of a list as the team has them now, none recurring.
abbrev pub AreListed : String → World → List Task → Type 0
AreListed team w =
    All (λ t. ((Tasks.get team t.id w).0 ≡ ok (some t)) × (t.recurrence_interval_days ≡ none))

module _ (parse_uuid : String → Option Uuid) (i : Interaction) (w : World) where
  abbrev pub click : Action → Result Outcome × World
  click a = act parse_uuid i (a ∷ []) w

module _ (parse_uuid : String → Option Uuid) (isoformat : DateTime → String) (str : Uuid → String)
    (i : Interaction) (w : World) where
  on_meet_book-queues :
      (id : Uuid)
      → has_workspace i.team_id w.db ≡ true
      → on_meet_book parse_uuid i id w ≡ (
        ok (reply i.response_url "Booking that meeting — I'll follow up here shortly."),
        queued i "meet_book" id w,
      )
  unfolding on_meet_book queue_meeting enqueue references_workspace exec
  on_meet_book-queues id home = rw home refl

  find_meeting-same_world : (id : Uuid) → (find_meeting i.team_id id w).1 ≡ w
  unfolding find_meeting exec
  find_meeting-same_world id =
      scalar_one_or_none-same_world (select (is_team_row i.team_id id) w.db.meetings) w

  on_meet_cancel-clicked :
      (m : Meeting)
      → has_workspace i.team_id w.db ≡ true
      → (find_meeting i.team_id m.id w).0 ≡ ok (some m)
      → on_meet_cancel parse_uuid i m.id w ≡ cancel_clicked i w m
  unfolding on_meet_cancel cancel_if_organiser queue_meeting enqueue references_workspace exec
  on_meet_cancel-clicked m home found = elim (Bool-cases (m.organiser_slack_id == i.user_id)) [
    | inl e ↦ rw (found, find_meeting-same_world m.id, e, home) refl
    | inr e ↦ rw (found, find_meeting-same_world m.id, e) refl
  ]

  module _ (trip : (id : Uuid) → parse_uuid (str id) ≡ some id) where
    with_id_lem :
        (refusal : String) (id : Uuid) (k : Uuid → Exec Outcome)
        → with_id parse_uuid i refusal (some (str id)) k ≡ k id
    unfolding with_id
    with_id_lem refusal id k = rw (trip id, with_id) refl

    -- Where the text of an id is read as that id, for a meeting that the team has, and a team with a
    -- workspace: a click on the button that books the meeting queues one job, which names the
    -- meeting, the user who clicked and where to reply, and commits it. A click on the button that
    -- cancels it does the same for the cancellation if the user is the organiser, and is refused and
    -- changes nothing if not.
    pub meeting_button-acts :
        (m : Meeting) (label : String)
        → has_workspace i.team_id w.db ≡ true
        → (find_meeting i.team_id m.id w).0 ≡ ok (some m)
        → (map
              (click parse_uuid i w)
              (buttons (build_meeting_action_blocks (str m.id) "meet_book" label))
            ≡ (
              ok (reply i.response_url "Booking that meeting — I'll follow up here shortly."),
              queued i "meet_book" m.id w,
            )
              ∷ [])
          × (map
                (click parse_uuid i w)
                (buttons (build_meeting_action_blocks (str m.id) "meet_cancel" label))
              ≡ cancel_clicked i w m ∷ [])
    unfolding build_meeting_action_blocks act string_eq
    meeting_button-acts m label home found = (
      cc (
        ap (λ (k : Exec Outcome). k w)
            (with_id_lem "Invalid meeting ID." m.id (on_meet_book parse_uuid i)),
        on_meet_book-queues m.id home,
      ),
      cc (
        ap (λ (k : Exec Outcome). k w)
            (with_id_lem "Invalid meeting ID." m.id (on_meet_cancel parse_uuid i)),
        on_meet_cancel-clicked m home found,
      ),
    )
