-- ===== src/Tests/Agent.antt =====
-- A turn of the agent, and clicks on buttons, at the concrete world.
use hound_bot.Services.Tasks.{list_open_tasks}
use hound_bot.Services.Analytics.Tenancy.{SameRows, reads-own_rows}
use hound_bot.Services.Analytics.Rate.{is_unfinished, task_completion_rate-bounds}
use hound_bot.Services.Analytics.{task_completion_rate, build_weekly_digest}
use hound_bot.Agent.Confined.{Confined, execute_tool_call-Confined}
use Prim.Native.Char.{nul}
use hound_bot.Base.{
  ◌≡◌, refl, ℕ, zero, suc, String, Option, none, some, [], ◌∷◌, ap, map, nat_eq, if◌then◌else◌, ◌*◌,
  ◌+◌, ◌⊎◌, inl, inr, leb, ◌≤◌, ◌↔◌, any, false, string_eq, true,
}
use hound_bot.Time.{DateTime, day}
use hound_bot.Models.{Uuid, open_status, Db, proposed}
use hound_bot.Exec.{World, ok, exec}
use hound_bot.Json.{Json, text, array, object, Items, no_items, item, no_members, key}
use hound_bot.HttpClient.{HttpResponse}
use hound_bot.Agent.Schema.{
  Tool, create_task_tool, list_tasks_tool, get_digest_tool, propose_meeting_tool, ArgsOf,
}
use hound_bot.Agent.Tools.{AgentContext}
use hound_bot.Agent.Loop.{run_agent_turn, execute_tool_call}
use hound_bot.Agent.Isolation.{other_teams, run_agent_turn-isolates}
use hound_bot.Api.Interactions.{Interaction, reply}
use hound_bot.Ui.Blocks.{build_meeting_action_blocks}
use hound_bot.Repositories.Tasks
use hound_bot.Repositories.Tenant
use hound_bot.Repositories.Constraints.{has_workspace}
use hound_bot.Services.Meetings.Booking.{find_meeting}
use hound_bot.Ui.Blocks.Buttons.{buttons, click, cancel_clicked, queued, meeting_button-acts}
use hound_bot.Tests.Setting.{world, outside, task, monday, db, meeting}

-- The model asks for a task, for the digest and for a tool that does not exist, and then ends its turn.
abbrev call_of : String → Json → Json
call_of name id = object (
    key "id" id (
      key "function" (object (key "name" (text name) (key "arguments" (text "{}") no_members)))
        no_members))

abbrev call : String → Json → Items → Items
call name id rest = item (call_of name id) rest

abbrev groq_reply : Json → HttpResponse ⊎ String
groq_reply message = inl (record {
  status_code = 200;
  json = inl (
      object (
        key "choices" (array (item (object (key "message" message no_members)) no_items))
          no_members));
})

abbrev three_calls : Json
three_calls = object (
    key "tool_calls"
      (array (
        call "create_task" (text "c1")
          (call "get_digest" (text "c2") (call "drop_tables" (text "c3") no_items))))
      no_members)

abbrev last_words : Json
last_words = object (key "content" (text "Done.") no_members)

abbrev arguments : (t : Tool) → Json → ArgsOf t ⊎ String
arguments create_task_tool j =
    inl (record { assignee_slack_id = "UB"; title = "Slides"; due_at_utc = monday + 3 * day })
arguments list_tasks_tool j = inl tt
arguments get_digest_tool j = inl tt
arguments propose_meeting_tool j = inr "no window"

-- The six calls before the first request are the four schemas, the clock and the date.
abbrev talking : World
talking = record world {
  outside = record outside {
    http = λ n request. groq_reply (if leb n 6 then three_calls else last_words);
    model_validate_json = arguments;
  };
}

abbrev context : AgentContext
context = record { team_id = "T1"; slack_user_id = "UA"; calendar_cipher = none }

run_agent_turn-isolates_example :
    other_teams "T1" (run_agent_turn context "key" "Remind UB of the slides" talking).1.db
    ≡ other_teams "T1" talking.db
run_agent_turn-isolates_example =
    run_agent_turn-isolates context "key" "Remind UB of the slides" talking

execute_tool_call-Confined_example :
    Confined context
      (call_of "create_task" (text "c1"))
      talking
      (execute_tool_call context (call_of "create_task" (text "c1")))
execute_tool_call-Confined_example =
    execute_tool_call-Confined context (call_of "create_task" (text "c1")) talking

task_completion_rate-bounds_example :
    (done total : ℕ) × ((task_completion_rate "T1" monday world).0 ≡ ok (done, total))
    × (1 ≤ total)
    × (done ≤ total)
    × ((done ≡ total) ↔ (any (is_unfinished "T1" monday) db.tasks ≡ false))
task_completion_rate-bounds_example = task_completion_rate-bounds "T1" monday world

abbrev with_stranger : Db
with_stranger = record db { tasks = record (task 9 open_status none) { team_id = "T9" } ∷ db.tasks }

same_rows : SameRows "T1" db with_stranger
unfolding string_eq
same_rows = record { tasks = refl; meetings = refl }

reads-own_rows_example :
    ((build_weekly_digest "T1" (record world { db = db })).0
      ≡ (build_weekly_digest "T1" (record world { db = with_stranger })).0)
    × ((assignee : Option String)
        → (list_open_tasks "T1" assignee (record world { db = db })).0
          ≡ (list_open_tasks "T1" assignee (record world { db = with_stranger })).0)
reads-own_rows_example = reads-own_rows "T1" db with_stranger world same_rows

-- Ids in unary.
abbrev unary : Uuid → String
unary zero = ""
unary (suc n) = String.◌∷◌ nul (unary n)

abbrev count : String → ℕ
count String.[] = 0
count (String.◌∷◌ c s) = suc (count s)

count-unary : (n : ℕ) → count (unary n) ≡ n
count-unary zero = refl
count-unary (suc n) = ap suc (count-unary n)

abbrev read_unary : String → Option Uuid
read_unary s = some (count s)

abbrev year : DateTime → String
year t = "2024"

abbrev clicked : Interaction
clicked = record { actions = []; team_id = "T1"; user_id = "UB"; response_url = "https://reply" }

home : has_workspace "T1" world.db ≡ true
unfolding string_eq
home = refl

found_meeting : (find_meeting "T1" 5 world).0 ≡ ok (some (meeting 5 proposed none))
unfolding find_meeting exec string_eq nat_eq
found_meeting = refl

meeting_button-acts_example :
    (map
        (click read_unary clicked world)
        (buttons (build_meeting_action_blocks (unary 5) "meet_book" "Book"))
      ≡ (
        ok (reply "https://reply" "Booking that meeting — I'll follow up here shortly."),
        queued clicked "meet_book" 5 world,
      )
        ∷ [])
    × (map
          (click read_unary clicked world)
          (buttons (build_meeting_action_blocks (unary 5) "meet_cancel" "Book"))
        ≡ cancel_clicked clicked world (meeting 5 proposed none) ∷ [])
meeting_button-acts_example =
    meeting_button-acts read_unary year unary clicked world (λ n. ap some (count-unary n))
      (meeting 5 proposed none) "Book" home found_meeting
