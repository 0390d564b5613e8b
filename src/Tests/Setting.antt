-- ===== src/Tests/Setting.antt =====
-- A concrete outside world, and the rows of a small team.
use hound_bot.Json.{null}
use hound_bot.Base.{
  ◌≡◌, ◌≢◌, arith, ℕ, ◌+◌, ◌*◌, ◌/◌, ◌%◌, String, ◌<>◌, Bool, true, false, ◌&&◌, Option, none, some,
  List, [], ◌∷◌, ◌==◌, string_eq, nat_eq, inr, if◌then◌else◌,
}
use hound_bot.Base.Int.{pos}
use hound_bot.Time.{DateTime, second, hour, day}
use hound_bot.Text.{codes}
use hound_bot.Models.{
  Db, Bytes, User, Task, Reminder, Meeting, InboundJob, Payload, event, act_on, TaskStatus,
  open_status, done_status, MeetingStatus, proposed, booked, pending, OAuthState, google_link,
  ProcessedEvent, Uuid,
}
use hound_bot.Exec.{ok, Outside, World, LocalTime}
use hound_bot.Core.Security.{TokenCipher}

-- Monday 2024-01-01, 09:00.
abbrev pub monday : DateTime
monday = 738_885 * day + 9 * hour

abbrev same_codes : List ℕ → List ℕ → Bool
same_codes [] [] = true
same_codes (x ∷ xs) (y ∷ ys) = x == y && same_codes xs ys
same_codes _ _ = false

-- A toy cipher: the key's characters in front of the text's.
abbrev pub seal : String → String → Bytes
seal key text = codes (key <> ":" <> text)

abbrev pub open_seal : String → Bytes → Option String
open_seal key x =
    if same_codes x (seal key "refresh")
    then some "refresh"
    else if same_codes x (seal key "xoxb")
    then some "xoxb"
    else none

abbrev local_time : String → DateTime → Option LocalTime
local_time tz t =
    if tz == "UTC" then some (record { weekday = t / day % 7; hour = t % day / hour }) else none

abbrev pub outside : Outside
outside = record {
  clock = λ n. monday + n * second;
  uuid4 = λ n. 100 + n;
  token_urlsafe = λ n. "state";
  local_time = local_time;
  locked_jobs = λ n. [];
  locked_reminders = λ n. [];
  isoformat = λ t. "2024";
  is_fernet_key = λ k. true;
  fernet_encrypt = λ n. seal;
  fernet_decrypt = open_seal;
  database = λ n. ok tt;
  busy_blocks = λ n token from to. ok [];
  perform = λ n e. ok "reply";
  http = λ n request. inr "no connection";
  json_str = λ j. "{}";
  model_validate_json = λ t j. inr "no arguments";
  model_json_schema = λ t. null;
  strftime = λ t. "2024-01-01";
  percent = λ n m. "50%";
  decimal = λ n. "1";
  integer = λ n. "30";
}

abbrev pub cipher : TokenCipher
cipher = record { fernets = (1, "k1") ∷ []; current_version = 1 }

abbrev pub task : Uuid → TaskStatus → Option ℕ → Task
task id status interval = record {
  id = id;
  team_id = "T1";
  creator_slack_id = "UA";
  assignee_slack_id = "UB";
  title = "Report";
  due_at_utc = monday + 2 * day;
  status = status;
  channel_id = "C1";
  recurrence_interval_days = interval;
  created_at = monday;
}

abbrev pub reminder : Uuid → Uuid → Reminder
reminder id task_id = record {
  id = id;
  task_id = task_id;
  team_id = "T1";
  fire_at_utc = monday;
  sent_at = none;
  claimed_at = none;
  escalation_level = 1;
}

abbrev pub job : Uuid → String → Payload → InboundJob
job id event_type payload = record {
  id = id;
  team_id = "T1";
  event_type = event_type;
  payload = payload;
  status = pending;
  created_at = monday + id;
  claimed_at = none;
  completed_at = none;
  error = none;
}

abbrev pub user : String → User
user id = record {
  slack_user_id = id;
  team_id = "T1";
  tz = "UTC";
  google_refresh_token_enc = some (seal "k1" "refresh");
  key_version = 1;
  google_link_broken_at = none;
  google_email = some (id <> "@example.org");
}

abbrev pub meeting : Uuid → MeetingStatus → Option String → Meeting
meeting id status event_id = record {
  id = id;
  team_id = "T1";
  organiser_slack_id = "UA";
  duration_min = pos 30;
  status = status;
  google_event_id = event_id;
  created_at = monday;
  proposed_start_utc = some (monday + day);
}

abbrev pub oauth_state : OAuthState
oauth_state = record {
  state = "s1";
  purpose = google_link;
  team_id = some "T1";
  slack_user_id = some "UA";
  created_at = monday;
  expires_at = monday + 600 * second;
}

abbrev pub old_event : ProcessedEvent
old_event = record { event_id = "E1"; team_id = "T1"; processed_at = 738_870 * day }

-- An open task, a done task, one that recurs weekly, each with a reminder; two meetings; two jobs.
abbrev pub db : Db
db = record {
  workspaces =
      record {
        team_id = "T1";
        bot_token_enc = seal "k1" "xoxb";
        key_version = 1;
        installed_at = monday;
        uninstalled_at = none;
      }
      ∷ [];
  users = user "UA" ∷ user "UB" ∷ [];
  tasks = task 1 open_status none ∷ task 2 done_status none ∷ task 3 open_status (some 7) ∷ [];
  reminders = reminder 11 1 ∷ reminder 12 2 ∷ reminder 13 3 ∷ [];
  meetings = meeting 5 proposed none ∷ meeting 6 booked (some "ev6") ∷ [];
  participants = record { meeting_id = 5; slack_user_id = "UB"; team_id = "T1" } ∷ [];
  jobs =
      job 21 "meet_book" (act_on 5 "UA" "https://reply")
      ∷ job 22 "app_mention" (event (some "C1") (some "<@UBOT> hi") (some "UA"))
      ∷ job 23 "unheard_of" (event none none none)
      ∷ [];
  processed_events = old_event ∷ [];
  oauth_states = oauth_state ∷ [];
}

abbrev pub world : World
world = record { outside = outside; db = db; saved = db; calls = 0; sent = [] }

pub different : (a b : String) → (a == b) ≡ false → a ≢ b
different a b h e = ground arith
