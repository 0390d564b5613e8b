-- ===== src/Models.antt =====
-- app/models: the rows of each table, and the database as the list of its tables.
-- A UUID is a number that is only compared. A status column holds one of the constants that the
-- source assigns to it, so it is an enumeration here.
use hound_bot.Base.{ℕ, String, Eq, Option, List, []}
use hound_bot.Base.Int.{ℤ}
use hound_bot.Time.{DateTime}

abbrev pub Uuid : Type 0
Uuid = ℕ

-- An encrypted secret (`LargeBinary`): the ciphertext that the cipher returned.
abbrev pub Bytes : Type 0
Bytes = List ℕ

-- app/models/workspace.py
pub record Workspace : Type 0 where
  pub team_id : String
  pub bot_token_enc : Bytes
  pub key_version : ℕ
  pub installed_at : DateTime
  pub uninstalled_at : Option DateTime

-- app/models/user.py
pub record User : Type 0 where
  pub slack_user_id : String
  pub team_id : String
  pub tz : String
  pub google_refresh_token_enc : Option Bytes
  pub key_version : ℕ
  pub google_link_broken_at : Option DateTime
  pub google_email : Option String

-- app/models/task.py
pub data TaskStatus : Type 0 where
  open_status done_status : TaskStatus

pub record Task : Type 0 where
  pub id : Uuid
  pub team_id : String
  pub creator_slack_id : String
  pub assignee_slack_id : String
  pub title : String
  pub due_at_utc : DateTime
  pub status : TaskStatus
  pub channel_id : String
  pub recurrence_interval_days : Option ℕ
  pub created_at : DateTime

-- app/models/reminder.py
pub record Reminder : Type 0 where
  pub id : Uuid
  pub task_id : Uuid
  pub team_id : String
  pub fire_at_utc : DateTime
  pub sent_at : Option DateTime
  pub claimed_at : Option DateTime
  pub escalation_level : ℕ

-- app/models/meeting.py
pub data MeetingStatus : Type 0 where
  proposed booked cancelled : MeetingStatus

pub record Meeting : Type 0 where
  pub id : Uuid
  pub team_id : String
  pub organiser_slack_id : String
  pub duration_min : ℤ
  pub status : MeetingStatus
  pub google_event_id : Option String
  pub created_at : DateTime
  pub proposed_start_utc : Option DateTime

pub record MeetingParticipant : Type 0 where
  pub meeting_id : Uuid
  pub slack_user_id : String
  pub team_id : String

-- app/models/inbound_job.py
pub data JobStatus : Type 0 where
  pending claimed done failed : JobStatus

-- The JSON payload of a job: a Slack event, of which the handlers read three fields, or what the
-- /meet routes write. A missing response_url or user id is the empty text there.
pub data Payload : Type 0 where
  event : (channel text user : Option String) → Payload
  propose :
      (organiser_id : String) (participant_slack_ids : List String) (duration_minutes : ℤ)
      (window_start_utc window_end_utc : DateTime) (response_url : String)
      → Payload
  act_on : (meeting_id : Uuid) (requesting_user_id response_url : String) → Payload

pub record InboundJob : Type 0 where
  pub id : Uuid
  pub team_id : String
  pub event_type : String
  pub payload : Payload
  pub status : JobStatus
  pub created_at : DateTime
  pub claimed_at : Option DateTime
  pub completed_at : Option DateTime
  pub error : Option String

-- app/models/operational.py
pub record ProcessedEvent : Type 0 where
  pub event_id : String
  pub team_id : String
  pub processed_at : DateTime

pub data Purpose : Type 0 where
  slack_install google_link : Purpose

pub record OAuthState : Type 0 where
  pub state : String
  pub purpose : Purpose
  pub team_id : Option String
  pub slack_user_id : Option String
  pub created_at : DateTime
  pub expires_at : DateTime

pub record Db : Type 0 where
  pub workspaces : List Workspace
  pub users : List User
  pub tasks : List Task
  pub reminders : List Reminder
  pub meetings : List Meeting
  pub participants : List MeetingParticipant
  pub jobs : List InboundJob
  pub processed_events : List ProcessedEvent
  pub oauth_states : List OAuthState

abbrev pub empty_db : Db
empty_db = record {
  workspaces = [];
  users = [];
  tasks = [];
  reminders = [];
  meetings = [];
  participants = [];
  jobs = [];
  processed_events = [];
  oauth_states = [];
}

TaskStatus-discrete : Discrete TaskStatus
TaskStatus-discrete = hlevel

MeetingStatus-discrete : Discrete MeetingStatus
MeetingStatus-discrete = hlevel

JobStatus-discrete : Discrete JobStatus
JobStatus-discrete = hlevel

Purpose-discrete : Discrete Purpose
Purpose-discrete = hlevel

instance unfoldable pub task_status_eq : Eq TaskStatus
unfolding TaskStatus-discrete
task_status_eq = record { dec = TaskStatus-discrete }

instance unfoldable pub meeting_status_eq : Eq MeetingStatus
unfolding MeetingStatus-discrete
meeting_status_eq = record { dec = MeetingStatus-discrete }

instance unfoldable pub job_status_eq : Eq JobStatus
unfolding JobStatus-discrete
job_status_eq = record { dec = JobStatus-discrete }

instance unfoldable pub purpose_eq : Eq Purpose
unfolding Purpose-discrete
purpose_eq = record { dec = Purpose-discrete }
