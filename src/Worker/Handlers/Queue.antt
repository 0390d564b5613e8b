-- ===== src/Worker/Handlers/Queue.antt =====
-- No handler writes to the queue of jobs: the repositories and services that they call.
pub mod Booking
pub mod Handlers
use hound_bot.Base.{
  ◌≡◌, refl, String, Option, none, some, List, [], ◌∷◌, true, false, ℕ, Bool-cases, Bool, inl, inr,
  is_some, ltb,
}
use hound_bot.Time.{DateTime, TimeDelta}
use hound_bot.Models.{Db, InboundJob, Uuid, User, Task, Bytes, Workspace}
use hound_bot.Exec.{Exec, modify}
use hound_bot.Exec.Laws.{Leaves, on_db, Leaves-modify, Leaves-pure, leaves_rules}
use hound_bot.Core.Security.{TokenCipher, decrypt, decrypt_with}
use hound_bot.Repositories.Tenant
use hound_bot.Repositories.Users
use hound_bot.Services.Tasks
use hound_bot.Services.Meetings.Propose
use hound_bot.Services.Keeps
use hound_bot.Services.Keeps.Meetings as MeetingKeeps
use hound_bot.Services.Keeps.{WriteLaws}
use hound_bot.Agent.Tools.{AgentContext}
use hound_bot.Agent.Loop
use hound_bot.Exec.Responses
use hound_bot.Json.{Json}
use hound_bot.Agent.Keeps as AgentKeeps
use hound_bot.Repositories.Workspaces
use hound_bot.Worker.Batch.Settles.{jobs_of}

abbrev pub LeavesJobs : {A : Type 0} → Exec A → Type 0
LeavesJobs m = Leaves (on_db jobs_of) m

pub writes : (f : Db → Db) → ((db : Db) → (f db).jobs ≡ db.jobs) → LeavesJobs (modify f)
writes f h = Leaves-modify jobs_of f h

pub open_repository : (team : String) → LeavesJobs (Tenant.open_repository team)
unfolding Tenant.open_repository
open_repository team = search leaves_rules

pub workspace-get : (team : String) → LeavesJobs (Workspaces.get team)
unfolding Workspaces.get
workspace-get team = search leaves_rules

write_uninstalled :
    (team : String) (o : Option Workspace) → LeavesJobs (Workspaces.write_uninstalled team o)
unfolding Workspaces.write_uninstalled
write_uninstalled team none = search leaves_rules
write_uninstalled team (some s) = search (leaves_rules, writes)

pub mark_uninstalled : (team : String) → LeavesJobs (Workspaces.mark_uninstalled team)
unfolding Workspaces.mark_uninstalled
mark_uninstalled team = search (leaves_rules, write_uninstalled)

jobs_laws : (team : String) → WriteLaws jobs_of team
jobs_laws team = record {
  keep_task = λ t own db. refl;
  keep_reminder = λ r own db. refl;
  keep_users = record { keep_user = λ u own db. refl; keep_user_write = λ user f keep db. refl };
  keep_meeting = λ m own db. refl;
  keep_participant = λ id p db. refl;
}

pub cipher-decrypt :
    (c : TokenCipher) (enc : Bytes) (version : ℕ) → LeavesJobs (decrypt c enc version)
cipher-decrypt = Keeps.cipher-decrypt jobs_of

pub user-get : (team user : String) → LeavesJobs (Users.get team user)
user-get = Keeps.user-get jobs_of

pub get_or_create : (team user tz : String) → LeavesJobs (Users.get_or_create team user tz)
get_or_create team = Keeps.get_or_create jobs_of team (jobs_laws team).keep_users

pub list_open_tasks :
    (team : String) (assignee : Option String) → LeavesJobs (Tasks.list_open_tasks team assignee)
list_open_tasks = Keeps.list_open_tasks jobs_of

pub propose_meeting :
    (c : TokenCipher) (team organiser : String) (ps : List String) (d : TimeDelta)
    (from to : DateTime)
    → LeavesJobs (Propose.propose_meeting c team organiser ps d from to)
propose_meeting c team = MeetingKeeps.propose_meeting jobs_of team (jobs_laws team) c

pub run_agent_turn :
    (ctx : AgentContext) (api_key message : String)
    → LeavesJobs (Loop.run_agent_turn ctx api_key message)
run_agent_turn ctx = AgentKeeps.run_agent_turn jobs_of ctx (jobs_laws ctx.team_id)

pub json_text : (j : Json) → LeavesJobs (Responses.json_text j)
json_text = AgentKeeps.json_text jobs_of

pub ruleset queue_rules = (
  leaves_rules, writes, open_repository, workspace-get, mark_uninstalled, cipher-decrypt, user-get,
  get_or_create, json_text,
)
