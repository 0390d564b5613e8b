-- ===== src/Agent/Schema.antt =====
-- app/agent/tools.py: the arguments of the tools, and the whitelist as an enumeration.
use hound_bot.Base.{String, List}
use hound_bot.Base.Int.{ℤ}
use hound_bot.Time.{DateTime}

-- The keys of `TOOLS`.
pub data Tool : Type 0 where
  create_task_tool list_tasks_tool get_digest_tool propose_meeting_tool : Tool

-- A time without a time zone, which Pydantic also accepts, is not modelled.
pub record CreateTaskArgs : Type 0 where
  pub assignee_slack_id : String
  pub title : String
  pub due_at_utc : DateTime

pub record ProposeMeetingArgs : Type 0 where
  pub participant_slack_ids : List String
  pub duration_minutes : ℤ
  pub search_window_start_utc : DateTime
  pub search_window_end_utc : DateTime

-- `tool.args_model`
abbrev pub ArgsOf : Tool → Type 0
ArgsOf create_task_tool = CreateTaskArgs
ArgsOf list_tasks_tool = Unit
ArgsOf get_digest_tool = Unit
ArgsOf propose_meeting_tool = ProposeMeetingArgs
