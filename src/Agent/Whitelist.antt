-- ===== src/Agent/Whitelist.antt =====
-- app/agent/tools.py: `TOOLS`, and what the language model is told of it. The JSON schema of a
-- Pydantic model is an answer of the outside world.
use hound_bot.Base.{String, Option, none, some, List, [], ◌∷◌, ◌==◌, string_eq, if◌then◌else◌}
use hound_bot.Json.{Json, text, array, object, no_members, key, Read, got, failed, wrong_type}
use hound_bot.Exec.{Exec, pure, ask, ◌>>=◌}
use hound_bot.Agent.Schema.{
  Tool, create_task_tool, list_tasks_tool, get_digest_tool, propose_meeting_tool, ArgsOf,
}
use hound_bot.Agent.Tools.{
  AgentContext, handle_create_task, handle_list_tasks, handle_get_digest, handle_propose_meeting,
}

abbrev pub tool_name : Tool → String
tool_name create_task_tool = "create_task"
tool_name list_tasks_tool = "list_tasks"
tool_name get_digest_tool = "get_digest"
tool_name propose_meeting_tool = "propose_meeting"

abbrev pub description : Tool → String
description create_task_tool =
    "Create a task assigned to a Slack user, with a title and an ISO 8601 due date/time that MUST include a timezone offset."
description list_tasks_tool = "List the current user's own open tasks."
description get_digest_tool =
    "Get a weekly digest of task completion rate, overdue tasks, and meetings. The digest always covers the last 7 days regardless of when it is asked."
description propose_meeting_tool =
    "Find the earliest mutual free slot for 1-7 other Slack user IDs plus the requester, within an explicit ISO 8601 UTC search window (both bounds required, with timezone offsets). Does not book the meeting."

-- `TOOLS.values()`
abbrev pub tools : List Tool
tools = create_task_tool ∷ list_tasks_tool ∷ get_digest_tool ∷ propose_meeting_tool ∷ []

abbrev pub tool_in : List Tool → String → Option Tool
tool_in [] name = none
tool_in (t ∷ ts) name = if tool_name t == name then some t else tool_in ts name

-- `TOOLS.get(name)`; a list or a dict is not hashable.
abbrev pub tool_of : Json → Read (Option Tool)
tool_of (text name) = got (tool_in tools name)
tool_of (array _) = failed wrong_type
tool_of (object _) = failed wrong_type
tool_of _ = got none

-- `tool.handler`
unfoldable pub handler : AgentContext → (t : Tool) → ArgsOf t → Exec String
handler ctx create_task_tool args =
    handle_create_task ctx args.assignee_slack_id args.title args.due_at_utc
handler ctx list_tasks_tool args = handle_list_tasks ctx
handler ctx get_digest_tool args = handle_get_digest ctx
handler ctx propose_meeting_tool args =
    handle_propose_meeting ctx args.participant_slack_ids args.duration_minutes
      args.search_window_start_utc args.search_window_end_utc

abbrev pub openai_schema : Tool → Json → Json
openai_schema tool parameters = object (
    key "type" (text "function") (
      key "function"
        (object (
          key "name" (text (tool_name tool))
            (key "description" (text (description tool)) (key "parameters" parameters no_members))))
        no_members))

-- `[tool.to_openai_schema() for tool in ...]`
unfoldable pub tool_schemas : List Tool → Exec (List Json)
tool_schemas [] = pure []
tool_schemas (tool ∷ rest) = do
  parameters ← ask (λ o _. o.model_json_schema tool)
  schemas ← tool_schemas rest
  pure (openai_schema tool parameters ∷ schemas)
