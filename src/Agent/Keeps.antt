-- ===== src/Agent/Keeps.antt =====
-- A turn of the agent for a team: what is left alone, whatever the language model answers.
use hound_bot.Agent.Whitelist.{tools}
use hound_bot.Base.{refl, String, Option, none, some, List, [], ◌∷◌, ◌⊎◌, inl, inr}
use hound_bot.Base.Int.{ℤ}
use hound_bot.Time.{DateTime}
use hound_bot.Models.{Db, Task, Meeting}
use hound_bot.Json.{Json, null, boolean, number, text, array, object, Items, no_items, item}
use hound_bot.Exec.Responses
use hound_bot.Agent.Schema.{
  Tool, create_task_tool, list_tasks_tool, get_digest_tool, propose_meeting_tool, ArgsOf,
}
use hound_bot.Agent.Whitelist
use hound_bot.Exec.Laws.{
  Leaves, on_db, leaves_rules, Leaves-bind, Leaves-ask, Leaves-pure, Leaves-read,
}
use hound_bot.Core.Security.{TokenCipher}
use hound_bot.Services.Analytics
use hound_bot.Services.Tasks as TaskService
use hound_bot.Services.Meetings.Propose.{ProposalResult}
use hound_bot.Services.Keeps.{WriteLaws, list_open_tasks, create_task}
use hound_bot.Services.Keeps.Meetings.{propose_meeting}
use hound_bot.Agent.Tools
use hound_bot.Agent.Tools.{AgentContext}
use hound_bot.Agent.Loop

module _ {X : Type 0} (g : Db → X) where
  pub json_text : (j : Json) → Leaves (on_db g) (Responses.json_text j)
  unfolding Responses.json_text
  json_text null = search leaves_rules
  json_text (boolean b) = search leaves_rules
  json_text (number n b) = search leaves_rules
  json_text (text s) = search leaves_rules
  json_text (array xs) = search leaves_rules
  json_text (object ms) = search leaves_rules

  first_messages : (message : String) → Leaves (on_db g) (Loop.first_messages message)
  unfolding Loop.first_messages Loop.system_prompt
  first_messages message = search leaves_rules depth 12

  tool_schemas : (ts : List Tool) → Leaves (on_db g) (Whitelist.tool_schemas ts)
  unfolding Whitelist.tool_schemas
  tool_schemas [] = search leaves_rules
  tool_schemas (t ∷ ts) = Leaves-bind (on_db g) _ _ (Leaves-ask g _) (λ parameters.
      Leaves-bind (on_db g) _ _ (tool_schemas ts) (λ schemas. Leaves-pure (on_db g) _))

  rate :
      (team : String) (since : DateTime)
      → Leaves (on_db g) (Analytics.task_completion_rate team since)
  unfolding Analytics.task_completion_rate
  rate team since = search leaves_rules

  overdue : (team : String) → Leaves (on_db g) (Analytics.overdue_task_count team)
  unfolding Analytics.overdue_task_count
  overdue team = search leaves_rules

  digest : (team : String) → Leaves (on_db g) (Analytics.build_weekly_digest team)
  unfolding Analytics.build_weekly_digest
  digest team = search (leaves_rules, rate, overdue) depth 20

  task_lines : (ts : List Task) (acc : String) → Leaves (on_db g) (Tools.task_lines ts acc)
  unfolding Tools.task_lines
  task_lines [] acc = search leaves_rules
  task_lines (t ∷ ts) acc = search (leaves_rules, task_lines ts)

  list_text : (ts : List Task) → Leaves (on_db g) (Tools.list_text ts)
  unfolding Tools.list_text
  list_text [] = search leaves_rules
  list_text (t ∷ ts) = search (leaves_rules, task_lines)

  proposal_text :
      (r : ProposalResult) (m : Option Meeting) (o : Option DateTime) (duration : String)
      → Leaves (on_db g) (Tools.proposal_text r m o duration)
  unfolding Tools.proposal_text
  proposal_text r none o duration = search leaves_rules
  proposal_text r (some m) none duration = search leaves_rules
  proposal_text r (some m) (some t) duration = search leaves_rules

module _ {X : Type 0} (g : Db → X) (ctx : AgentContext) (laws : WriteLaws g ctx.team_id) where
  propose_with :
      (o : Option TokenCipher) (ps : List String) (minutes : ℤ) (from to : DateTime)
      → Leaves (on_db g) (Tools.propose_with ctx o ps minutes from to)
  unfolding Tools.propose_with
  propose_with none ps minutes from to = search leaves_rules
  propose_with (some c) ps minutes from to =
      search (leaves_rules, propose_meeting g ctx.team_id laws, proposal_text g) depth 12

  created :
      (assignee title : String) (due : DateTime)
      → Leaves (on_db g) (TaskService.create_task (Tools.fields_of_call ctx assignee title due))
  created assignee title due = create_task g ctx.team_id laws _ refl

  handler : (t : Tool) (args : ArgsOf t) → Leaves (on_db g) (Whitelist.handler ctx t args)
  unfolding Whitelist.handler Tools.handle_create_task Tools.handle_list_tasks
      Tools.handle_get_digest Tools.handle_propose_meeting
  handler create_task_tool args = search (leaves_rules, created) depth 12
  handler list_tasks_tool args = search (leaves_rules, list_open_tasks g, list_text g)
  handler get_digest_tool args = digest g ctx.team_id
  handler propose_meeting_tool args = propose_with ctx.calendar_cipher _ _ _ _

  run_validated :
      (name : String) (t : Tool) (args : ArgsOf t ⊎ String)
      → Leaves (on_db g) (Loop.run_validated ctx name t args)
  unfolding Loop.run_validated
  run_validated name t (inl args) = handler t args
  run_validated name t (inr exc) = search leaves_rules

  run_tool :
      (call : Json) (name : String) (o : Option Tool)
      → Leaves (on_db g) (Loop.run_tool ctx call name o)
  unfolding Loop.run_tool
  run_tool call name none = search leaves_rules
  run_tool call name (some t) = search (leaves_rules, run_validated)

  execute_tool_call : (call : Json) → Leaves (on_db g) (Loop.execute_tool_call ctx call)
  unfolding Loop.execute_tool_call
  execute_tool_call call = search (leaves_rules, json_text g, run_tool)

  execute_all :
      (calls : Items) (messages : List Json)
      → Leaves (on_db g) (Loop.execute_all ctx calls messages)
  unfolding Loop.execute_all
  execute_all no_items messages = search leaves_rules
  execute_all (item call calls) messages =
      search (leaves_rules, execute_tool_call, execute_all calls) depth 12

  call_groq :
      (api_key : String) (messages tools : List Json)
      → Leaves (on_db g) (Loop.call_groq api_key messages tools)
  unfolding Loop.call_groq
  call_groq api_key messages tools = search leaves_rules depth 12

  content_of : (message : Json) → Leaves (on_db g) (Loop.content_of message)
  unfolding Loop.content_of
  content_of message = search leaves_rules

  after_tools :
      (api_key : String) (messages : List Json) (message : Json) (calls : Option Json)
      → Leaves (on_db g) (Loop.after_tools ctx api_key messages message calls)
  unfolding Loop.after_tools
  after_tools api_key messages message calls =
      search (leaves_rules, content_of, execute_all, call_groq) depth 12

  pub run_agent_turn :
      (api_key message : String) → Leaves (on_db g) (Loop.run_agent_turn ctx api_key message)
  unfolding Loop.run_agent_turn
  run_agent_turn api_key message = Leaves-bind (on_db g) _ _ (tool_schemas g tools) (λ schemas.
      Leaves-bind (on_db g) _ _ (first_messages g message) (λ messages.
        Leaves-bind (on_db g) _ _ (call_groq api_key messages schemas) (λ reply.
          Leaves-bind (on_db g) _ _ (Leaves-read (on_db g) _)
            (after_tools api_key messages reply))))
