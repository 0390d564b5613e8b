-- ===== src/Agent/Loop.antt =====
-- app/agent/loop.py: the model picks tools from the whitelist; the results go back to it once.
use hound_bot.Base.{
  String, ◌<>◌, Option, none, some, List, [], ◌∷◌, ◌++◌, ◌⊎◌, inl, inr, if◌then◌else◌, not,
}
use hound_bot.Json.{
  Json, null, text, array, object, Items, no_items, item, Members, no_members, key, Read, got,
  failed, key_error, index_error, wrong_type, get, path, elements, is_true, or_else, then_read,
  member, items_of,
}
use hound_bot.HttpClient.{post_method, json_body}
use hound_bot.Exec.{
  Result, err, missing_key, index_out_of_range, agent_error, message, Exec, pure, lift, ask, ◌>>=◌,
  ◌>>◌, now, send_request, read, attempt,
}
use hound_bot.Exec.Responses.{raise_for_status, decode, json_text}
use hound_bot.Agent.Schema.{Tool, ArgsOf}
use hound_bot.Agent.Tools.{AgentContext}
use hound_bot.Agent.Whitelist.{tools, tool_of, handler, tool_schemas}

abbrev pub groq_chat_url : String
groq_chat_url = "https://api.groq.com/openai/v1/chat/completions"

abbrev pub groq_model : String
groq_model = "openai/gpt-oss-120b"

-- `today` is the date of the clock.
unfoldable pub system_prompt : Exec String
system_prompt = do
  t ← now
  today ← ask (λ o _. o.strftime t)
  pure (
      "You are a workplace assistant. Today's date is " <> today
      <> " (UTC). You can create and list tasks, and propose meeting times, for the current user by calling the provided tools. All dates you pass to tools must be ISO 8601 with an explicit UTC offset — never omit the timezone. Never invent information; if a request doesn't map to an available tool, say so plainly.")

-- `choices[0]`
abbrev pub first : Json → Read Json
first (array (item j _)) = got j
first (array no_items) = failed index_error
first (text String.[]) = failed index_error
first (text (String.◌∷◌ c s)) = got (text (String.◌∷◌ c String.[]))
first (object _) = failed (key_error "0")
first _ = failed wrong_type

abbrev pub first_message : Json → Read Json
first_message body = then_read (member "choices" body) (λ c. then_read (first c) (member "message"))

-- `except (KeyError, IndexError) as exc: raise AgentError(...)`
abbrev pub groq_shape : {A : Type 0} → Result A → Result A
groq_shape (err (missing_key k)) =
    err (agent_error ("unexpected Groq response shape: " <> message (missing_key k)))
groq_shape (err index_out_of_range) =
    err (agent_error ("unexpected Groq response shape: " <> message index_out_of_range))
groq_shape r = r

abbrev pub with_tools : List Json → Members
with_tools [] = no_members
with_tools (t ∷ ts) = key "tools" (array (items_of (t ∷ ts))) no_members

abbrev pub payload : List Json → List Json → Json
payload messages tools =
    object (
      key "model" (text groq_model) (key "messages" (array (items_of messages)) (with_tools tools)))

unfoldable pub call_groq : String → List Json → List Json → Exec Json
unfolding raise_for_status decode
call_groq api_key messages tools = do
  response ← send_request (record {
    method = post_method;
    url = groq_chat_url;
    bearer = some api_key;
    body = json_body (payload messages tools);
  })
  raise_for_status response
  body ← decode response
  found ← attempt (read (first_message body))
  lift (groq_shape found)

unfoldable pub run_validated : AgentContext → String → (t : Tool) → ArgsOf t ⊎ String → Exec String
unfolding handler
run_validated ctx name tool (inl args) = handler ctx tool args
run_validated ctx name tool (inr exc) = pure ("Invalid arguments for " <> name <> ": " <> exc)

-- What is not in the whitelist is never run.
unfoldable pub run_tool : AgentContext → Json → String → Option Tool → Exec String
unfolding run_validated
run_tool ctx call name none = pure ("Tool '" <> name <> "' does not exist.")
run_tool ctx call name (some tool) = do
  arguments ← read (path ("function" ∷ "arguments" ∷ []) call)
  args ← ask (λ o _. o.model_validate_json tool arguments)
  run_validated ctx name tool args

unfoldable pub execute_tool_call : AgentContext → Json → Exec String
unfolding run_tool json_text
execute_tool_call ctx call = do
  name ← read (path ("function" ∷ "name" ∷ []) call)
  tool ← read (tool_of name)
  shown ← json_text name
  run_tool ctx call shown tool

abbrev pub tool_message : Json → String → Json
tool_message id result_text =
    object (
      key "role" (text "tool")
        (key "tool_call_id" id (key "content" (text result_text) no_members)))

-- `for call in tool_calls`, which adds a message for each result
unfoldable pub execute_all : AgentContext → Items → List Json → Exec (List Json)
unfolding execute_tool_call
execute_all ctx no_items messages = pure messages
execute_all ctx (item call calls) messages = do
  result_text ← execute_tool_call ctx call
  id ← read (path ("id" ∷ []) call)
  execute_all ctx calls (messages ++ tool_message id result_text ∷ [])

-- `message.get("content", "")`
unfoldable pub content_of : Json → Exec Json
content_of message = do content ← read (get "content" message); pure (or_else (text "") content)

unfoldable pub after_tools : AgentContext → String → List Json → Json → Option Json → Exec Json
unfolding execute_all call_groq content_of
after_tools ctx api_key messages message tool_calls =
    if not (is_true tool_calls) then content_of message else do
      calls ← read (elements (or_else null tool_calls))
      messages' ← execute_all ctx calls (messages ++ message ∷ [])
      final_message ← call_groq api_key messages' []
      content_of final_message

abbrev pub role_message : String → String → Json
role_message role content =
    object (key "role" (text role) (key "content" (text content) no_members))

unfoldable pub first_messages : String → Exec (List Json)
unfolding system_prompt
first_messages user_message = do
  prompt ← system_prompt
  pure (role_message "system" prompt ∷ role_message "user" user_message ∷ [])

unfoldable pub run_agent_turn : AgentContext → String → String → Exec Json
unfolding after_tools call_groq first_messages tool_schemas
run_agent_turn ctx api_key user_message = do
  schemas ← tool_schemas tools
  messages ← first_messages user_message
  message ← call_groq api_key messages schemas
  tool_calls ← read (get "tool_calls" message)
  after_tools ctx api_key messages message tool_calls
