-- ===== src/Agent/Confined.antt =====
-- What a tool call of the language model can do: run one handler of the whitelist, or nothing.
use hound_bot.Base.{
  ◌≡◌, refl, String, Option, none, some, List, [], ◌∷◌, ◌⊎◌, inl, inr, string_eq, arith, subst, ap,
  sym, ◌∙◌,
}
use hound_bot.Json.{
  Json, null, boolean, number, text, array, object, Read, got, failed, key_error, index_error,
  wrong_type, path,
}
use hound_bot.Exec.{Exec, World, exec, read, ◌>>=◌, ask}
use hound_bot.Exec.Laws.{state_of}
use hound_bot.Exec.Responses.{json_text}
use hound_bot.Agent.Schema.{Tool, ArgsOf}
use hound_bot.Agent.Tools.{AgentContext}
use hound_bot.Agent.Whitelist.{tool_name, tools, tool_in, tool_of, handler}
use hound_bot.Agent.Loop.{execute_tool_call, run_tool, run_validated}

-- One run of the handler of a tool in the whitelist: the call names the tool, its arguments are
-- valid for the tool's model, and the handler starts where the call did.
pub record Runs (ctx : AgentContext) (call : Json) (w : World) (m : Exec String) : Type 0 where
  pub tool : Tool
  pub arguments : Json
  pub args : ArgsOf tool
  pub from : World
  pub named : path ("function" ∷ "name" ∷ []) call ≡ got (text (tool_name tool))
  pub given : path ("function" ∷ "arguments" ∷ []) call ≡ got arguments
  pub valid : w.outside.model_validate_json tool arguments ≡ inl args
  pub same_state : state_of from ≡ state_of w
  pub runs : m w ≡ handler ctx tool args from

abbrev pub Confined : AgentContext → Json → World → Exec String → Type 0
Confined ctx call w m = Runs ctx call w m ⊎ (state_of (m w).1 ≡ state_of w)

tool_in-name :
    (ts : List Tool) (name : String) (t : Tool) → tool_in ts name ≡ some t → tool_name t ≡ name
tool_in-name [] name t h = ground arith
tool_in-name (x ∷ ts) name t h = ground (arith, tool_in-name ts name t)

module _ (ctx : AgentContext) (call : Json) (w : World) where
  validated :
      (t : Tool) (arguments : Json) (a : ArgsOf t ⊎ String) (v : World) (m : Exec String)
      → path ("function" ∷ "name" ∷ []) call ≡ got (text (tool_name t))
      → path ("function" ∷ "arguments" ∷ []) call ≡ got arguments
      → w.outside.model_validate_json t arguments ≡ a
      → state_of v ≡ state_of w
      → m w ≡ run_validated ctx (tool_name t) t a v
      → Confined ctx call w m
  unfolding run_validated exec
  validated t arguments (inl args) v m named given valid same h = inl (record {
    tool = t;
    arguments = arguments;
    args = args;
    from = v;
    named = named;
    given = given;
    valid = valid;
    same_state = same;
    runs = h;
  })
  validated t arguments (inr exc) v m named given valid same h = inr (rw h same)

  -- What follows once the arguments are read.
  abbrev rest : (t : Tool) → Json → Exec String
  rest t arguments =
      ask (λ o _. o.model_validate_json t arguments) >>= run_validated ctx (tool_name t) t

  with_arguments :
      (t : Tool) (r : Read Json)
      → path ("function" ∷ "name" ∷ []) call ≡ got (text (tool_name t))
      → path ("function" ∷ "arguments" ∷ []) call ≡ r
      → Confined ctx call w (read r >>= rest t)
  unfolding exec
  with_arguments t (got arguments) named given =
      validated t arguments (w.outside.model_validate_json t arguments) _ _ named given refl refl
        refl
  with_arguments t (failed (key_error k)) named given = inr refl
  with_arguments t (failed index_error) named given = inr refl
  with_arguments t (failed wrong_type) named given = inr refl

  with_tool :
      (name : String) (o : Option Tool)
      → path ("function" ∷ "name" ∷ []) call ≡ got (text name)
      → tool_in tools name ≡ o
      → Confined ctx call w (run_tool ctx call name o)
  unfolding run_tool exec
  with_tool name none named found = inr refl
  with_tool name (some t) named found =
      subst (λ n. Confined ctx call w (run_tool ctx call n (some t)))
        (tool_in-name tools name t found)
        (with_arguments t _ (named ∙ ap (λ n. got (text n)) (sym (tool_in-name tools name t found)))
          refl)

  abbrev after_name : Json → Exec String
  after_name name =
      read (tool_of name) >>= λ tool. json_text name >>= λ shown. run_tool ctx call shown tool

  with_name :
      (r : Read Json)
      → path ("function" ∷ "name" ∷ []) call ≡ r
      → Confined ctx call w (read r >>= after_name)
  unfolding json_text run_tool exec
  with_name (got (text name)) named = with_tool name (tool_in tools name) named refl
  with_name (got null) named = inr refl
  with_name (got (boolean b)) named = inr refl
  with_name (got (number n b)) named = inr refl
  with_name (got (array xs)) named = inr refl
  with_name (got (object ms)) named = inr refl
  with_name (failed (key_error k)) named = inr refl
  with_name (failed index_error) named = inr refl
  with_name (failed wrong_type) named = inr refl

-- Whatever the call of the model is, executing it either is one run of the handler of a tool in the
-- whitelist, which the call names, with arguments that are valid for that tool, at the tables, the
-- committed state and the sent effects that the call found, or it leaves all three as they were.
pub execute_tool_call-Confined :
    (ctx : AgentContext) (call : Json) (w : World)
    → Confined ctx call w (execute_tool_call ctx call)
unfolding execute_tool_call
execute_tool_call-Confined ctx call w = with_name ctx call w _ refl
