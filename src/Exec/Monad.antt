-- ===== src/Exec/Monad.antt =====
-- The session, the outside world and the actions over them. The actions are shut, so that proofs
-- about what an action keeps go by its shape.
use hound_bot.Base.{
  ℕ, suc, String, Bool, Option, none, some, List, [], ◌∷◌, ◌++◌, ◌<>◌, ◌⊎◌, inl, inr, if◌then◌else◌,
}
use hound_bot.Base.Int.{ℤ}
use hound_bot.Time.{DateTime}
use hound_bot.Models.{Db, Bytes, Uuid}
use hound_bot.Json.{Json, key_error, index_error, wrong_type, Read, got, failed}
use hound_bot.Agent.Schema.{Tool, ArgsOf}
use hound_bot.HttpClient.{HttpRequest, HttpResponse}

-- The exceptions that the source raises or catches, with their messages. `external` is any other
-- exception of a library or a remote service.
pub data Error : Type 0 where
  overflow_error : Error
  multiple_results_found : Error
  value_error : String → Error
  runtime_error : String → Error
  task_authorization : String → Error
  meeting_confirmation : String → Error
  invalid_grant : Error
  google_oauth : String → Error
  slack_oauth : String → Error
  missing_key : String → Error
  index_out_of_range : Error
  agent_error : String → Error
  external : String → Error
  http_exception : (status_code : ℕ) (detail : String) → Error

-- `str(exc)`
abbrev pub message : Error → String
message overflow_error = "date value out of range"
message multiple_results_found = "Multiple rows were found when one or none was required"
message (value_error m) = m
message (runtime_error m) = m
message (task_authorization m) = m
message (meeting_confirmation m) = m
message invalid_grant = "Google refresh token is no longer valid"
message (google_oauth m) = m
message (slack_oauth m) = m
message (missing_key k) = "'" <> k <> "'"
message index_out_of_range = "list index out of range"
message (agent_error m) = m
message (external m) = m
message (http_exception status_code detail) = detail

pub data Result {ℓ} (A : Type ℓ) : Type ℓ where
  ok : A → Result A
  err : Error → Result A

pub record BusyBlock : Type 0 where
  pub start_utc : DateTime
  pub end_utc : DateTime

-- `moment.astimezone(ZoneInfo(tz))`: the weekday (Monday is 0) and the hour.
pub record LocalTime : Type 0 where
  pub weekday : ℕ
  pub hour : ℕ

-- What leaves the process: messages to Slack, writes to a Google calendar, and the HTTP requests of
-- the modules that make them themselves.
pub data Effect : Type 0 where
  respond : (response_url text : String) (button : Option (String × Uuid)) → Effect
  post_message : (token channel text : String) → Effect
  open_conversation : (token slack_user_id : String) → Effect
  direct_message : (token channel text : String) (task_id : Uuid) → Effect
  publish_home : (token slack_user_id : String) (task_ids : List Uuid) → Effect
  create_event :
      (refresh_token title : String) (start_utc end_utc : DateTime) (attendee_emails : List String)
      → Effect
  cancel_event : (refresh_token event_id : String) → Effect
  http : HttpRequest → Effect

-- The outside world: the clock, the row locks of other transactions, random numbers, time zones, the cipher and the remote services.
-- The answer to a call may depend on how many calls were made before it, so nothing is assumed of
-- two answers; a reply is an identifier, or the exception that the call raised. `database` answers
-- the statements of the worker's own session, outside the handlers.
pub record Outside : Type 0 where
  pub clock : ℕ → DateTime
  pub uuid4 : ℕ → Uuid
  pub token_urlsafe : ℕ → String
  pub local_time : String → DateTime → Option LocalTime
  pub locked_jobs : ℕ → List Uuid
  pub locked_reminders : ℕ → List Uuid
  pub isoformat : DateTime → String
  pub is_fernet_key : String → Bool
  pub fernet_encrypt : ℕ → String → String → Bytes
  pub fernet_decrypt : String → Bytes → Option String
  pub database : ℕ → Result (Unit {0})
  pub busy_blocks : ℕ → String → DateTime → DateTime → Result (List BusyBlock)
  pub perform : ℕ → Effect → Result String
  pub http : ℕ → HttpRequest → HttpResponse ⊎ String
  pub json_str : Json → String
  pub model_validate_json : (t : Tool) → Json → ArgsOf t ⊎ String
  pub model_json_schema : Tool → Json
  pub strftime : DateTime → String
  pub percent : ℕ → ℕ → String
  pub decimal : ℕ → String
  pub integer : ℤ → String

-- An effect that took place, or that may have, with what was committed at that moment.
pub record Sent : Type 0 where
  pub effect : Effect
  pub committed : Db

pub record World : Type 0 where
  pub outside : Outside
  pub db : Db
  pub saved : Db
  pub calls : ℕ
  pub sent : List Sent

abbrev pub Exec : Type 0 → Type 0
Exec A = World → Result A × World

module _ {A : Type 0} where
  unfoldable pub pure : A → Exec A
  pure a w = (ok a, w)

  unfoldable pub raise : Error → Exec A
  raise e w = (err e, w)

  unfoldable pub lift : Result A → Exec A
  lift r w = (r, w)

  unfoldable pub or_raise : Error → Option A → Exec A
  or_raise e none w = (err e, w)
  or_raise e (some a) w = (ok a, w)

  -- A query of the session.
  unfoldable pub query : (Db → A) → Exec A
  query f w = (ok (f w.db), w)

  -- `result.scalar_one_or_none()`
  unfoldable pub scalar_one_or_none : List A → Exec (Option A)
  scalar_one_or_none [] w = (ok none, w)
  scalar_one_or_none (a ∷ []) w = (ok (some a), w)
  scalar_one_or_none (a ∷ b ∷ rest) w = (err multiple_results_found, w)

  -- A question to the outside world; each is answered once.
  unfoldable pub ask : (Outside → ℕ → A) → Exec A
  ask f w = (ok (f w.outside w.calls), record w { calls = suc w.calls })

infixl 5 ◌>>=◌ ◌>>◌
-- What follows an action runs on its value, and is skipped by an exception.
unfoldable pub continue : {A B : Type 0} → Result A → (A → Exec B) → Exec B
continue (ok a) f w = f a w
continue (err e) f w = (err e, w)

unfoldable pub ◌>>=◌ : {A B : Type 0} → Exec A → (A → Exec B) → Exec B
unfolding continue
◌>>=◌ m f w = continue (m w).0 f (m w).1

unfoldable pub ◌>>◌ : {A B : Type 0} → Exec A → Exec B → Exec B
unfolding ◌>>=◌
m >> k = m >>= λ _. k

-- `session.add(...)`, an assignment to a row, `session.delete(...)`, with their `flush`.
unfoldable pub modify : (Db → Db) → Exec Unit
modify f w = (ok tt, record w { db = f w.db })

-- `session.commit()`
unfoldable pub commit : Exec Unit
commit w = (ok tt, record w { saved = w.db })

unfoldable pub raise_if : Bool → Error → Exec Unit
raise_if c e w = (if c then err e else ok tt, w)

-- `datetime.now(UTC)` and `uuid.uuid4()`
unfoldable pub now : Exec DateTime
unfolding ask
now = ask (λ o n. o.clock n)

unfoldable pub fresh_uuid : Exec Uuid
unfolding ask
fresh_uuid = ask (λ o n. o.uuid4 n)

-- `try: m`, with the exception as a value.
unfoldable pub attempt : {A : Type 0} → Exec A → Exec (Result A)
attempt m w = (ok (m w).0, (m w).1)

-- What a performed effect leaves in the world: an entry in the log, if it did not raise.
unfoldable pub record_effect : {A : Type 0} → Effect → Result A → World → World
record_effect e (ok _) w = record w {
  calls = suc w.calls;
  sent = w.sent ++ record { effect = e; committed = w.saved } ∷ [];
}
record_effect e (err _) w = record w { calls = suc w.calls }

-- A call of a remote service that changes it.
unfoldable pub perform : Effect → Exec String
unfolding record_effect
perform e w = let r = w.outside.perform w.calls e in (r, record_effect e r w)

-- A call that changes the service even where what follows the request raises, as an answer that
-- cannot be read: it is in the log either way.
unfoldable pub perform_attempt : Effect → Exec String
perform_attempt e w = (
  w.outside.perform w.calls e,
  record w {
    calls = suc w.calls;
    sent = w.sent ++ record { effect = e; committed = w.saved } ∷ [];
  },
)

abbrev pub or_external : {A : Type 0} → A ⊎ String → Result A
or_external (inl a) = ok a
or_external (inr m) = err (external m)

-- `await http_client.request(...)`: the request is in the log where a response came back.
unfoldable pub send_request : HttpRequest → Exec HttpResponse
unfolding record_effect
send_request request w =
    let r = or_external (w.outside.http w.calls request) in (r, record_effect (http request) r w)

-- Reading a decoded document, with what Python raises.
abbrev pub read_result : {A : Type 0} → Read A → Result A
read_result (got a) = ok a
read_result (failed (key_error k)) = err (missing_key k)
read_result (failed index_error) = err index_out_of_range
read_result (failed wrong_type) = err (external "TypeError")

unfoldable pub read : {A : Type 0} → Read A → Exec A
read r w = (read_result r, w)

-- `for x in xs: body(x)`
unfoldable pub for_each {ℓ} : {A : Type ℓ} → List A → (A → Exec Unit) → Exec Unit
for_each [] body = pure tt
for_each (x ∷ xs) body = body x >> for_each xs body

-- To unfold `exec` is to unfold every action of this module but the loop.
unfoldable pub exec : Unit {0}
unfolding pure raise lift or_raise query scalar_one_or_none ask ◌>>=◌ ◌>>◌ modify commit raise_if
    now fresh_uuid perform perform_attempt continue attempt send_request read
exec = tt
