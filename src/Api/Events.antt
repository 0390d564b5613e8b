-- ===== src/Api/Events.antt =====
-- app/api/routes_events.py: events are acknowledged, deduplicated and queued.
use hound_bot.Base.{String, Bool, ◌&&◌, ◌||◌, ◌==◌, string_eq, if◌then◌else◌}
use hound_bot.Models.{Payload}
use hound_bot.Exec.{Result, Exec, pure, lift, ◌>>=◌, ◌>>◌, commit}
use hound_bot.Repositories.ProcessedEvents.{mark_processed_if_new}
use hound_bot.Repositories.Jobs.{enqueue}
use hound_bot.Api.Http.{Request, Response, status, challenge, check_signature}

-- The JSON of the body, by its type; an event that has no type of its own has the empty one.
pub data EventBody : Type 0 where
  url_verification : (text : String) → EventBody
  event_callback : (event_type event_id team_id : String) (payload : Payload) → EventBody
  other : EventBody

abbrev pub handled_event_type : String → Bool
handled_event_type t = t == "app_mention" || t == "app_uninstalled" || t == "app_home_opened"

unfoldable pub enqueue_if : Bool → String → String → Payload → Exec Unit
enqueue_if wanted team_id event_type payload =
    if wanted then (do enqueue team_id event_type payload; pure tt) else pure tt

unfoldable pub receive : EventBody → Exec Response
unfolding enqueue_if
receive (url_verification text) = pure (challenge text)
receive other = pure (status "ignored")
receive (event_callback event_type event_id team_id payload) = do
  is_new ← mark_processed_if_new event_id team_id
  enqueue_if (is_new && handled_event_type event_type) team_id event_type payload
  commit
  pure (status "ok")

-- `json.loads(raw_body)` is a parameter.
module _ (hmac : String → String → String) (signing_secret : String)
    (loads : String → Result EventBody) where
  unfoldable pub slack_events : Request → Exec Response
  unfolding receive
  slack_events request = do
    check_signature hmac signing_secret request
    body ← lift (loads request.raw_body)
    receive body
