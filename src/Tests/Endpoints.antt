-- ===== src/Tests/Endpoints.antt =====
-- The endpoints at the concrete world.
use hound_bot.Base.{
  ◌≡◌, ◌≢◌, refl, String, ◌<>◌, true, false, not, ◌&&◌, Option, none, [], ◌∷◌, string_eq, nat_eq,
  arith,
}
use hound_bot.Models.{Uuid, event}
use hound_bot.Exec.{Result, ok, err, external, World}
use hound_bot.Core.Security.{verify_slack_signature, check_time}
use hound_bot.Text.{parse_int, signed, digits, strip, lstrip}
use hound_bot.Repositories.ProcessedEvents.{is_known}
use hound_bot.Api.{Request, status}
use hound_bot.Api.Events.{EventBody, event_callback, handled_event_type, receive, slack_events}
use hound_bot.Api.Delivery.{Receives, receive-once}
use hound_bot.Api.Interactions.{Interaction, slack_interactions}
use hound_bot.Api.Commands.{CommandSettings, Form, slack_commands}
use hound_bot.Api.Signed.{Refused, verdict, unsigned-Refused}
use hound_bot.Base.Int.{ℤ}
use hound_bot.Services.Parsers.{IsoTime, invalid, aware, parse_task_add, parse_meet_command}
use hound_bot.Services.Parsers.Accepted.{Accepted, IsTask, IsMeeting, parsers-Accepted}
use hound_bot.Tests.Setting.{world, monday}

-- A later world, in which the event is known.
abbrev later : World
later = record world {
  db = record world.db {
    processed_events = record { event_id = "E9"; team_id = "T1"; processed_at = monday } ∷ [];
  };
}

still_known : is_known "E9" later.db ≡ true
unfolding string_eq
still_known = refl

receive-once_example :
    let (r, v) = receive (event_callback "app_mention" "E9" "T1" (event none none none)) world in
    let (r', u') = receive (event_callback "app_mention" "E9" "T1" (event none none none)) later in
    Receives "app_mention" "E9" "T1"
      (event none none none)
      world
      (not (is_known "E9" world.db) && handled_event_type "app_mention")
      r
      v
    × (r' ≡ ok (status "ok"))
    × (u'.db ≡ later.db)
receive-once_example =
    receive-once "app_mention" "E9" "T1" (event none none none) world "app_mention" "T1"
      (event none none none) later still_known

abbrev toy_hmac : String → String → String
toy_hmac key text = key <> text

-- Its timestamp is no number.
abbrev forged : Request
forged = record { raw_body = "{}"; timestamp = "soon"; signature = "v0=forged" }

abbrev command_settings : CommandSettings
command_settings = record {
  google_client_id = none;
  google_client_secret = none;
  encryption_key = none;
  public_base_url = none;
}

abbrev no_event : String → Result EventBody
no_event s = err (external "JSONDecodeError")

abbrev no_uuid : String → Option Uuid
no_uuid s = none

abbrev no_interaction : String → Result Interaction
no_interaction s = err (external "JSONDecodeError")

abbrev no_time : String → IsoTime
no_time s = invalid

abbrev number : ℤ → String
number n = "1"

abbrev form : String → Form
form s = record {
  command = "/task";
  text = s;
  team_id = "T1";
  user_id = "UA";
  channel_id = "C1";
  response_url = "";
}

forged-verdict : verdict toy_hmac "k" forged world ≡ ok false
unfolding verify_slack_signature check_time parse_int signed digits strip lstrip string_eq nat_eq
forged-verdict = refl

forged_refused : verdict toy_hmac "k" forged world ≢ ok true
forged_refused e = ground (arith, forged-verdict)

unsigned-Refused_example :
    Refused (slack_events toy_hmac "k" no_event forged) world
    × Refused (slack_interactions no_uuid toy_hmac "k" (λ s. none) no_interaction forged) world
    × Refused
        (slack_commands no_uuid (λ s. s) no_time number command_settings toy_hmac "k" form forged)
        world
unsigned-Refused_example =
    unsigned-Refused toy_hmac "k" forged world forged_refused no_event no_uuid (λ s. none)
      no_interaction (λ s. s) no_time number command_settings form

abbrev some_time : String → IsoTime
some_time s = aware monday

parsers-Accepted_example :
    let text : String = "<@U2> Report | 2026-09-10T17:00+00:00 | repeat:7" in
    Accepted IsTask (parse_task_add some_time (λ s. s) number text)
    × Accepted IsMeeting (parse_meet_command some_time (λ s. s) number text)
parsers-Accepted_example =
    parsers-Accepted some_time (λ s. s) number "<@U2> Report | 2026-09-10T17:00+00:00 | repeat:7"
