-- ===== src/Api/Signed.antt =====
-- No endpoint of Slack's acts on a request that Slack did not sign.
use hound_bot.Base.{
  ◌≡◌, ◌≢◌, refl, String, Bool, true, false, Option, ◌==◌, string_eq, Bool-cases, inl, inr,
}
use hound_bot.Models.{Uuid}
use hound_bot.Base.Int.{ℤ}
use hound_bot.Services.Parsers.{IsoTime}
use hound_bot.Exec.{Error, Result, ok, err, Exec, World, ◌>>◌, exec}
use hound_bot.Exec.Laws.{state_of}
use hound_bot.Core.Security.{verify_slack_signature}
use hound_bot.Api.{Request, check_signature, unix_time}
use hound_bot.Api.Events.{EventBody, slack_events}
use hound_bot.Api.Interactions.{Interaction, slack_interactions}
use hound_bot.Api.Commands.{CommandSettings, Form, slack_commands}

-- The run raised, and neither the tables nor what is committed nor what was sent changed.
abbrev pub Refused : {A : Type 0} → Exec A → World → Type 0
Refused m w = (e : Error) × ((m w).0 ≡ err e) × (state_of (m w).1 ≡ state_of w)

-- What `verify_slack_signature` says at the time of the request.
abbrev pub verdict : (String → String → String) → String → Request → World → Result Bool
verdict hmac secret r w =
    verify_slack_signature hmac r.raw_body r.timestamp r.signature secret
      (unix_time (w.outside.clock w.calls))

Refused-check_signature :
    {A : Type 0} (hmac : String → String → String) (secret : String) (r : Request) (k : Exec A)
    (w : World) (v : Result Bool)
    → verdict hmac secret r w ≡ v
    → v ≢ ok true
    → Refused (check_signature hmac secret r >> k) w
unfolding check_signature exec
Refused-check_signature hmac secret r k w (ok true) e n = absurd (n refl)
Refused-check_signature hmac secret r k w (ok false) e n = elim (Bool-cases (secret == "")) [
  | inl s ↦ rw s (_, refl, refl)
  | inr s ↦ rw (s, e) (_, refl, refl)
]
Refused-check_signature hmac secret r k w (err x) e n = elim (Bool-cases (secret == "")) [
  | inl s ↦ rw s (_, refl, refl)
  | inr s ↦ rw (s, e) (_, refl, refl)
]

-- Where the signature of a request does not verify at the time it comes in, each of the three
-- endpoints that Slack calls raises, whatever the request holds and whatever the parsers make of it;
-- no table, nothing committed and nothing sent changes.
pub unsigned-Refused :
    (hmac : String → String → String) (secret : String) (r : Request) (w : World)
    → verdict hmac secret r w ≢ ok true
    → (loads_event : String → Result EventBody) → (parse_uuid : String → Option Uuid)
    → (payload_of : String → Option String) → (loads : String → Result Interaction)
    → (repr : String → String) → (fromisoformat : String → IsoTime) (str : ℤ → String)
    → (settings : CommandSettings) → (form_of : String → Form)
    → Refused (slack_events hmac secret loads_event r) w
      × Refused (slack_interactions parse_uuid hmac secret payload_of loads r) w
      × Refused (slack_commands parse_uuid repr fromisoformat str settings hmac secret form_of r) w
unfolding slack_events slack_interactions slack_commands
unsigned-Refused hmac secret r w n loads_event parse_uuid payload_of loads repr fromisoformat str
      settings form_of =
    (
      Refused-check_signature hmac secret r _ w _ refl n,
      Refused-check_signature hmac secret r _ w _ refl n,
      Refused-check_signature hmac secret r _ w _ refl n,
    )
