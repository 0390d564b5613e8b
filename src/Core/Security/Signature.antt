-- ===== src/Core/Security/Signature.antt =====
-- Which requests pass for Slack's.
use hound_bot.Base.{
  ℕ, ◌≡◌, ◌≢◌, refl, ◌≤◌, ◌<◌, String, true, Option, none, some, string_eq, ◌↔◌, ==_refl, arith,
}
use hound_bot.Base.Int.{ℤ}
use hound_bot.Text.{parse_int, codes}
use hound_bot.Exec.{ok}
use hound_bot.Core.Security

-- The request's time is an integer, at most five minutes from the clock on either side, and the
-- signature is the one that the secret gives to that time and that body.
pub data IsSigned (hmac : String → String → String) (body timestamp signature secret : String)
    (t : ℕ) : Type 0 where
  signed :
      (sent : ℤ)
      → parse_int timestamp ≡ some sent
      → Security.size sent < Security.float_limit
      → Security.age t sent ≤ Security.replay_window
      → Security.all_ascii (codes signature) ≡ true
      → Security.sign hmac secret timestamp body ≡ signature
      → IsSigned hmac body timestamp signature secret t

check_time-sound :
    (hmac : String → String → String) (body timestamp signature secret : String) (t : ℕ)
    (o : Option ℤ)
    → parse_int timestamp ≡ o
    → Security.check_time hmac body timestamp signature secret t o ≡ ok true
    → IsSigned hmac body timestamp signature secret t
unfolding Security.check_time Security.compare_digest
check_time-sound hmac body timestamp signature secret t none e h = ground arith
check_time-sound hmac body timestamp signature secret t (some sent) e h =
    signed sent e (ground arith) (ground arith) (ground arith) (ground arith)

check_time_complete :
    (hmac : String → String → String) (body timestamp signature secret : String) (t : ℕ)
    → IsSigned hmac body timestamp signature secret t
    → Security.check_time hmac body timestamp signature secret t (parse_int timestamp) ≡ ok true
unfolding Security.check_time Security.compare_digest
check_time_complete hmac body timestamp signature secret t (signed sent e small near ascii same) =
    rw e (rw same (ground (arith, ==_refl signature)))

verify_sound :
    (hmac : String → String → String) (body timestamp signature secret : String) (t : ℕ)
    → Security.verify_slack_signature hmac body timestamp signature secret t ≡ ok true
    → (secret ≢ "") × IsSigned hmac body timestamp signature secret t
unfolding Security.verify_slack_signature
verify_sound hmac body timestamp signature secret t h = (
  λ e. ground arith,
  check_time-sound hmac body timestamp signature secret t (parse_int timestamp) refl (ground arith),
)

-- A request is accepted just where the signing secret is set and the request is signed with it: its
-- timestamp reads as an integer no more than five minutes from the clock, and its signature is the
-- digest of that timestamp and the raw body, in ASCII.
pub verify_slack_signature-accepts :
    (hmac : String → String → String) (body timestamp signature secret : String) (t : ℕ)
    → (Security.verify_slack_signature hmac body timestamp signature secret t ≡ ok true)
      ↔ ((secret ≢ "") × IsSigned hmac body timestamp signature secret t)
unfolding Security.verify_slack_signature
verify_slack_signature-accepts hmac body timestamp signature secret t = (
  verify_sound hmac body timestamp signature secret t,
  λ p. ground (arith, check_time_complete hmac body timestamp signature secret t p.1),
)
