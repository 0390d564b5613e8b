-- ===== src/Api/Http.antt =====
-- What the endpoints of app/api share: the request, the check of its signature, the response.
pub mod Reads
use hound_bot.Base.{
  ℕ, ◌-◌, String, ◌<>◌, Bool, Option, none, some, List, ◌==◌, string_eq, if◌then◌else◌,
}
use hound_bot.Time.{DateTime}
use hound_bot.Models.{Uuid}
use hound_bot.Exec.{http_exception, Exec, pure, raise, lift, ◌>>=◌, ◌>>◌, now, raise_if, ask}
use hound_bot.Core.Security.{
  verify_slack_signature, KeySettings, TokenCipher, token_cipher_from_settings,
}
use hound_bot.Text.{rstrip_slash}

-- The raw body and the two headers, empty where one is missing.
pub record Request : Type 0 where
  pub raw_body : String
  pub timestamp : String
  pub signature : String

-- A JSON response: a status, an ephemeral message, a list of tasks, or the echoed challenge.
pub data Response : Type 0 where
  status : String → Response
  ephemeral : String → Response
  task_blocks : List Uuid → Response
  challenge : String → Response

-- 1970-01-01 in microseconds since `datetime.min`; `time.time()` counts from there.
abbrev pub epoch : DateTime
epoch = 62_135_596_800_000_000

abbrev pub unix_time : DateTime → ℕ
unix_time t = t - epoch

abbrev pub require : Bool → Exec Unit
require valid = if valid then pure tt else raise (http_exception 401 "invalid Slack signature")

-- The guards at the head of each Slack endpoint.
unfoldable pub check_signature : (String → String → String) → String → Request → Exec Unit
check_signature hmac signing_secret r = do
  raise_if (signing_secret == "") (http_exception 500 "SLACK_SIGNING_SECRET is not configured")
  t ← now
  valid ←
      lift (
        verify_slack_signature hmac r.raw_body r.timestamp r.signature signing_secret (unix_time t))
  require valid

-- `_redirect_uri` of the OAuth routes, whose paths differ: `if not settings.public_base_url`.
unfoldable pub public_url : Option String → String → Exec String
unfolding rstrip_slash
public_url none route = raise (http_exception 500 "PUBLIC_BASE_URL is not configured")
public_url (some base) route =
    if base == ""
    then raise (http_exception 500 "PUBLIC_BASE_URL is not configured")
    else pure (rstrip_slash base <> route)

-- A setting that `if not value` lets pass.
abbrev pub if_set : Option String → Option String
if_set none = none
if_set (some s) = if s == "" then none else some s

abbrev pub both : {A B : Type 0} → Option A → Option B → Option (A × B)
both (some a) (some b) = some (a, b)
both none _ = none
both (some a) none = none

-- The settings of an OAuth application, and those of the whole service that its routes read.
pub record OAuthSettings : Type 0 where
  pub client_id : Option String
  pub client_secret : Option String
  pub public_base_url : Option String
  pub keys : KeySettings

abbrev pub client_of : OAuthSettings → Option (String × String)
client_of s = both (if_set s.client_id) (if_set s.client_secret)

-- `token_cipher_from_settings(settings)`
unfoldable pub cipher_of : KeySettings → Exec TokenCipher
cipher_of keys = do
  cipher ← ask (λ o _. token_cipher_from_settings o.is_fernet_key keys)
  lift cipher
