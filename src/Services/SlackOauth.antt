-- ===== src/Services/SlackOauth.antt =====
-- app/services/slack_oauth.py: the exchange of an installation's code for a bot token.
pub mod Url
use hound_bot.Base.{String, ◌<>◌, Option, none, List, [], ◌∷◌, if◌then◌else◌}
use hound_bot.Text.UrlEncode.{urlencode}
use hound_bot.Json.{Json, text, object, no_members, get, path, is_true, or_else}
use hound_bot.HttpClient.{HttpRequest, post_method, form}
use hound_bot.Exec.{slack_oauth, Exec, pure, raise, ◌>>=◌, ◌>>◌, send_request, read}
use hound_bot.Exec.Responses.{raise_for_status, decode, json_text, expect_keys}

abbrev pub authorize_url : String
authorize_url = "https://slack.com/oauth/v2/authorize"

abbrev pub access_url : String
access_url = "https://slack.com/api/oauth.v2.access"

-- `",".join(BOT_SCOPES)`
abbrev pub bot_scopes : String
bot_scopes = "app_mentions:read,chat:write,commands,users:read,im:history,im:write"

abbrev pub install_params : String → String → String → List (String × String)
install_params client_id redirect_uri state =
    ("client_id", client_id)
    ∷ ("scope", bot_scopes)
    ∷ ("redirect_uri", redirect_uri)
    ∷ ("state", state)
    ∷ []

unfoldable pub build_install_url : String → String → String → String
build_install_url client_id redirect_uri state =
    authorize_url <> "?" <> urlencode (install_params client_id redirect_uri state)

abbrev pub exchange_request : String → String → String → String → HttpRequest
exchange_request client_id client_secret code redirect_uri = record {
  method = post_method;
  url = access_url;
  bearer = none;
  body = form (
      ("client_id", client_id)
      ∷ ("client_secret", client_secret)
      ∷ ("code", code)
      ∷ ("redirect_uri", redirect_uri)
      ∷ []);
}

-- `if not body.get("ok")`
unfoldable pub refuse_failure : Json → Option Json → Exec Unit
unfolding json_text
refuse_failure body success = if is_true success then pure tt else do
  error ← read (get "error" body)
  shown ← json_text (or_else (text "unknown") error)
  raise (slack_oauth ("Slack OAuth exchange failed: " <> shown))

unfoldable pub token_and_team : Json → Exec (Json × Json)
token_and_team body = do
  bot_token ← read (path ("access_token" ∷ []) body)
  team_id ← read (path ("team" ∷ "id" ∷ []) body)
  pure (bot_token, team_id)

-- The bot token, the team and the user who installed, none where Slack leaves it out.
unfoldable pub exchange_code_for_token :
    String → String → String → String → Exec (Json × Json × Option Json)
unfolding raise_for_status decode refuse_failure token_and_team expect_keys
exchange_code_for_token client_id client_secret code redirect_uri = do
  response ← send_request (exchange_request client_id client_secret code redirect_uri)
  raise_for_status response
  body ← decode response
  success ← read (get "ok" body)
  refuse_failure body success
  found ←
      expect_keys slack_oauth "unexpected Slack OAuth response shape: missing "
        (token_and_team body)
  authed_user ← read (get "authed_user" body)
  authed_user_id ← read (get "id" (or_else (object no_members) authed_user))
  pure (found.0, found.1, authed_user_id)
