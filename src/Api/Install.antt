-- ===== src/Api/Install.antt =====
-- app/api/routes_install.py: the installation in a workspace. The page that the callback answers
-- with is a constant and is not modelled; what the welcome message logs is not either.
pub mod Stored
pub mod Callback
use hound_bot.Base.{String, ◌<>◌, not, Option, none, some, [], ◌∷◌, if◌then◌else◌}
use hound_bot.Models.{OAuthState, slack_install}
use hound_bot.Json.{Json, text, object, no_members, key, get, is_true, or_else, as_text}
use hound_bot.HttpClient.{HttpRequest, post_method, json_body}
use hound_bot.Exec.{
  Result, ok, err, slack_oauth, http_exception, Exec, pure, raise, lift, or_raise, ◌>>=◌, ◌>>◌,
  commit, read, attempt, send_request,
}
use hound_bot.Exec.Responses.{raise_for_status, decode}
use hound_bot.Core.Security.{encrypt}
use hound_bot.Repositories.OAuthStates.{consume, issue, default_ttl_seconds}
use hound_bot.Repositories.Workspaces.{upsert_on_install}
use hound_bot.Services.SlackOauth.{build_install_url, exchange_code_for_token}
use hound_bot.Api.Http.{public_url, if_set, OAuthSettings, client_of, cipher_of}

unfoldable pub redirect_uri : OAuthSettings → Exec String
unfolding public_url
redirect_uri settings = public_url settings.public_base_url "/slack/oauth/callback"

-- The redirect's URL; the state is committed before it is built.
unfoldable pub install : OAuthSettings → Exec String
unfolding redirect_uri
install settings = do
  client_id ←
      or_raise (http_exception 500 "SLACK_CLIENT_ID is not configured") (if_set settings.client_id)
  state ← issue slack_install none none default_ttl_seconds
  commit
  uri ← redirect_uri settings
  pure (build_install_url client_id uri state)

abbrev pub slack_post : String → String → Json → HttpRequest
slack_post bot_token method body = record {
  method = post_method;
  url = "https://slack.com/api/" <> method;
  bearer = some bot_token;
  body = json_body body;
}

abbrev pub welcome_text : String
welcome_text =
    "🎉 Welcome to Hound! I'm installed and ready to help.\n\nHere's what I can do:\n• `/task add <title>` — Add a task\n• `/task list` — List your tasks\n• `/meet` — Schedule a meeting\n• `@Hound <anything>` — Ask me anything in natural language\n\nLet's get started!"

abbrev pub post_body : Json → Json
post_body channel_id = object (key "channel" channel_id (key "text" (text welcome_text) no_members))

-- A post that Slack answers with an error is only logged.
unfoldable pub post_welcome : String → Option Json → Exec Unit
unfolding raise_for_status decode
post_welcome bot_token channel_id = if not (is_true channel_id) then pure tt else do
  response ←
      send_request
        (slack_post bot_token "chat.postMessage" (post_body (or_else (text "") channel_id)))
  raise_for_status response
  body ← decode response
  read (get "ok" body)
  pure tt

unfoldable pub welcome_in : String → Json → Option Json → Exec Unit
unfolding post_welcome
welcome_in bot_token body opened = if not (is_true opened) then pure tt else do
  channel ← read (get "channel" body)
  channel_id ← read (get "id" (or_else (object no_members) channel))
  post_welcome bot_token channel_id

unfoldable pub send_welcome_dm : String → Json → Exec Unit
unfolding raise_for_status decode welcome_in
send_welcome_dm bot_token user_id = do
  response ←
      send_request
        (slack_post bot_token "conversations.open" (object (key "users" user_id no_members)))
  raise_for_status response
  body ← decode response
  opened ← read (get "ok" body)
  welcome_in bot_token body opened

-- `except SlackOAuthError`
abbrev pub or_400 : {A : Type 0} → Result A → Result A
or_400 (err (slack_oauth m)) = err (http_exception 400 m)
or_400 r = r

unfoldable pub exchange :
    OAuthSettings → String × String → String → Exec (Json × Json × Option Json)
unfolding redirect_uri
exchange settings (client_id, client_secret) code = do
  uri ← redirect_uri settings
  exchange_code_for_token client_id client_secret code uri

-- The bot token as it was encrypted, and the commit. A team id that is no text is refused by the
-- database.
unfoldable pub store : OAuthSettings → Json → Json → Exec String
unfolding cipher_of
store settings bot_token team_id = do
  cipher ← cipher_of settings.keys
  plaintext ← read (as_text bot_token)
  encrypted ← encrypt cipher plaintext
  team ← read (as_text team_id)
  upsert_on_install team encrypted.0 encrypted.1
  commit
  pure plaintext

-- `except Exception`: the welcome message is best effort.
unfoldable pub try_welcome : String → Option Json → Exec Unit
unfolding send_welcome_dm
try_welcome bot_token none = pure tt
try_welcome bot_token (some user_id) =
    if not (is_true (some user_id))
    then pure tt
    else do attempt (send_welcome_dm bot_token user_id); pure tt

unfoldable pub found : Option OAuthState → Exec Unit
found none = raise (http_exception 400 "invalid or expired state")
found (some row) = pure tt

unfoldable pub install_redeemed : OAuthSettings → String → Option OAuthState → Exec Unit
unfolding exchange store try_welcome found
install_redeemed settings code row = do
  found row
  client ← or_raise (http_exception 500 "Slack OAuth is not configured") (client_of settings)
  exchanged ← attempt (exchange settings client code)
  tokens ← lift (or_400 exchanged)
  bot_token ← store settings tokens.0 tokens.1
  try_welcome bot_token tokens.2

unfoldable pub oauth_callback : OAuthSettings → String → String → Exec Unit
unfolding install_redeemed
oauth_callback settings code state = do
  row ← consume state slack_install
  install_redeemed settings code row
