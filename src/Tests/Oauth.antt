-- ===== src/Tests/Oauth.antt =====
-- The OAuth flows at a world in which Google and Slack answer.
use hound_bot.Api.Google.{Linked}
use hound_bot.Base.{
  ℕ, String, none, some, [], ◌∷◌, ◌⊎◌, inl, inr, ◌==◌, string_eq, if◌then◌else◌, true, ◌≡◌, refl,
}
use hound_bot.Json.{text, boolean, object, Members, no_members, key}
use hound_bot.HttpClient.{HttpRequest, HttpResponse}
use hound_bot.Models.{OAuthState, slack_install}
use hound_bot.Exec.{World}
use hound_bot.Services.Parsers.{IsoTime, aware}
use hound_bot.Services.SlackOauth.{access_url, build_install_url, install_params}
use hound_bot.Services.SlackOauth.Url.{build_install_url-read}
use hound_bot.Calendar.Google.Url.{build_authorize_url-read}
use hound_bot.Text.{codes}
use hound_bot.Text.UrlEncode.Parsed.{parse_qsl, query_of, params_bytes, IsText-decided}
use hound_bot.Calendar.Google.{
  token_url, userinfo_url, get_busy_blocks, create_event, cancel_event, build_authorize_url,
  authorize_params,
}
use hound_bot.Calendar.Google.Provider.{RefusedWithGrant, provider-refused}
use hound_bot.Api.Http.{OAuthSettings}
use hound_bot.Api.Google
use hound_bot.Api.Google.Callback.{Links, oauth_callback-Links}
use hound_bot.Api.Install
use hound_bot.Api.Install.Callback.{Installs, oauth_callback-Installs}
use hound_bot.Core.Security.Rotation.{first_settings}
use hound_bot.Tests.Setting.{world, outside, db, oauth_state, monday}

abbrev answer : ℕ → Members → HttpResponse ⊎ String
answer status members = inl (record { status_code = status; json = inl (object members) })

abbrev google_tokens : Members
google_tokens = key "refresh_token" (text "refresh") (key "access_token" (text "ya29") no_members)

abbrev slack_team : Members
slack_team = key "ok" (boolean true) (
    key "access_token" (text "xoxb") (
      key "team" (object (key "id" (text "T2") no_members))
        (key "authed_user" (object (key "id" (text "UZ") no_members)) no_members)))

-- Google and Slack answer the exchanges; every other request fails.
abbrev answering : HttpRequest → HttpResponse ⊎ String
answering r =
    if r.url == token_url
    then answer 200 google_tokens
    else if r.url == userinfo_url
    then answer 200 (key "email" (text "ua@example.org") no_members)
    else if r.url == access_url
    then answer 200 slack_team
    else inr "no connection"

abbrev refusing : HttpRequest → HttpResponse ⊎ String
refusing r = answer 400 (key "error" (text "invalid_grant") no_members)

abbrev install_state : OAuthState
install_state = record oauth_state {
  state = "s2";
  purpose = slack_install;
  team_id = none;
  slack_user_id = none;
}

abbrev with_http : (HttpRequest → HttpResponse ⊎ String) → World
with_http f = record world {
  outside = record outside { http = λ n r. f r };
  db = record db { oauth_states = oauth_state ∷ install_state ∷ [] };
}

abbrev settings : OAuthSettings
settings = record {
  client_id = some "client";
  client_secret = some "secret";
  public_base_url = some "https://hound.example/";
  keys = first_settings "k1" 1;
}

abbrev at_monday : String → IsoTime
at_monday s = aware monday

provider-refused_example :
    RefusedWithGrant "client" "secret" "refresh"
      (get_busy_blocks "client" "secret" at_monday "refresh" monday monday)
      (with_http refusing)
    × RefusedWithGrant "client" "secret" "refresh"
        (create_event "client" "secret" "refresh" "Plan" monday monday ("ua@example.org" ∷ []))
        (with_http refusing)
    × RefusedWithGrant "client" "secret" "refresh"
        (cancel_event "client" "secret" "refresh" "ev6")
        (with_http refusing)
provider-refused_example =
    provider-refused "client" "secret" "refresh" at_monday monday monday "Plan" "ev6"
      ("ua@example.org" ∷ []) (with_http refusing)

oauth_callback-Links_example :
    let (r, v) = Google.oauth_callback settings "code" "s1" (with_http answering) in
    Links "s1" (with_http answering) r v
oauth_callback-Links_example = oauth_callback-Links settings "code" "s1" (with_http answering)

oauth_callback-Installs_example :
    let (r, v) = Install.oauth_callback settings "code" "s2" (with_http answering) in
    Installs settings "code" "s2" (with_http answering) r v
oauth_callback-Installs_example = oauth_callback-Installs settings "code" "s2" (with_http answering)

abbrev google_callback : String
google_callback = "https://hound.example.org/oauth/google/callback?v=1"

build_authorize_url-read_example :
    parse_qsl (query_of (codes (build_authorize_url "client &=+é" google_callback "s 1")))
    ≡ params_bytes (authorize_params "client &=+é" google_callback "s 1")
build_authorize_url-read_example =
    build_authorize_url-read "client &=+é" google_callback "s 1" (IsText-decided "client &=+é" refl)
      (IsText-decided google_callback refl) (IsText-decided "s 1" refl)

build_install_url-read_example :
    parse_qsl (query_of (codes (build_install_url "client" google_callback "s 1")))
    ≡ params_bytes (install_params "client" google_callback "s 1")
build_install_url-read_example =
    build_install_url-read "client" google_callback "s 1" (IsText-decided "client" refl)
      (IsText-decided google_callback refl) (IsText-decided "s 1" refl)
