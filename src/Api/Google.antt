-- ===== src/Api/Google.antt =====
-- app/api/routes_google.py: linking a Google calendar to the person whom Slack signed for.
pub mod Stored
pub mod Callback
use hound_bot.Base.{String, not, Option, none, some}
use hound_bot.Models.{OAuthState, google_link}
use hound_bot.Json.{Json, as_text, column_text}
use hound_bot.Exec.{
  Result, ok, err, google_oauth, http_exception, Exec, pure, raise, lift, or_raise, ◌>>=◌, ◌>>◌,
  commit, raise_if, read, attempt,
}
use hound_bot.Core.Security.{encrypt}
use hound_bot.Repositories.Tenant.{open_repository}
use hound_bot.Repositories.OAuthStates.{consume, peek_valid}
use hound_bot.Repositories.Users.{get_or_create, store_google_link}
use hound_bot.Calendar.Google.{build_authorize_url, exchange_code_for_tokens, fetch_user_email}
use hound_bot.Api.Http.{public_url, if_set, both, OAuthSettings, client_of, cipher_of}

unfoldable pub redirect_uri : OAuthSettings → Exec String
unfolding public_url
redirect_uri settings = public_url settings.public_base_url "/google/oauth/callback"

-- The redirect's URL.
unfoldable pub link : OAuthSettings → String → Exec String
unfolding redirect_uri
link settings state = do
  client_id ←
      or_raise (http_exception 500 "GOOGLE_CLIENT_ID is not configured") (if_set settings.client_id)
  valid ← peek_valid state google_link
  raise_if (not valid) (http_exception 400 "invalid or expired state")
  uri ← redirect_uri settings
  pure (build_authorize_url client_id uri state)

-- Whom a redeemed row was issued for.
abbrev pub identity_of : Option OAuthState → Option (String × String)
identity_of none = none
identity_of (some row) = both row.team_id row.slack_user_id

-- `except GoogleOAuthError`
abbrev pub or_400 : {A : Type 0} → Result A → Result A
or_400 (err (google_oauth m)) = err (http_exception 400 m)
or_400 r = r

-- The refresh token and the account's address.
unfoldable pub exchange : OAuthSettings → String × String → String → Exec (Json × Json)
unfolding redirect_uri
exchange settings (client_id, client_secret) code = do
  uri ← redirect_uri settings
  tokens ← exchange_code_for_tokens client_id client_secret code uri
  email ← fetch_user_email tokens.1
  pure (tokens.0, email)

unfoldable pub store : OAuthSettings → String → String → Json → Json → Exec Unit
unfolding cipher_of
store settings team_id slack_user_id refresh_token email = do
  cipher ← cipher_of settings.keys
  plaintext ← read (as_text refresh_token)
  encrypted ← encrypt cipher plaintext
  open_repository team_id
  get_or_create team_id slack_user_id "UTC"
  google_email ← read (column_text email)
  store_google_link team_id slack_user_id encrypted.0 encrypted.1 google_email
  commit

pub record Linked : Type 0 where
  pub status : String
  pub email : Json

unfoldable pub link_redeemed : OAuthSettings → String → Option OAuthState → Exec Linked
unfolding exchange store
link_redeemed settings code row = do
  identity ← or_raise (http_exception 400 "invalid or expired state") (identity_of row)
  client ← or_raise (http_exception 500 "Google OAuth is not configured") (client_of settings)
  exchanged ← attempt (exchange settings client code)
  tokens ← lift (or_400 exchanged)
  store settings identity.0 identity.1 tokens.0 tokens.1
  pure (record { status = "linked"; email = tokens.1 })

unfoldable pub oauth_callback : OAuthSettings → String → String → Exec Linked
unfolding link_redeemed
oauth_callback settings code state = do
  row ← consume state google_link
  link_redeemed settings code row
