-- ===== src/Calendar/Google.antt =====
-- app/calendar/google_calendar.py: Google's OAuth endpoints and the calendar provider over HTTP.
-- `fromisoformat` is `datetime.fromisoformat`. A busy period without a time zone is refused where it
-- is read; Google sends RFC 3339 times, which have one.
pub mod Quiet
pub mod Grant
pub mod Url
pub mod Provider
use hound_bot.Base.{
  ℕ, String, ◌<>◌, Bool, Option, none, some, List, [], ◌∷◌, ◌==◌, nat_eq, not, if◌then◌else◌,
}
use hound_bot.Time.{DateTime}
use hound_bot.Text.UrlEncode.{urlencode}
use hound_bot.Json.{
  Json, text, array, object, Items, no_items, item, no_members, key, get, path, elements, is_text,
  as_text, or_else,
}
use hound_bot.HttpClient.{
  HttpRequest, HttpResponse, get_method, post_method, delete_method, no_body, form, json_body,
  is_success,
}
use hound_bot.Exec.{
  Result, ok, err, invalid_grant, google_oauth, missing_key, overflow_error, external, message,
  or_external, BusyBlock, Exec, pure, raise, lift, ask, ◌>>=◌, ◌>>◌, raise_if, send_request, read,
  attempt,
}
use hound_bot.Exec.Responses.{raise_for_status, decode, json_text, expect_keys, send_with}
use hound_bot.Services.Parsers.{IsoTime, invalid, naive, out_of_range, aware}

abbrev pub authorize_url : String
authorize_url = "https://accounts.google.com/o/oauth2/v2/auth"

abbrev pub token_url : String
token_url = "https://oauth2.googleapis.com/token"

abbrev pub userinfo_url : String
userinfo_url = "https://www.googleapis.com/oauth2/v2/userinfo"

abbrev pub freebusy_url : String
freebusy_url = "https://www.googleapis.com/calendar/v3/freeBusy"

abbrev pub events_url : String
events_url = "https://www.googleapis.com/calendar/v3/calendars/primary/events"

-- `" ".join(GOOGLE_SCOPES)`
abbrev pub google_scopes : String
google_scopes =
    "https://www.googleapis.com/auth/calendar.freebusy https://www.googleapis.com/auth/calendar.events https://www.googleapis.com/auth/userinfo.email"

abbrev pub authorize_params : String → String → String → List (String × String)
authorize_params client_id redirect_uri state =
    ("client_id", client_id)
    ∷ ("redirect_uri", redirect_uri)
    ∷ ("response_type", "code")
    ∷ ("scope", google_scopes)
    ∷ ("state", state)
    ∷ ("access_type", "offline")
    ∷ ("prompt", "consent")
    ∷ []

unfoldable pub build_authorize_url : String → String → String → String
build_authorize_url client_id redirect_uri state =
    authorize_url <> "?" <> urlencode (authorize_params client_id redirect_uri state)

-- `except KeyError as exc: raise GoogleOAuthError(...)`
unfoldable pub expect : {A : Type 0} → String → Exec A → Exec A
unfolding expect_keys
expect = expect_keys google_oauth

unfoldable pub fetch_user_email : Json → Exec Json
unfolding send_with raise_for_status decode expect
fetch_user_email access_token = do
  response ←
      send_with access_token
        (record { method = get_method; url = userinfo_url; bearer = none; body = no_body })
  raise_for_status response
  body ← decode response
  expect "unexpected userinfo response shape: missing " (read (path ("email" ∷ []) body))

abbrev pub token_request : List (String × String) → HttpRequest
token_request fields = record {
  method = post_method;
  url = token_url;
  bearer = none;
  body = form fields;
}

unfoldable pub refuse_exchange : HttpResponse → Json → Exec Unit
unfolding json_text
refuse_exchange response body = if response.status_code == 200 then pure tt else do
  error ← read (get "error" body)
  shown ← json_text (or_else body error)
  raise (google_oauth ("Google token exchange failed: " <> shown))

unfoldable pub two_tokens : Json → Exec (Json × Json)
two_tokens body = do
  refresh_token ← read (path ("refresh_token" ∷ []) body)
  access_token ← read (path ("access_token" ∷ []) body)
  pure (refresh_token, access_token)

unfoldable pub refresh_failure : Json → Option Json → Exec Unit
unfolding json_text
refresh_failure body error = if is_text "invalid_grant" error then raise invalid_grant else do
  shown ← json_text (or_else body error)
  raise (google_oauth ("Google token refresh failed: " <> shown))

unfoldable pub refuse_refresh : HttpResponse → Json → Exec Unit
unfolding refresh_failure
refuse_refresh response body =
    if response.status_code == 200
    then pure tt
    else do error ← read (get "error" body); refresh_failure body error

module _ (fromisoformat : String → IsoTime) where
  abbrev pub moment_of : IsoTime → Result DateTime
  moment_of (aware t) = ok t
  moment_of out_of_range = err overflow_error
  moment_of naive = err (external "can't compare offset-naive and offset-aware datetimes")
  moment_of invalid = err (external "Invalid isoformat string")

  unfoldable pub period_end : Json → String → Exec DateTime
  period_end period name = do
    value ← read (path (name ∷ []) period)
    raw ← read (as_text value)
    lift (moment_of (fromisoformat raw))

  unfoldable pub blocks_of : Items → Exec (List BusyBlock)
  unfolding period_end
  blocks_of no_items = pure []
  blocks_of (item period periods) = do
    start_utc ← period_end period "start"
    end_utc ← period_end period "end"
    blocks ← blocks_of periods
    pure (record { start_utc = start_utc; end_utc = end_utc } ∷ blocks)

abbrev pub freebusy_body : String → String → Json
freebusy_body time_min time_max = object (
    key "timeMin" (text time_min) (
      key "timeMax" (text time_max) (
        key "items" (array (item (object (key "id" (text "primary") no_members)) no_items))
          no_members)))

abbrev pub attendees : List String → Items
attendees [] = no_items
attendees (email ∷ emails) = item (object (key "email" (text email) no_members)) (attendees emails)

abbrev pub at_utc : String → Json
at_utc time = object (key "dateTime" (text time) (key "timeZone" (text "UTC") no_members))

abbrev pub event_body : String → String → String → List String → Json
event_body title start end attendee_emails = object (
    key "summary" (text title) (
      key "start" (at_utc start)
        (key "end" (at_utc end) (key "attendees" (array (attendees attendee_emails)) no_members))))

module _ (client_id client_secret : String) where
  abbrev pub exchange_fields : String → String → List (String × String)
  exchange_fields code redirect_uri =
      ("grant_type", "authorization_code")
      ∷ ("code", code)
      ∷ ("client_id", client_id)
      ∷ ("client_secret", client_secret)
      ∷ ("redirect_uri", redirect_uri)
      ∷ []

  -- The refresh token and the access token.
  unfoldable pub exchange_code_for_tokens : String → String → Exec (Json × Json)
  unfolding decode refuse_exchange expect two_tokens
  exchange_code_for_tokens code redirect_uri = do
    response ← send_request (token_request (exchange_fields code redirect_uri))
    body ← decode response
    refuse_exchange response body
    expect "unexpected Google token response shape: missing " (two_tokens body)

  abbrev pub refresh_fields : String → List (String × String)
  refresh_fields refresh_token =
      ("grant_type", "refresh_token")
      ∷ ("refresh_token", refresh_token)
      ∷ ("client_id", client_id)
      ∷ ("client_secret", client_secret)
      ∷ []

  unfoldable pub get_access_token : String → Exec Json
  unfolding decode refuse_refresh expect
  get_access_token refresh_token = do
    response ← send_request (token_request (refresh_fields refresh_token))
    body ← decode response
    refuse_refresh response body
    expect "unexpected Google token response shape: missing "
        (read (path ("access_token" ∷ []) body))

  module _ (fromisoformat : String → IsoTime) where
    unfoldable pub get_busy_blocks : String → DateTime → DateTime → Exec (List BusyBlock)
    unfolding get_access_token send_with raise_for_status decode expect blocks_of
    get_busy_blocks refresh_token window_start_utc window_end_utc = do
      access_token ← get_access_token refresh_token
      time_min ← ask (λ o _. o.isoformat window_start_utc)
      time_max ← ask (λ o _. o.isoformat window_end_utc)
      response ← send_with access_token (record {
        method = post_method;
        url = freebusy_url;
        bearer = none;
        body = json_body (freebusy_body time_min time_max);
      })
      raise_for_status response
      body ← decode response
      busy_periods ←
          expect "unexpected freeBusy response shape: missing "
            (read (path ("calendars" ∷ "primary" ∷ "busy" ∷ []) body))
      periods ← read (elements busy_periods)
      blocks_of fromisoformat periods

  -- The id of the event that was created.
  unfoldable pub create_event : String → String → DateTime → DateTime → List String → Exec Json
  unfolding get_access_token send_with raise_for_status decode expect
  create_event refresh_token title start_utc end_utc attendee_emails = do
    access_token ← get_access_token refresh_token
    start ← ask (λ o _. o.isoformat start_utc)
    end ← ask (λ o _. o.isoformat end_utc)
    response ← send_with access_token (record {
      method = post_method;
      url = events_url;
      bearer = none;
      body = json_body (event_body title start end attendee_emails);
    })
    raise_for_status response
    body ← decode response
    expect "unexpected events.insert response shape: missing " (read (path ("id" ∷ []) body))

  unfoldable pub cancel_event : String → String → Exec Unit
  unfolding get_access_token send_with raise_for_status
  cancel_event refresh_token event_id = do
    access_token ← get_access_token refresh_token
    response ← send_with access_token (record {
      method = delete_method;
      url = events_url <> "/" <> event_id;
      bearer = none;
      body = no_body;
    })
    raise_for_status response
