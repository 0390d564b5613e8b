-- ===== src/Calendar/Google/Url.antt =====
-- The URL of app/calendar/google_calendar.py that the user is sent to, as Google reads it.
use hound_bot.Base.{String, ◌≡◌, refl, nat_eq, ◌∷◌, []}
use hound_bot.Text.{codes}
use hound_bot.Text.UrlEncode.Decoding.{IsText}
use hound_bot.Text.UrlEncode.Parsed.{
  parse_qsl, query_of, query_of-urlencode, params_bytes, IsText-decided,
}
use hound_bot.Calendar.Google.{build_authorize_url}
use hound_bot.Calendar.Google

-- The query of the authorize URL, read by splitting at `&` and `=` and decoding, is exactly these
-- parameters, in this order and in UTF-8: for every client, redirect URI and state that are text.
pub build_authorize_url-read :
    (client_id redirect_uri state : String)
    → IsText client_id
    → IsText redirect_uri
    → IsText state
    → parse_qsl (query_of (codes (build_authorize_url client_id redirect_uri state)))
      ≡ params_bytes (
          ("client_id", client_id)
          ∷ ("redirect_uri", redirect_uri)
          ∷ ("response_type", "code")
          ∷ ("scope", Google.google_scopes)
          ∷ ("state", state)
          ∷ ("access_type", "offline")
          ∷ ("prompt", "consent")
          ∷ [])
unfolding build_authorize_url nat_eq
build_authorize_url-read client_id redirect_uri state hc hr hs =
    query_of-urlencode Google.authorize_url _ _ refl (
      (IsText-decided "client_id" refl, hc),
      (
        (IsText-decided "redirect_uri" refl, hr),
        (
          (IsText-decided "response_type" refl, (IsText-decided "code" refl)),
          (
            (IsText-decided "scope" refl, (IsText-decided Google.google_scopes refl)),
            (
              (IsText-decided "state" refl, hs),
              (
                (IsText-decided "access_type" refl, (IsText-decided "offline" refl)),
                ((IsText-decided "prompt" refl, (IsText-decided "consent" refl)), _),
              ),
            ),
          ),
        ),
      ),
    )
