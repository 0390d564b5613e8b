-- ===== src/Services/SlackOauth/Url.antt =====
-- The URL of app/services/slack_oauth.py that the user is sent to, as Slack reads it.
use hound_bot.Base.{String, ◌≡◌, refl, nat_eq, ◌∷◌, []}
use hound_bot.Text.{codes}
use hound_bot.Text.UrlEncode.Decoding.{IsText}
use hound_bot.Text.UrlEncode.Parsed.{
  parse_qsl, query_of, query_of-urlencode, params_bytes, IsText-decided,
}
use hound_bot.Services.SlackOauth.{build_install_url}
use hound_bot.Services.SlackOauth

-- The query of the install URL, read by splitting at `&` and `=` and decoding, is exactly these
-- parameters, in this order and in UTF-8: for every client, redirect URI and state that are text.
pub build_install_url-read :
    (client_id redirect_uri state : String)
    → IsText client_id
    → IsText redirect_uri
    → IsText state
    → parse_qsl (query_of (codes (build_install_url client_id redirect_uri state)))
      ≡ params_bytes (
          ("client_id", client_id)
          ∷ ("scope", SlackOauth.bot_scopes)
          ∷ ("redirect_uri", redirect_uri)
          ∷ ("state", state)
          ∷ [])
unfolding build_install_url nat_eq
build_install_url-read client_id redirect_uri state hc hr hs =
    query_of-urlencode SlackOauth.authorize_url _ _ refl (
      (IsText-decided "client_id" refl, hc),
      (
        (IsText-decided "scope" refl, (IsText-decided SlackOauth.bot_scopes refl)),
        ((IsText-decided "redirect_uri" refl, hr), ((IsText-decided "state" refl, hs), _)),
      ),
    )
