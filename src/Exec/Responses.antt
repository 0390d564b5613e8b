-- ===== src/Exec/Responses.antt =====
-- What the source does with httpx responses, whichever service answers.
use hound_bot.Base.{String, ◌<>◌, not, some}
use hound_bot.Json.{Json, text}
use hound_bot.HttpClient.{HttpRequest, HttpResponse, is_success}
use hound_bot.Exec.{
  Error, Result, err, missing_key, external, message, or_external, Exec, pure, lift, ask, ◌>>=◌,
  raise_if, send_request, attempt,
}

-- `response.raise_for_status()`
unfoldable pub raise_for_status : HttpResponse → Exec Unit
raise_for_status response = raise_if (not (is_success response)) (external "HTTPStatusError")

-- `response.json()`
unfoldable pub decode : HttpResponse → Exec Json
decode response = lift (or_external response.json)

-- `str(j)`
unfoldable pub json_text : Json → Exec String
json_text (text s) = pure s
json_text j = ask (λ o _. o.json_str j)

-- `except KeyError as exc: raise wrap(f"{prefix}{exc}") from exc`
abbrev pub shape_error : {A : Type 0} → (String → Error) → String → Result A → Result A
shape_error wrap prefix (err (missing_key k)) = err (wrap (prefix <> message (missing_key k)))
shape_error wrap prefix r = r

unfoldable pub expect_keys : {A : Type 0} → (String → Error) → String → Exec A → Exec A
expect_keys wrap prefix m = do r ← attempt m; lift (shape_error wrap prefix r)

-- A request with the header `Authorization: Bearer ...`.
unfoldable pub send_with : Json → HttpRequest → Exec HttpResponse
unfolding json_text
send_with access_token request = do
  token ← json_text access_token
  send_request (record request { bearer = some token })
