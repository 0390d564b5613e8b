-- ===== src/Calendar/Google/Grant.antt =====
-- When Google refuses a grant, what the provider raises, and what it sends.
use hound_bot.Exec.Laws.{Leaves, state_of, State, reads_rules}
use hound_bot.Calendar.Google.Quiet.{Quiet, is_refusal, http_rules, Quiet-expect-read, bind-Quiet}
use hound_bot.Base.{
  ◌≡◌, refl, String, ◌∷◌, [], ◌++◌, Option, arith, inl, inr, ◌⊎◌, Bool, true, false, not, ◌&&◌,
  ◌==◌, nat_eq, ◌<>◌, Bool-cases, ◌∙◌,
}
use hound_bot.Json.{
  Json, null, boolean, number, text, array, object, Read, got, failed, key_error, index_error,
  wrong_type, get, path, is_text, or_else,
}
use hound_bot.HttpClient.{HttpRequest, HttpResponse}
use hound_bot.Exec.{
  google_oauth, World, exec, Exec, read, ◌>>◌, ◌>>=◌, send_request, raise, continue, or_external,
  record_effect, http,
}
use hound_bot.Exec.Responses.{decode, json_text, expect_keys}
use hound_bot.Calendar.Google.{
  get_access_token, refuse_refresh, refresh_failure, token_request, refresh_fields, expect,
}

abbrev pub says_invalid_grant : Read (Option Json) → Bool
says_invalid_grant (got error) = is_text "invalid_grant" error
says_invalid_grant (failed _) = false

abbrev pub refuses_in : Json ⊎ String → Bool
refuses_in (inl body) = says_invalid_grant (get "error" body)
refuses_in (inr _) = false

-- The answer to the token request refuses the grant: any status but 200, and a JSON object whose
-- error is `invalid_grant`.
abbrev pub refuses : HttpResponse ⊎ String → Bool
refuses (inl r) = not (r.status_code == 200) && refuses_in r.json
refuses (inr _) = false

refresh_failure_lem :
    (body : Json) (e : Option Json) (w : World) (b : Bool)
    → is_text "invalid_grant" e ≡ b
    → is_refusal (refresh_failure body e w).0 ≡ b
unfolding refresh_failure exec
refresh_failure_lem body e w true h = rw h refl
refresh_failure_lem body e w false h = rw h ((shown_quiet body e).at w)
  where
    shown_quiet :
        (body : Json) (e : Option Json)
        → Quiet {A = Unit} (
            json_text (or_else body e) >>= λ shown.
            raise (google_oauth ("Google token refresh failed: " <> shown)))
    shown_quiet body e = search http_rules

refuse_refresh_lem :
    (r : HttpResponse) (body : Json) (w : World)
    → is_refusal (refuse_refresh r body w).0
      ≡ (not (r.status_code == 200) && says_invalid_grant (get "error" body))
unfolding refuse_refresh exec
refuse_refresh_lem r body w = elim (Bool-cases (r.status_code == 200)) [
  | inl h ↦ rw h refl
  | inr h ↦ rw h (failing (get "error" body) body w)
]
  where
    failing :
        (e : Read (Option Json)) (body : Json) (w : World)
        → is_refusal ((read e >>= refresh_failure body) w).0 ≡ says_invalid_grant e
    failing (got e) body w = refresh_failure_lem body e w (is_text "invalid_grant" e) refl
    failing (failed (key_error k)) body w = refl
    failing (failed index_error) body w = refl
    failing (failed wrong_type) body w = refl

json_text-reads : (j : Json) → Leaves state_of (json_text j)
unfolding json_text
json_text-reads null = search reads_rules
json_text-reads (boolean b) = search reads_rules
json_text-reads (number n b) = search reads_rules
json_text-reads (text s) = search reads_rules
json_text-reads (array xs) = search reads_rules
json_text-reads (object ms) = search reads_rules

module _ (client_id client_secret : String) where
  abbrev pub grant_request : String → HttpRequest
  grant_request refresh_token = token_request (refresh_fields client_id client_secret refresh_token)

  after_refusal : HttpResponse → Json → Exec Json
  after_refusal r body =
      refuse_refresh r body
      >> expect "unexpected Google token response shape: missing "
          (read (path ("access_token" ∷ []) body))

  after_refusal_lem :
      (r : HttpResponse) (body : Json) (w : World)
      → is_refusal (after_refusal r body w).0
        ≡ (not (r.status_code == 200) && says_invalid_grant (get "error" body))
  unfolding after_refusal exec
  after_refusal_lem r body w =
      bind-Quiet (refuse_refresh r body) (λ _. expect _ _) w (λ _. Quiet-expect-read _ _)
      ∙ refuse_refresh_lem r body w

  after_response_lem :
      (r : HttpResponse) (w : World)
      → is_refusal ((decode r >>= after_refusal r) w).0 ≡ refuses (inl r)
  unfolding decode exec
  after_response_lem r w = decoded r r.json w
    where
      decoded :
          (r : HttpResponse) (j : Json ⊎ String) (w : World)
          → is_refusal (continue (or_external j) (after_refusal r) w).0
            ≡ (not (r.status_code == 200) && refuses_in j)
      decoded r (inl body) w = after_refusal_lem r body w
      decoded r (inr m) w = ground arith

  pub get_access_token_lem :
      (refresh_token : String) (w : World)
      → is_refusal (get_access_token client_id client_secret refresh_token w).0
        ≡ refuses (w.outside.http w.calls (grant_request refresh_token))
  unfolding get_access_token after_refusal exec
  get_access_token_lem refresh_token w =
      answered (w.outside.http w.calls (grant_request refresh_token))
        (send_request (grant_request refresh_token) w).1
    where
      answered :
          (a : HttpResponse ⊎ String) (v : World)
          → is_refusal (continue (or_external a) (λ r. decode r >>= after_refusal r) v).0
            ≡ refuses a
      answered (inl r) v = after_response_lem r v
      answered (inr m) v = refl

  after_response-reads : (r : HttpResponse) → Leaves state_of (decode r >>= after_refusal r)
  unfolding after_refusal decode refuse_refresh refresh_failure expect expect_keys
  after_response-reads r = search (reads_rules, json_text-reads) depth 20

  -- What a refused grant leaves: the tables as they were, and the token request alone sent.
  abbrev pub after_token_request : String → World → State
  after_token_request refresh_token w = (
    w.db,
    w.saved,
    w.sent ++ record { effect = http (grant_request refresh_token); committed = w.saved } ∷ [],
  )

  pub get_access_token-sends :
      (refresh_token : String) (w : World)
      → refuses (w.outside.http w.calls (grant_request refresh_token)) ≡ true
      → state_of (get_access_token client_id client_secret refresh_token w).1
        ≡ after_token_request refresh_token w
  unfolding get_access_token after_refusal exec record_effect
  get_access_token-sends refresh_token w =
      answered (w.outside.http w.calls (grant_request refresh_token))
    where
      answered :
          (a : HttpResponse ⊎ String)
          → refuses a ≡ true
          → state_of
              (continue
                (or_external a)
                (λ r. decode r >>= after_refusal r)
                (record_effect (http (grant_request refresh_token)) (or_external a) w)).1
            ≡ after_token_request refresh_token w
      answered (inl r) h = (after_response-reads r).at _
      answered (inr m) h = ground arith
