-- ===== src/Calendar/Google/Provider.antt =====
-- The provider's three operations where Google refuses the grant of their refresh token.
use hound_bot.Base.{◌≡◌, refl, ◌↔◌, ◌∙◌, sym, String, List, true, ap}
use hound_bot.Time.{DateTime}
use hound_bot.Json.{Json, Items, no_items, item}
use hound_bot.Exec.{Result, err, invalid_grant, Exec, World, exec, continue, lift, ◌>>=◌}
use hound_bot.Exec.Laws.{state_of}
use hound_bot.Services.Parsers.{IsoTime, invalid, naive, out_of_range, aware}
use hound_bot.Calendar.Google.{
  get_access_token, blocks_of, period_end, moment_of, get_busy_blocks, create_event, cancel_event,
}
use hound_bot.Calendar.Google.Quiet.{
  Quiet, is_refusal-raise, bind-Quiet, http_rules, send_with-Quiet, Quiet-bind, Quiet-pure,
}
use hound_bot.Calendar.Google.Grant.{
  refuses, grant_request, get_access_token_lem, get_access_token-sends, after_token_request,
}

module _ (fromisoformat : String → IsoTime) where
  moment_of-Quiet : (t : IsoTime) → Quiet (lift (moment_of fromisoformat t))
  unfolding exec
  moment_of-Quiet (aware t) = record { at = λ w. refl }
  moment_of-Quiet naive = record { at = λ w. refl }
  moment_of-Quiet out_of_range = record { at = λ w. refl }
  moment_of-Quiet invalid = record { at = λ w. refl }

  period_end-Quiet : (period : Json) (name : String) → Quiet (period_end fromisoformat period name)
  unfolding period_end
  period_end-Quiet period name = search (http_rules, moment_of-Quiet)

  blocks_of-Quiet : (periods : Items) → Quiet (blocks_of fromisoformat periods)
  unfolding blocks_of
  blocks_of-Quiet no_items = search http_rules
  blocks_of-Quiet (item period periods) = Quiet-bind _ _ (period_end-Quiet period "start") (λ a.
      Quiet-bind _ _ (period_end-Quiet period "end")
        (λ b. Quiet-bind _ _ (blocks_of-Quiet periods) (λ c. Quiet-pure _)))

module _ (client_id client_secret refresh_token : String) where
  -- `m` raises `invalid_grant` just where Google refuses the grant in its answer to the first
  -- request of `m`, the one for an access token; then no other request is sent and no row changes.
  abbrev pub RefusedWithGrant : {A : Type 0} → Exec A → World → Type 0
  RefusedWithGrant m w =
      let refused =
        refuses (w.outside.http w.calls (grant_request client_id client_secret refresh_token)) in
      (((m w).0 ≡ err invalid_grant) ↔ (refused ≡ true))
      × (refused ≡ true
          → state_of (m w).1 ≡ after_token_request client_id client_secret refresh_token w)

  skipped :
      {A : Type 0} (r : Result Json) (k : Json → Exec A) (v : World)
      → r ≡ err invalid_grant
      → (continue r k v).1 ≡ v
  unfolding exec
  skipped r k v h = rw h refl

  token_first :
      {A : Type 0} (k : Json → Exec A)
      → ((token : Json) → Quiet (k token))
      → (w : World)
      → RefusedWithGrant (get_access_token client_id client_secret refresh_token >>= k) w
  unfolding exec
  token_first k hk w =
      let get = get_access_token client_id client_secret refresh_token in
      let grant = get_access_token_lem client_id client_secret refresh_token w in
      let both = bind-Quiet get k w hk ∙ grant in
      (
        (
          λ raised. sym both ∙ (is_refusal-raise _).1 raised,
          λ refused. (is_refusal-raise _).0 (both ∙ refused),
        ),
        λ refused.
            ap state_of (skipped (get w).0 k (get w).1 ((is_refusal-raise _).0 (grant ∙ refused)))
            ∙ get_access_token-sends client_id client_secret refresh_token w refused,
      )

  -- Whatever Google answers: reading busy blocks, creating an event and cancelling one each raise
  -- InvalidGrantError just where the answer to the token request has a status other than 200 and an
  -- object whose error is `invalid_grant`; then nothing but that request was sent, and no table
  -- changed.
  pub provider-refused :
      (fromisoformat : String → IsoTime) (from to : DateTime) (title event_id : String)
      (emails : List String) (w : World)
      → RefusedWithGrant
          (get_busy_blocks client_id client_secret fromisoformat refresh_token from to)
          w
        × RefusedWithGrant
            (create_event client_id client_secret refresh_token title from to emails)
            w
        × RefusedWithGrant (cancel_event client_id client_secret refresh_token event_id) w
  unfolding get_busy_blocks create_event cancel_event
  provider-refused fromisoformat from to title event_id emails w = (
    token_first _
        (λ token. search (http_rules, send_with-Quiet, blocks_of-Quiet fromisoformat) depth 20) w,
    token_first _ (λ token. search (http_rules, send_with-Quiet) depth 20) w,
    token_first _ (λ token. search (http_rules, send_with-Quiet) depth 20) w,
  )
