-- ===== src/Api/Install/Callback.antt =====
-- The callback of an installation as a whole, whatever becomes of the welcome message.
use hound_bot.Base.{
  ◌≡◌, ◌∙◌, ap, sym, String, true, Option, none, some, [], ◌∷◌, leb, select, subst, arith,
}
use hound_bot.Json.{Json}
use hound_bot.Models.{Db, OAuthState, slack_install}
use hound_bot.Exec.{lift, attempt, Result, ok, err, World, Exec, exec, continue, ◌>>◌, ◌>>=◌}
use hound_bot.Exec.Laws.{
  Leaves, tables_of, Tables, EndsFrom-bind, Leaves-pure, Leaves-or_raise, Leaves-attempt,
  Leaves-lift, or_raise-ok,
}
use hound_bot.Repositories.OAuthStates.{has_state, remove}
use hound_bot.Repositories.OAuthStates.Redeemed.{IsRedeemed, Redeems, consume-Redeems}
use hound_bot.Api.Http.{OAuthSettings, client_of}
use hound_bot.Api.Install
use hound_bot.Api.Install.Stored.{
  exchange-tables, welcome-tables, welcome-returns, IsStored, Stores, store-Stores,
}

-- An installation that was made: the state's only row was issued for installing and had not
-- expired; it is gone; Slack answered the exchange of the code with a token and a team, and they are
-- stored.
pub record IsInstalled (settings : OAuthSettings) (code state : String) (w : World) (after : Tables)
    : Type 0 where
  pub issued : OAuthState
  pub only : select (has_state state) w.db.oauth_states ≡ issued ∷ []
  pub purpose : issued.purpose ≡ slack_install
  pub in_time : leb (w.outside.clock w.calls) issued.expires_at ≡ true
  pub gone : select (has_state state) after.0.oauth_states ≡ []
  pub client : String × String
  pub of_settings : client_of settings ≡ some client
  pub asking : World
  pub same_outside : asking.outside ≡ w.outside
  pub bot_token : Json
  pub team_id : Json
  pub user_id : Option Json
  pub answered :
      Install.or_400 (Install.exchange settings client code asking).0
      ≡ ok (bot_token, team_id, user_id)
  pub stored : IsStored settings bot_token team_id (remove issued.state w.db) w.outside after

abbrev pub Installs : OAuthSettings → String → String → World → Result (Unit {0}) → World → Type 0
Installs settings code state w (ok _) v = IsInstalled settings code state w (tables_of v)
Installs settings code state w (err e) v = v.saved ≡ w.saved

lifted : {A : Type 0} (r : Result A) (a : A) (w : World) → (lift r w).0 ≡ ok a → r ≡ ok a
unfolding exec
lifted r a w h = h

attempted :
    {A : Type 0} (m : Exec A) (r : Result A) (w : World) → (attempt m w).0 ≡ ok r → (m w).0 ≡ r
unfolding exec
attempted m r w h = ap (or_result (m w).0) h
  where
    or_result : {A : Type 0} → Result A → Result (Result A) → Result A
    or_result d (ok r) = r
    or_result d (err e) = d

module _ (settings : OAuthSettings) (code state : String) (w : World) where
  -- What Slack answered.
  record Answer (tokens : Json × Json × Option Json) : Type 0 where
    client : String × String
    of_settings : client_of settings ≡ some client
    asking : World
    same_outside : asking.outside ≡ w.outside
    answered : Install.or_400 (Install.exchange settings client code asking).0 ≡ ok tokens

  installed :
      (row : OAuthState) (x : World) (tokens : Json × Json × Option Json) (after : Tables)
      → IsRedeemed state slack_install w row x
      → Answer tokens
      → IsStored settings tokens.0 tokens.1 (remove row.state w.db) w.outside after
      → IsInstalled settings code state w after
  installed row x tokens after h a stored = record {
    issued = row;
    only = h.only;
    purpose = h.purpose;
    in_time = h.in_time;
    gone =
        ap (λ (db : Db). select (has_state state) db.oauth_states) stored.workspace.tables
        ∙ sym (ap (λ (t : Tables). select (has_state state) t.0.oauth_states) h.tables)
        ∙ h.gone;
    client = a.client;
    of_settings = a.of_settings;
    asking = a.asking;
    same_outside = a.same_outside;
    bot_token = tokens.0;
    team_id = tokens.1;
    user_id = tokens.2;
    answered = a.answered;
    stored = stored;
  }

  returned :
      (r : Result (Unit {0})) (u : World)
      → r ≡ ok tt
      → IsInstalled settings code state w (tables_of u)
      → Installs settings code state w r u
  returned (ok _) u e done = done
  returned (err x) u e done = ground arith

  -- The welcome message, once the installation is stored.
  welcomed :
      (row : OAuthState) (x : World) (tokens : Json × Json × Option Json) (r : Result String)
      (v : World)
      → IsRedeemed state slack_install w row x
      → Answer tokens
      → Stores settings tokens.0 tokens.1 (remove row.state w.db) w.saved w.outside r v
      → let (r', u) = continue r (λ bot_token. Install.try_welcome bot_token tokens.2) v in
        Installs settings code state w r' u
  unfolding exec
  welcomed row x tokens (err e) v h a stored = stored
  welcomed row x tokens (ok bot_token) v h a stored =
      returned _ _ (welcome-returns bot_token tokens.2 v) (
        subst (IsInstalled settings code state w) (sym ((welcome-tables bot_token tokens.2).at v))
          (installed row x tokens (tables_of v) h a stored))

  redeemed :
      (row : OAuthState) (x : World)
      → IsRedeemed state slack_install w row x
      → let (r, v) = Install.install_redeemed settings code (some row) x in
        Installs settings code state w r v
  unfolding Install.install_redeemed Install.found ◌>>◌
  redeemed row x h =
      step _ _ (Leaves-pure tables_of tt)
        (λ _ w1 at1 ok1. step _ _ (Leaves-or_raise tables_of _ _) (λ client w2 at2 ok2.
          step _ _ (Leaves-attempt tables_of _ (exchange-tables settings client code))
            (λ exchanged w3 at3 ok3. step _ _ (Leaves-lift tables_of _) (λ tokens w4 at4 ok4 w5 at5.
              welcomed row x tokens _ _ h
                (record {
                  client = client;
                  of_settings = or_raise-ok _ _ client w2 ok2;
                  asking = w3;
                  same_outside = ap (λ (t : Tables). t.2) at3;
                  answered =
                      ap Install.or_400
                        (attempted (Install.exchange settings client code) exchanged w3 ok3)
                      ∙ lifted (Install.or_400 exchanged) tokens w4 ok4;
                })
                (store-Stores settings tokens.0 tokens.1 (remove row.state w.db) w.saved w.outside
                  w5 at5)))))
        x h.tables
    where
      step :
          {B : Type 0} (m : Exec B) (k : B → Exec (Unit {0}))
          → Leaves tables_of m
          → ((b : B) (v : World)
              → tables_of v ≡ (remove row.state w.db, w.saved, w.outside)
              → (m v).0 ≡ ok b
              → (u : World) → tables_of u ≡ (remove row.state w.db, w.saved, w.outside)
              → Installs settings code state w (k b u).0 (k b u).1)
          → (u : World) → tables_of u ≡ (remove row.state w.db, w.saved, w.outside)
          → Installs settings code state w ((m >>= k) u).0 ((m >>= k) u).1
      step =
          EndsFrom-bind tables_of (remove row.state w.db, w.saved, w.outside)
            (Installs settings code state w) (λ e v at. ap (λ (t : Tables). t.1) at)

  after_redeem :
      (r : Result (Option OAuthState)) (v : World)
      → Redeems state slack_install w r v
      → let (r', u) = continue r (Install.install_redeemed settings code) v in
        Installs settings code state w r' u
  unfolding Install.install_redeemed Install.found exec
  after_redeem (ok none) v h = h
  after_redeem (ok (some row)) v h = redeemed row v h
  after_redeem (err e) v h = h

-- The callback of an installation, whatever Slack answers, either raises and commits nothing, or it
-- returns and has committed this: the state had exactly one row, which was issued for an
-- installation and had not expired when the clock was read; that row is gone; Slack answered the
-- exchange of the code, for the client of the settings, with a bot token and a team; the only row of
-- that team's workspace is marked as not uninstalled and holds that token as the cipher of the
-- settings encrypts it, with its key version; the rows of all other workspaces, and all other
-- tables, are as they were. So a failure of the welcome message does not fail the installation.
pub oauth_callback-Installs :
    (settings : OAuthSettings) (code state : String) (w : World)
    → let (r, v) = Install.oauth_callback settings code state w in
      Installs settings code state w r v
unfolding Install.oauth_callback exec
oauth_callback-Installs settings code state w =
    after_redeem settings code state w _ _ (consume-Redeems state slack_install w)
