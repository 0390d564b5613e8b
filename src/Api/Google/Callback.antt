-- ===== src/Api/Google/Callback.antt =====
-- The callback of a Google link as a whole: what a redeemed state lets it do.
use hound_bot.Base.{
  ◌≡◌, ◌∙◌, ap, String, true, Option, none, some, [], ◌∷◌, leb, select, arith, sym,
}
use hound_bot.Json.{Json}
use hound_bot.Models.{Db, OAuthState, google_link}
use hound_bot.Exec.{Outside, Result, ok, err, Error, World, Exec, exec, continue, ◌>>◌, ◌>>=◌, pure}
use hound_bot.Exec.Laws.{
  Leaves, tables_of, Tables, tables_rules, EndsFrom-bind, or_raise-ok, Leaves-read, Leaves-or_raise,
  Leaves-attempt, Leaves-lift,
}
use hound_bot.Exec.Requests.{request_rules}
use hound_bot.Repositories.Tenant.{open_repository}
use hound_bot.Repositories.OAuthStates.{has_state, remove}
use hound_bot.Repositories.OAuthStates.Redeemed.{IsRedeemed, Redeems, consume-Redeems}
use hound_bot.Calendar.Google.{
  exchange_code_for_tokens, fetch_user_email, expect, refuse_exchange, two_tokens,
}
use hound_bot.Api.Http.{OAuthSettings, both}
use hound_bot.Api.Http.Reads.{public_url-tables, cipher_of-tables, encrypt-tables}
use hound_bot.Api.Google
use hound_bot.Api.Google.{Linked, identity_of}
use hound_bot.Api.Google.Stored.{IsStored, Stores, link_row-Stores}

fetch_user_email-tables : (token : Json) → Leaves tables_of (fetch_user_email token)
unfolding fetch_user_email expect
fetch_user_email-tables token = search request_rules depth 20

exchange_code-tables :
    (id secret code uri : String) → Leaves tables_of (exchange_code_for_tokens id secret code uri)
unfolding exchange_code_for_tokens expect refuse_exchange two_tokens
exchange_code-tables id secret code uri = search request_rules depth 20

exchange-tables :
    (settings : OAuthSettings) (client : String × String) (code : String)
    → Leaves tables_of (Google.exchange settings client code)
unfolding Google.exchange Google.redirect_uri
exchange-tables settings (id, secret) code =
    search (tables_rules, public_url-tables, exchange_code-tables, fetch_user_email-tables) depth 12

open_repository-tables : (team : String) → Leaves tables_of (open_repository team)
unfolding open_repository
open_repository-tables team = search tables_rules

module _ (team user : String) (email : Json) (before saved : Db) (o : Outside) where
  abbrev Storing : Exec (Unit {0}) → Type 0
  Storing m =
      (w : World)
      → tables_of w ≡ (before, saved, o)
      → Stores team user email before saved o (m w).0 (m w).1

  and_then :
      {B : Type 0} (m : Exec B) (k : B → Exec (Unit {0}))
      → Leaves tables_of m
      → ((b : B) → Storing (k b))
      → Storing (m >>= k)
  and_then m k h hk =
      EndsFrom-bind tables_of (before, saved, o) (Stores team user email before saved o)
        (λ e v at. ap (λ (t : Tables). t.1) at) m k h (λ b w at ok_b. hk b)

  pub store-Stores :
      (settings : OAuthSettings) (token : Json)
      → Storing (Google.store settings team user token email)
  unfolding Google.store ◌>>◌
  store-Stores settings token = and_then _ _ (cipher_of-tables settings.keys) (λ c.
      and_then _ _ (Leaves-read tables_of _) (λ text. and_then _ _ (encrypt-tables c text) (λ x.
        and_then _ _ (open_repository-tables team)
          (λ _. link_row-Stores team user email before saved o x.0 x.1))))

-- A link that was made: the state's only row was issued for linking, by the signed command of the
-- user whose row holds the link now, and had not expired; it is gone, and all is committed.
pub record IsLinked (state : String) (w : World) (email : Json) (v : World) : Type 0 where
  pub issued : OAuthState
  pub team : String
  pub user : String
  pub only : select (has_state state) w.db.oauth_states ≡ issued ∷ []
  pub purpose : issued.purpose ≡ google_link
  pub in_time : leb (w.outside.clock w.calls) issued.expires_at ≡ true
  pub for_team : issued.team_id ≡ some team
  pub for_user : issued.slack_user_id ≡ some user
  pub gone : select (has_state state) v.db.oauth_states ≡ []
  pub stored : IsStored team user email (remove issued.state w.db) v

abbrev pub Links : String → World → Result Linked → World → Type 0
Links state w (ok linked) v = IsLinked state w linked.email v
Links state w (err e) v = v.saved ≡ w.saved

both-some :
    (a b : Option String) (x y : String) → both a b ≡ some (x, y) → (a ≡ some x) × (b ≡ some y)
both-some none b x y h = ground arith
both-some (some a) none x y h = ground arith
both-some (some a) (some b) x y h = ground arith

module _ (settings : OAuthSettings) (code state : String) (w : World) where
  on_raise :
      (before : Db) (e : Error) (v : World)
      → tables_of v ≡ (before, w.saved, w.outside)
      → v.saved ≡ w.saved
  on_raise before e v at = ap (λ (t : Tables). t.1) at

  -- The answer, once the link is stored.
  answered :
      (row : OAuthState) (x : World) (team user : String) (email : Json) (r : Result (Unit {0}))
      (v : World)
      → IsRedeemed state google_link w row x
      → row.team_id ≡ some team
      → row.slack_user_id ≡ some user
      → Stores team user email (remove row.state w.db) w.saved w.outside r v
      → let (r', u) =
          continue {B = Linked} r (λ _. pure (record { status = "linked"; email = email })) v in
        Links state w r' u
  unfolding exec
  answered row x team user email (err e) v h is_team is_user stored = stored
  answered row x team user email (ok _) v h is_team is_user stored = record {
    issued = row;
    team = team;
    user = user;
    only = h.only;
    purpose = h.purpose;
    in_time = h.in_time;
    for_team = is_team;
    for_user = is_user;
    gone =
        ap (λ (db : Db). select (has_state state) db.oauth_states) stored.tables
        ∙ sym (ap (λ (t : Tables). select (has_state state) t.0.oauth_states) h.tables)
        ∙ h.gone;
    stored = stored;
  }

  redeemed :
      (row : OAuthState) (x : World)
      → IsRedeemed state google_link w row x
      → let (r, v) = Google.link_redeemed settings code (some row) x in Links state w r v
  unfolding Google.link_redeemed ◌>>◌
  redeemed row x h =
      step _ _ (Leaves-or_raise tables_of _ _)
        (λ identity w1 at1 found. step _ _ (Leaves-or_raise tables_of _ _) (λ client w2 at2 ok2.
          step _ _ (Leaves-attempt tables_of _ (exchange-tables settings client code))
            (λ exchanged w3 at3 ok3. step _ _ (Leaves-lift tables_of _) (λ tokens w4 at4 ok4 w5 at5.
              let ids =
                both-some row.team_id row.slack_user_id identity.0 identity.1
                  (or_raise-ok _ _ identity w1 found) in
              answered row x identity.0 identity.1 tokens.1 _ _ h ids.0 ids.1 (
                store-Stores identity.0 identity.1 tokens.1 (remove row.state w.db) w.saved
                  w.outside settings tokens.0 w5 at5)))))
        x h.tables
    where
      step :
          {B : Type 0} (m : Exec B) (k : B → Exec Linked)
          → Leaves tables_of m
          → ((b : B) (v : World)
              → tables_of v ≡ (remove row.state w.db, w.saved, w.outside)
              → (m v).0 ≡ ok b
              → (u : World) → tables_of u ≡ (remove row.state w.db, w.saved, w.outside)
              → Links state w (k b u).0 (k b u).1)
          → (u : World) → tables_of u ≡ (remove row.state w.db, w.saved, w.outside)
          → Links state w ((m >>= k) u).0 ((m >>= k) u).1
      step =
          EndsFrom-bind tables_of (remove row.state w.db, w.saved, w.outside) (Links state w)
            (on_raise (remove row.state w.db))

  after_redeem :
      (r : Result (Option OAuthState)) (v : World)
      → Redeems state google_link w r v
      → let (r', u) = continue r (Google.link_redeemed settings code) v in Links state w r' u
  unfolding Google.link_redeemed exec
  after_redeem (ok none) v h = h
  after_redeem (ok (some row)) v h = redeemed row v h
  after_redeem (err e) v h = h

-- The callback of a Google link, whatever Google answers, either raises and commits nothing, or it
-- returns and has committed this: the state had exactly one row, which was issued for linking to a
-- team and a user and had not expired when the clock was read; that row is gone; the only row of
-- that user in that team holds a token, the address that is answered and no broken link; the rows
-- of all other users, and all other tables, are as they were.
pub oauth_callback-Links :
    (settings : OAuthSettings) (code state : String) (w : World)
    → let (r, v) = Google.oauth_callback settings code state w in Links state w r v
unfolding Google.oauth_callback exec
oauth_callback-Links settings code state w =
    after_redeem settings code state w _ _ (consume-Redeems state google_link w)
