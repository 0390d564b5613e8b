-- ===== src/Api/Install/Stored.antt =====
-- The parts of the callback of an installation: the exchange and the welcome message leave the
-- tables alone, and storing commits the workspace's row.
use hound_bot.Base.{◌≡◌, refl, ◌∙◌, ap, ℕ, String, Option, none, some, subst, arith}
use hound_bot.Json.{Json, Read, as_text}
use hound_bot.Models.{Db, Bytes}
use hound_bot.Exec.{
  read, read_result, Outside, Result, ok, err, World, Exec, exec, continue, pure, commit, ◌>>◌,
  ◌>>=◌,
}
use hound_bot.Exec.Laws.{Leaves, tables_of, Tables, EndsFrom-bind, Leaves-read}
use hound_bot.Exec.Requests.{request_rules}
use hound_bot.Core.Security.{TokenCipher, encrypt, token_cipher_from_settings}
use hound_bot.Repositories.Workspaces.{upsert_on_install}
use hound_bot.Repositories.Workspaces.Installing.{Holds, Upserts, upsert_on_install-Upserts}
use hound_bot.Services.SlackOauth.{exchange_code_for_token, refuse_failure, token_and_team}
use hound_bot.Api.Http.{OAuthSettings, cipher_of}
use hound_bot.Api.Http.Reads.{public_url-tables, cipher_of-tables, encrypt-tables}
use hound_bot.Api.Install

pub exchange-tables :
    (settings : OAuthSettings) (client : String × String) (code : String)
    → Leaves tables_of (Install.exchange settings client code)
unfolding Install.exchange Install.redirect_uri exchange_code_for_token refuse_failure
    token_and_team
exchange-tables settings (id, secret) code = search (request_rules, public_url-tables) depth 20

pub welcome-tables :
    (bot_token : String) (user_id : Option Json)
    → Leaves tables_of (Install.try_welcome bot_token user_id)
unfolding Install.try_welcome Install.send_welcome_dm Install.welcome_in Install.post_welcome
welcome-tables bot_token none = search request_rules
welcome-tables bot_token (some user_id) = search request_rules depth 20

-- A raise is kept inside.
pub welcome-returns :
    (bot_token : String) (user_id : Option Json) (w : World)
    → (Install.try_welcome bot_token user_id w).0 ≡ ok tt
unfolding Install.try_welcome exec
welcome-returns bot_token none w = refl
welcome-returns bot_token (some user_id) w = ground arith

-- A committed installation of the token and the team that Slack answered: the cipher of the
-- settings encrypted that token, and the only row of that team holds the ciphertext.
pub record IsStored (settings : OAuthSettings) (bot_token team_id : Json) (before : Db)
    (o : Outside) (after : Tables) : Type 0 where
  pub committed : after.1 ≡ after.0
  pub team : String
  pub of_team : read_result (as_text team_id) ≡ ok team
  pub plaintext : String
  pub of_token : read_result (as_text bot_token) ≡ ok plaintext
  pub cipher : TokenCipher
  pub of_settings : token_cipher_from_settings o.is_fernet_key settings.keys ≡ ok cipher
  pub sealing : World
  pub same_outside : sealing.outside ≡ o
  pub token : Bytes
  pub version : ℕ
  pub sealed : (encrypt cipher plaintext sealing).0 ≡ ok (token, version)
  pub workspace : Holds team token version before after.0

module _ (settings : OAuthSettings) (bot_token team_id : Json) (before saved : Db)
    (o : Outside) where
  abbrev pub Stores : {A : Type 0} → Result A → World → Type 0
  Stores (ok _) v = IsStored settings bot_token team_id before o (tables_of v)
  Stores (err e) v = v.saved ≡ saved

  abbrev pub Storing : {A : Type 0} → Exec A → Type 0
  Storing m = (w : World) → tables_of w ≡ (before, saved, o) → Stores (m w).0 (m w).1

  and_then :
      {A B : Type 0} (m : Exec B) (k : B → Exec A)
      → Leaves tables_of m
      → ((b : B) (w : World) → tables_of w ≡ (before, saved, o) → (m w).0 ≡ ok b → Storing (k b))
      → Storing (m >>= k)
  and_then =
      EndsFrom-bind tables_of (before, saved, o) Stores (λ e v at. ap (λ (t : Tables). t.1) at)

  -- What was read before the row is written.
  record Sealed (x : Bytes × ℕ) (team : String) : Type 0 where
    of_team : read_result (as_text team_id) ≡ ok team
    plaintext : String
    of_token : read_result (as_text bot_token) ≡ ok plaintext
    cipher : TokenCipher
    of_settings : token_cipher_from_settings o.is_fernet_key settings.keys ≡ ok cipher
    sealing : World
    same_outside : sealing.outside ≡ o
    sealed : (encrypt cipher plaintext sealing).0 ≡ ok x

  upserted :
      (team text : String) (x : Bytes × ℕ) (w v : World) (r : Result (Unit {0}))
      → Sealed x team
      → tables_of w ≡ (before, saved, o)
      → Upserts team x.0 x.1 w r v
      → let (r', v') = continue {B = String} r (λ _. commit >> pure text) v in Stores r' v'
  unfolding exec
  upserted team text x w v (err e) s at h = h ∙ ap (λ (t : Tables). t.1) at
  upserted team text x w v (ok _) s at h = record {
    committed = refl;
    team = team;
    of_team = s.of_team;
    plaintext = s.plaintext;
    of_token = s.of_token;
    cipher = s.cipher;
    of_settings = s.of_settings;
    sealing = s.sealing;
    same_outside = s.same_outside;
    token = x.0;
    version = x.1;
    sealed = s.sealed;
    workspace = subst (λ db. Holds team x.0 x.1 db v.db) (ap (λ (t : Tables). t.0) at) h;
  }

  upsert_row :
      (team text : String) (x : Bytes × ℕ)
      → Sealed x team
      → Storing (upsert_on_install team x.0 x.1 >> (commit >> pure text))
  unfolding ◌>>◌ ◌>>=◌
  upsert_row team text x s w at =
      upserted team text x w _ _ s at (upsert_on_install-Upserts team x.0 x.1 w)

  cipher_of-settings :
      (c : TokenCipher) (w : World)
      → tables_of w ≡ (before, saved, o)
      → (cipher_of settings.keys w).0 ≡ ok c
      → token_cipher_from_settings o.is_fernet_key settings.keys ≡ ok c
  unfolding cipher_of exec
  cipher_of-settings c w at h =
      subst (λ (u : Outside). token_cipher_from_settings u.is_fernet_key settings.keys ≡ ok c)
        (ap (λ (t : Tables). t.2) at) h

  read-result :
      {A : Type 0} (r : Read A) (a : A) (w : World) → (read r w).0 ≡ ok a → read_result r ≡ ok a
  unfolding exec
  read-result r a w h = h

  pub store-Stores : Storing (Install.store settings bot_token team_id)
  unfolding Install.store
  store-Stores = and_then _ _ (cipher_of-tables settings.keys) (λ c w1 at1 ok1.
      and_then _ _ (Leaves-read tables_of _) (λ plaintext w2 at2 ok2.
        and_then _ _ (encrypt-tables c plaintext) (λ x w3 at3 ok3.
          and_then _ _ (Leaves-read tables_of _) (λ team w4 at4 ok4.
            upsert_row team plaintext x (record {
              of_team = read-result (as_text team_id) team w4 ok4;
              plaintext = plaintext;
              of_token = read-result (as_text bot_token) plaintext w2 ok2;
              cipher = c;
              of_settings = cipher_of-settings c w1 at1 ok1;
              sealing = w3;
              same_outside = ap (λ (t : Tables). t.2) at3;
              sealed = ok3;
            })))))
