-- ===== src/Repositories/OAuthStates.antt =====
-- app/repositories/oauth_state_repository.py
pub mod SingleUse
pub mod Redeemed
use hound_bot.Base.{
  ℕ, ◌*◌, String, Bool, false, not, Option, none, some, [], ◌∷◌, ◌++◌, ◌==◌, string_eq, select, leb,
  ltb, if◌then◌else◌,
}
use hound_bot.Time.{second}
use hound_bot.Base.Int.{pos}
use hound_bot.Time.{add_delta}
use hound_bot.Models.{Db, OAuthState, Purpose, purpose_eq}
use hound_bot.Exec.{
  overflow_error, Exec, pure, or_raise, query, scalar_one_or_none, ask, ◌>>=◌, ◌>>◌, modify, now,
}

abbrev pub default_ttl_seconds : ℕ
default_ttl_seconds = 600

abbrev pub insert : OAuthState → Db → Db
insert row db = record db { oauth_states = db.oauth_states ++ row ∷ [] }

unfoldable pub issue : Purpose → Option String → Option String → ℕ → Exec String
issue purpose team_id slack_user_id ttl_seconds = do
  state ← ask (λ o n. o.token_urlsafe n)
  t ← now
  expires_at ← or_raise overflow_error (add_delta t (pos (ttl_seconds * second)))
  modify (
      insert (record {
        state = state;
        purpose = purpose;
        team_id = team_id;
        slack_user_id = slack_user_id;
        created_at = t;
        expires_at = expires_at;
      }))
  pure state

abbrev pub has_state : String → OAuthState → Bool
has_state state row = row.state == state

unfoldable pub find : String → Exec (Option OAuthState)
find state = do
  result ← query (λ db. select (has_state state) db.oauth_states)
  scalar_one_or_none result

unfoldable pub check_valid : Purpose → Option OAuthState → Exec Bool
check_valid expected none = pure false
check_valid expected (some row) =
    if not (row.purpose == expected) then pure false else do t ← now; pure (leb t row.expires_at)

unfoldable pub peek_valid : String → Purpose → Exec Bool
unfolding find check_valid
peek_valid state expected = do row ← find state; check_valid expected row

-- The row is deleted before its purpose and its expiry are looked at.
abbrev pub remove : String → Db → Db
remove state db = record db {
  oauth_states = select (λ row. not (has_state state row)) db.oauth_states;
}

unfoldable pub redeem : Purpose → OAuthState → Exec (Option OAuthState)
redeem expected row =
    if not (row.purpose == expected)
    then pure none
    else do t ← now; if ltb row.expires_at t then pure none else pure (some row)

unfoldable pub take_row : Purpose → Option OAuthState → Exec (Option OAuthState)
unfolding redeem
take_row expected none = pure none
take_row expected (some row) = do modify (remove row.state); redeem expected row

unfoldable pub consume : String → Purpose → Exec (Option OAuthState)
unfolding find take_row
consume state expected = do row ← find state; take_row expected row
