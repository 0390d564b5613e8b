-- ===== src/Repositories/Users.antt =====
-- app/repositories/user_repository.py. Each function is a method after `UserRepository(session,
-- team_id)`, whose check of the team is `Tenant.open_repository`.
pub mod Linking
use hound_bot.Base.{
  ℕ, String, Bool, ◌&&◌, ◌<>◌, Option, none, some, [], ◌∷◌, ◌++◌, ◌==◌, string_eq, update,
}
use hound_bot.Models.{Db, User, Bytes}
use hound_bot.Exec.{value_error, Exec, pure, raise, ◌>>=◌, modify, now}
use hound_bot.Repositories.Tenant

abbrev pub team_of : User → String
team_of u = u.team_id

abbrev pub has_id : String → User → Bool
has_id slack_user_id u = u.slack_user_id == slack_user_id

-- The row of the primary key (team_id, slack_user_id).
abbrev pub is_row : String → String → User → Bool
is_row team_id slack_user_id u = u.team_id == team_id && u.slack_user_id == slack_user_id

unfoldable pub get : String → String → Exec (Option User)
unfolding Tenant.get
get team_id slack_user_id = Tenant.get (λ db. db.users) team_of team_id (has_id slack_user_id)

abbrev pub insert : User → Db → Db
insert u db = record db { users = db.users ++ u ∷ [] }

abbrev pub unlinked : String → String → String → User
unlinked team_id slack_user_id tz = record {
  slack_user_id = slack_user_id;
  team_id = team_id;
  tz = tz;
  google_refresh_token_enc = none;
  key_version = 1;
  google_link_broken_at = none;
  google_email = none;
}

unfoldable pub add_unlinked : String → String → String → Option User → Exec User
unfolding Tenant.add
add_unlinked team_id slack_user_id tz (some user) = pure user
add_unlinked team_id slack_user_id tz none = Tenant.add insert (unlinked team_id slack_user_id tz)

unfoldable pub get_or_create : String → String → String → Exec User
unfolding add_unlinked get
get_or_create team_id slack_user_id tz = do
  user ← get team_id slack_user_id
  add_unlinked team_id slack_user_id tz user

-- An assignment to attributes of the row, and the flush.
abbrev pub write : String → String → (User → User) → Db → Db
write team_id slack_user_id f db = record db {
  users = update (is_row team_id slack_user_id) f db.users;
}

abbrev pub link : Bytes → ℕ → Option String → User → User
link refresh_token_enc key_version google_email u = record u {
  google_refresh_token_enc = some refresh_token_enc;
  key_version = key_version;
  google_email = google_email;
  google_link_broken_at = none;
}

unfoldable pub write_link : String → String → Bytes → ℕ → Option String → Option User → Exec Unit
write_link team_id slack_user_id token version email none =
    raise (value_error ("no user row for " <> slack_user_id <> " — must exist before linking"))
write_link team_id slack_user_id token version email (some _) =
    modify (write team_id slack_user_id (link token version email))

-- `google_email` is nullable in the table, and nothing at run time refuses a null.
unfoldable pub store_google_link : String → String → Bytes → ℕ → Option String → Exec Unit
unfolding get write_link
store_google_link team_id slack_user_id refresh_token_enc key_version google_email = do
  user ← get team_id slack_user_id
  write_link team_id slack_user_id refresh_token_enc key_version google_email user

unfoldable pub write_broken : String → String → Option User → Exec Unit
write_broken team_id slack_user_id none = pure tt
write_broken team_id slack_user_id (some _) = do
  t ← now
  modify (write team_id slack_user_id (λ u. record u { google_link_broken_at = some t }))

unfoldable pub mark_google_link_broken : String → String → Exec Unit
unfolding get write_broken
mark_google_link_broken team_id slack_user_id = do
  user ← get team_id slack_user_id
  write_broken team_id slack_user_id user
