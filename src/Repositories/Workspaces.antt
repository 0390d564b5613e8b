-- ===== src/Repositories/Workspaces.antt =====
-- app/repositories/workspace_repository.py
pub mod Installing
use hound_bot.Base.{
  ℕ, String, Bool, Option, none, some, [], ◌∷◌, ◌++◌, ◌==◌, string_eq, select, update,
}
use hound_bot.Models.{Db, Workspace, Bytes}
use hound_bot.Exec.{Exec, pure, query, scalar_one_or_none, ◌>>=◌, modify, now}

abbrev pub has_team : String → Workspace → Bool
has_team team_id s = s.team_id == team_id

unfoldable pub get : String → Exec (Option Workspace)
get team_id = do
  result ← query (λ db. select (has_team team_id) db.workspaces)
  scalar_one_or_none result

abbrev pub write : String → (Workspace → Workspace) → Db → Db
write team_id f db = record db { workspaces = update (has_team team_id) f db.workspaces }

abbrev pub insert : Workspace → Db → Db
insert s db = record db { workspaces = db.workspaces ++ s ∷ [] }

abbrev pub reinstalled : Bytes → ℕ → Workspace → Workspace
reinstalled bot_token_enc key_version s = record s {
  bot_token_enc = bot_token_enc;
  key_version = key_version;
  uninstalled_at = none;
}

unfoldable pub upsert : String → Bytes → ℕ → Option Workspace → Exec Unit
upsert team_id bot_token_enc key_version (some _) =
    modify (write team_id (reinstalled bot_token_enc key_version))
upsert team_id bot_token_enc key_version none = do
  t ← now
  modify (
      insert (record {
        team_id = team_id;
        bot_token_enc = bot_token_enc;
        key_version = key_version;
        installed_at = t;
        uninstalled_at = none;
      }))

unfoldable pub upsert_on_install : String → Bytes → ℕ → Exec Unit
unfolding get upsert
upsert_on_install team_id bot_token_enc key_version = do
  existing ← get team_id
  upsert team_id bot_token_enc key_version existing

unfoldable pub write_uninstalled : String → Option Workspace → Exec Unit
write_uninstalled team_id none = pure tt
write_uninstalled team_id (some _) = do
  t ← now
  modify (write team_id (λ s. record s { uninstalled_at = some t }))

unfoldable pub mark_uninstalled : String → Exec Unit
unfolding get write_uninstalled
mark_uninstalled team_id = do workspace ← get team_id; write_uninstalled team_id workspace
