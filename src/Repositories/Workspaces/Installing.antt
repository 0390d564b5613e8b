-- ===== src/Repositories/Workspaces/Installing.antt =====
-- What an installation leaves in the table of workspaces.
use hound_bot.Base.{
  ℕ, ◌≡◌, refl, ap, ◌∙◌, String, Bool, not, none, List, [], ◌∷◌, ◌++◌, map, string_eq, ==_refl,
  select, select-append, select-update, select-not-update, append-nil,
}
use hound_bot.Models.{Db, Workspace, Bytes}
use hound_bot.Exec.{Result, ok, err, World, exec, scalar_one_or_none, ◌>>=◌}
use hound_bot.Repositories.Workspaces
use hound_bot.Repositories.Workspaces.{has_team, reinstalled}

abbrev pub other_team : String → Workspace → Bool
other_team team s = not (has_team team s)

-- The workspace's only row holds the token and is not uninstalled; all else is as it was.
pub record Holds (team : String) (token : Bytes) (version : ℕ) (before after : Db) : Type 0 where
  pub row : Workspace
  pub own : select (has_team team) after.workspaces ≡ row ∷ []
  pub holds_token : row.bot_token_enc ≡ token
  pub holds_version : row.key_version ≡ version
  pub installed : row.uninstalled_at ≡ none
  pub others :
      select (other_team team) after.workspaces ≡ select (other_team team) before.workspaces
  pub tables : after ≡ record before { workspaces = after.workspaces }

abbrev pub Upserts : String → Bytes → ℕ → World → Result (Unit {0}) → World → Type 0
Upserts team token version w (err e) v = v.saved ≡ w.saved
Upserts team token version w (ok _) v = Holds team token version w.db v.db

module _ (team : String) (token : Bytes) (version : ℕ) where
  upserted :
      (w : World) (rows : List Workspace)
      → select (has_team team) w.db.workspaces ≡ rows
      → let (r, v) = (scalar_one_or_none rows >>= Workspaces.upsert team token version) w in
        Upserts team token version w r v
  unfolding Workspaces.upsert exec
  upserted w [] e = record {
    row = _;
    own = select-append (has_team team) w.db.workspaces _ ∙ new_row _ e;
    holds_token = refl;
    holds_version = refl;
    installed = refl;
    others = select-append (other_team team) w.db.workspaces _ ∙ no_other _;
    tables = refl;
  }
    where
      new : Workspace
      new = record {
        team_id = team;
        bot_token_enc = token;
        key_version = version;
        installed_at = w.outside.clock w.calls;
        uninstalled_at = none;
      }

      new_row : (l : List Workspace) → l ≡ [] → l ++ select (has_team team) (new ∷ []) ≡ new ∷ []
      new_row l h = rw (h, ==_refl team) refl

      no_other : (l : List Workspace) → l ++ select (other_team team) (new ∷ []) ≡ l
      no_other l = rw (==_refl team) (append-nil l)
  upserted w (s ∷ []) e = record {
    row = reinstalled token version s;
    own =
        select-update (has_team team) (reinstalled token version) w.db.workspaces (λ x. refl)
        ∙ ap (map (reinstalled token version)) e;
    holds_token = refl;
    holds_version = refl;
    installed = refl;
    others =
        select-not-update (has_team team) (reinstalled token version) w.db.workspaces (λ x. refl);
    tables = refl;
  }
  upserted w (s ∷ s' ∷ rows) e = refl

  pub upsert_on_install-Upserts :
      (w : World)
      → let (r, v) = Workspaces.upsert_on_install team token version w in
        Upserts team token version w r v
  unfolding Workspaces.upsert_on_install Workspaces.get exec
  upsert_on_install-Upserts w = upserted w _ refl
