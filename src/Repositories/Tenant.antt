-- ===== src/Repositories/Tenant.antt =====
-- app/repositories/base.py: TenantScopedRepository, over any table whose rows have a team_id.
use hound_bot.Base.{String, Bool, ◌&&◌, Option, List, ◌==◌, string_eq, select}
use hound_bot.Models.{Db}
use hound_bot.Exec.{
  value_error, Exec, pure, query, scalar_one_or_none, ◌>>=◌, ◌>>◌, modify, raise_if,
}

abbrev pub no_tenant : String
no_tenant = "team_id is required — a repository with no tenant scope is a bug, not a feature"

-- `__init__`
unfoldable pub open_repository : String → Exec Unit
open_repository team_id = raise_if (team_id == "") (value_error no_tenant)

module _ {Row : Type 0} (rows : Db → List Row) (team_of : Row → String) where
  -- `select(self.model).filter_by(team_id=self._team_id, **filters)`
  unfoldable pub filter_by : String → (Row → Bool) → Db → List Row
  filter_by team_id filters db = select (λ r. team_of r == team_id && filters r) (rows db)

  unfoldable pub get : String → (Row → Bool) → Exec (Option Row)
  get team_id filters = do result ← query (filter_by team_id filters); scalar_one_or_none result

  unfoldable pub list : String → (Row → Bool) → Exec (List Row)
  list team_id filters = query (filter_by team_id filters)

-- `self.model(team_id=self._team_id, **fields)`, then `session.add` and a flush.
unfoldable pub add : {Row : Type 0} → (Row → Db → Db) → Row → Exec Row
add insert row = do modify (insert row); pure row
