-- ===== src/Repositories/Constraints.antt =====
-- What the database checks of a row that is flushed: the foreign key of app/models/task.py and
-- app/models/inbound_job.py to the workspaces, and the 32 bits of an Integer column.
use hound_bot.Base.{ℕ, String, Bool, true, not, Option, none, some, map, contains, string_eq, ltb}
use hound_bot.Models.{Db, Workspace}
use hound_bot.Exec.{Error, external, Exec, ◌>>=◌, query, raise_if}

abbrev pub integrity_error : Error
integrity_error = external "IntegrityError"

abbrev pub data_error : Error
data_error = external "DataError"

abbrev workspace_team : Workspace → String
workspace_team s = s.team_id

abbrev pub has_workspace : String → Db → Bool
has_workspace team_id db = contains (map workspace_team db.workspaces) team_id

-- `ForeignKey("workspaces.team_id")`
unfoldable pub references_workspace : String → Exec Unit
references_workspace team_id = do
  found ← query (has_workspace team_id)
  raise_if (not found) integrity_error

-- The values of a nullable column of type INTEGER; none of them is negative.
abbrev pub fits_integer : Option ℕ → Bool
fits_integer none = true
fits_integer (some n) = ltb n 2_147_483_648
