-- ===== src/Repositories/Tasks.antt =====
-- app/repositories/task_repository.py: the tenant-scoped repository at the tasks table.
use hound_bot.Base.{String, Bool, not, Option, List, [], ◌∷◌, ◌++◌, ◌==◌, nat_eq, update}
use hound_bot.Models.{Db, Task, Uuid}
use hound_bot.Exec.{Exec, ◌>>◌, raise_if}
use hound_bot.Repositories.Constraints.{fits_integer, data_error, references_workspace}
use hound_bot.Repositories.Tenant

abbrev pub team_of : Task → String
team_of t = t.team_id

abbrev pub has_id : Uuid → Task → Bool
has_id id t = t.id == id

-- `TaskRepository(session, team_id).get(id=...)`
unfoldable pub get : String → Uuid → Exec (Option Task)
unfolding Tenant.get
get team_id id = Tenant.get (λ db. db.tasks) team_of team_id (has_id id)

unfoldable pub list : String → (Task → Bool) → Exec (List Task)
unfolding Tenant.list
list team_id filters = Tenant.list (λ db. db.tasks) team_of team_id filters

abbrev pub insert : Task → Db → Db
insert t db = record db { tasks = db.tasks ++ t ∷ [] }

unfoldable pub add : Task → Exec Task
unfolding references_workspace Tenant.add
add t = do
  raise_if (not (fits_integer t.recurrence_interval_days)) data_error
  references_workspace t.team_id
  Tenant.add insert t

-- An assignment to attributes of the row, and the flush.
abbrev pub write : Uuid → (Task → Task) → Db → Db
write id f db = record db { tasks = update (has_id id) f db.tasks }
