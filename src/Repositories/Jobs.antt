-- ===== src/Repositories/Jobs.antt =====
-- app/repositories/inbound_job_repository.py
pub mod Claims
use hound_bot.Base.{
  ℕ, String, Bool, not, ◌&&◌, none, some, List, [], ◌∷◌, ◌++◌, map, ◌==◌, contains, nat_eq, take,
  select, update,
}
use hound_bot.Base.Sort.{order_by}
use hound_bot.Time.{DateTime}
use hound_bot.Models.{Db, InboundJob, Payload, pending, claimed, done, failed, Uuid, job_status_eq}
use hound_bot.Repositories.Constraints.{references_workspace}
use hound_bot.Exec.{Exec, pure, query, ask, ◌>>=◌, ◌>>◌, modify, now, fresh_uuid}

abbrev pub insert : InboundJob → Db → Db
insert j db = record db { jobs = db.jobs ++ j ∷ [] }

abbrev pub write : (InboundJob → Bool) → (InboundJob → InboundJob) → Db → Db
write rows f db = record db { jobs = update rows f db.jobs }

abbrev pub new_job : Uuid → String → String → Payload → DateTime → InboundJob
new_job id team_id event_type payload created_at = record {
  id = id;
  team_id = team_id;
  event_type = event_type;
  payload = payload;
  status = pending;
  created_at = created_at;
  claimed_at = none;
  completed_at = none;
  error = none;
}

unfoldable pub enqueue : String → String → Payload → Exec InboundJob
unfolding references_workspace
enqueue team_id event_type payload = do
  t ← now
  id ← fresh_uuid
  references_workspace team_id
  modify (insert (new_job id team_id event_type payload t))
  pure (new_job id team_id event_type payload t)

-- `status == STATUS_PENDING`, and not locked by another transaction (SKIP LOCKED).
abbrev pub is_claimable : List Uuid → InboundJob → Bool
is_claimable locked j = j.status == pending && not (contains locked j.id)

unfoldable pub claimable_batch : ℕ → List Uuid → List InboundJob → List InboundJob
claimable_batch limit locked jobs =
    take limit (order_by (λ (j : InboundJob). j.created_at) (select (is_claimable locked) jobs))

abbrev pub job_id : InboundJob → Uuid
job_id j = j.id

abbrev pub in_batch : List InboundJob → InboundJob → Bool
in_batch batch j = contains (map job_id batch) j.id

abbrev pub claim : DateTime → InboundJob → InboundJob
claim t j = record j { claimed_at = some t; status = claimed }

-- The rows come back as the loop leaves them, claimed.
unfoldable pub claim_batch : ℕ → Exec (List InboundJob)
unfolding claimable_batch
claim_batch limit = do
  locked ← ask (λ o n. o.locked_jobs n)
  jobs ← query (λ db. claimable_batch limit locked db.jobs)
  t ← now
  modify (write (in_batch jobs) (claim t))
  pure (map (claim t) jobs)

abbrev pub is_row : Uuid → InboundJob → Bool
is_row id j = j.id == id

abbrev pub complete : DateTime → InboundJob → InboundJob
complete t j = record j { status = done; completed_at = some t }

abbrev pub fail : DateTime → String → InboundJob → InboundJob
fail t error j = record j { status = failed; completed_at = some t; error = some error }

-- `session.get(InboundJob, job_id)`, a look-up by primary key
abbrev pub find : Uuid → Db → List InboundJob
find id db = select (is_row id) db.jobs

unfoldable pub write_done : Uuid → List InboundJob → Exec Unit
write_done id [] = pure tt
write_done id (_ ∷ _) = do t ← now; modify (write (is_row id) (complete t))

unfoldable pub mark_done : Uuid → Exec Unit
unfolding write_done
mark_done id = do job ← query (find id); write_done id job

unfoldable pub write_failed : Uuid → String → List InboundJob → Exec Unit
write_failed id error [] = pure tt
write_failed id error (_ ∷ _) = do t ← now; modify (write (is_row id) (fail t error))

unfoldable pub mark_failed : Uuid → String → Exec Unit
unfolding write_failed
mark_failed id error = do job ← query (find id); write_failed id error job
