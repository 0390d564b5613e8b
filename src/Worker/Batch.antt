-- ===== src/Worker/Batch.antt =====
-- app/worker.py: `process_one_batch`, over any table of handlers.
pub mod Refused
pub mod Settles
pub mod Outcome
use hound_bot.Base.{ℕ, String, ◌<>◌, Option, none, some, length}
use hound_bot.Models.{InboundJob, Uuid}
use hound_bot.Exec.{
  Result, ok, err, message, Exec, pure, ◌>>=◌, ◌>>◌, commit, attempt, for_each, ask, lift,
}
use hound_bot.Repositories.Jobs

-- A statement of the batch's own session: the database, or a session that an earlier exception left
-- unusable, may refuse it.
unfoldable pub statement : Exec Unit
statement = do answer ← ask (λ o n. o.database n); lift answer

unfoldable pub set_failed : Uuid → String → Exec Unit
unfolding statement
set_failed id error = do statement; Jobs.mark_failed id error

unfoldable pub set_done : Uuid → Exec Unit
unfolding statement
set_done id = do statement; Jobs.mark_done id

-- `except Exception`
unfoldable pub settle : Uuid → Result (Unit {0}) → Exec Unit
unfolding set_failed
settle id (ok _) = pure tt
settle id (err e) = set_failed id (message e)

unfoldable pub run_handler : InboundJob → Option (InboundJob → Exec Unit) → Exec Unit
unfolding settle set_done set_failed
run_handler job none =
    set_failed job.id ("no handler registered for event_type '" <> job.event_type <> "'")
run_handler job (some handler) = do
  outcome ← attempt (handler job >> set_done job.id)
  settle job.id outcome

module _ (handlers : String → Option (InboundJob → Exec Unit)) where
  unfoldable pub process_job : InboundJob → Exec Unit
  unfolding statement
  process_job job = do run_handler job (handlers job.event_type); statement; commit

  unfoldable pub process_one_batch : Exec ℕ
  unfolding statement
  process_one_batch = do
    statement
    jobs ← Jobs.claim_batch 10
    for_each jobs process_job
    pure (length jobs)
