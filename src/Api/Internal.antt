-- ===== src/Api/Internal.antt =====
-- app/api/routes_internal.py: the tick of the cron job; app/main.py: the health endpoint.
use hound_bot.Base.{ℕ, String, Bool, not, ◌&&◌, Option, ◌==◌, string_eq, if◌then◌else◌}
use hound_bot.Exec.{http_exception, Exec, pure, raise, lift, ◌>>=◌, ◌>>◌, commit, raise_if, now}
use hound_bot.Time.{DateTime}
use hound_bot.Core.Security.{KeySettings, compare_digest, truthy}
use hound_bot.Api.Http.{cipher_of}
use hound_bot.Scheduler.{process_due_reminders}
use hound_bot.Repositories.ProcessedEvents.{sweep_old_processed_events}
use hound_bot.Worker.Poll.{worker_is_alive}

abbrev pub require_secret : Bool → Exec Unit
require_secret valid = if valid then pure tt else raise (http_exception 401 "invalid cron secret")

-- The response is the number of reminders sent and of events deleted.
unfoldable pub internal_tick : KeySettings → String → String → Exec (ℕ × ℕ)
unfolding cipher_of
internal_tick settings cron_shared_secret x_cron_secret = do
  raise_if (cron_shared_secret == "") (http_exception 500 "CRON_SHARED_SECRET is not configured")
  valid ← lift (compare_digest x_cron_secret cron_shared_secret)
  require_secret valid
  c ← cipher_of settings
  sent ← process_due_reminders c
  deleted ← sweep_old_processed_events
  commit
  pure (sent, deleted)

-- The status code, the status and what is said of the worker.
unfoldable pub health : Option String → Option DateTime → Exec (ℕ × String × String)
health encryption_key last_poll_completed_utc = do
  t ← now
  pure (
      if truthy encryption_key && not (worker_is_alive t last_poll_completed_utc)
      then (503, "degraded", "not polling")
      else (200, "ok", if truthy encryption_key then "alive" else "disabled"))
