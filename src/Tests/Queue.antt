-- ===== src/Tests/Queue.antt =====
-- The queue of jobs, the worker and the scheduler at the concrete world.
use hound_bot.Base.{
  ℕ, suc, ◌≡◌, refl, ◌≤◌, false, none, some, List, [], ◌∷◌, map, contains, nat_eq, string_eq,
  select, take, update, length, All,
}
use hound_bot.Base.Sort.{IsOrdered}
use mathlib.Core.List.{Perm}
use hound_bot.Models.{InboundJob, done_status}
use hound_bot.Exec.{ok, Exec}
use hound_bot.Repositories.Jobs.{job_id, is_claimable, claim, claim_batch}
use hound_bot.Repositories.Jobs.Claims.{batch_of, claim_batch-oldest, claim_batch-disjoint}
use hound_bot.Repositories.Reminders
use hound_bot.Worker.Batch.{process_one_batch}
use hound_bot.Core.Security.{TokenCipher, KeySettings, token_cipher_from_settings}
use hound_bot.Core.Security.Rotation.{first_settings}
use hound_bot.Worker.Handlers.{Settings, handler_for}
use hound_bot.Worker.Poll.{Process, completes, run_worker_loop}
use hound_bot.Worker.Poll.Liveness.{RunsWith, run_worker_loop-alive}
use hound_bot.Scheduler.{process_reminder}
use hound_bot.Scheduler.Delivery.{Ended, sent_at, process_reminder-Ended, process_reminder-silent}
use hound_bot.Tests.Setting.{world, cipher, reminder, task, monday}

abbrev settings : Settings
settings = record {
  google_client_id = some "id";
  google_client_secret = some "secret";
  groq_api_key = some "key";
}

abbrev batch : TokenCipher → Exec ℕ
batch c = process_one_batch (handler_for settings c)

claim_batch-oldest_example :
    (queue : List InboundJob) × Perm queue
      (select (is_claimable (world.outside.locked_jobs world.calls)) world.db.jobs)
    × IsOrdered (λ (j : InboundJob). j.created_at) queue
    × ((claim_batch 2 world).0
        ≡ ok (map (claim (world.outside.clock (suc world.calls))) (take 2 queue)))
    × (length (take 2 queue) ≤ 2)
claim_batch-oldest_example = claim_batch-oldest 2 world

claim_batch-disjoint_example :
    let (r, v) = claim_batch 2 world in
    (second : List InboundJob) × (r
      ≡ ok (map (claim (world.outside.clock (suc world.calls))) (batch_of 2 world)))
    × ((claim_batch 2 v).0 ≡ ok second)
    × All (λ j. contains (map job_id (batch_of 2 world)) j.id ≡ false) second
claim_batch-disjoint_example = claim_batch-disjoint 2 2 world

abbrev process : Process
process = record { world = world; last_poll_completed_utc = none }

abbrev keys : KeySettings
keys = first_settings "k1" 1

run_worker_loop-alive_example :
    RunsWith monday process
      (completes ∷ completes ∷ [])
      (token_cipher_from_settings world.outside.is_fernet_key keys)
      (run_worker_loop keys batch (completes ∷ completes ∷ []) process)
run_worker_loop-alive_example =
    run_worker_loop-alive keys batch (completes ∷ completes ∷ []) process monday

process_reminder-Ended_example :
    let (q, v) = process_reminder cipher (reminder 11 1) world in Ended 11 world q v
process_reminder-Ended_example = process_reminder-Ended cipher (reminder 11 1) world

process_reminder-silent_example :
    let (q, v) = process_reminder cipher (reminder 12 2) world in
    (q ≡ ok tt)
    × (v.sent ≡ world.sent)
    × (v.saved ≡ v.db)
    × (v.db.reminders
        ≡ update
            (Reminders.is_row 12)
            (sent_at (world.outside.clock world.calls))
            world.db.reminders)
unfolding nat_eq
process_reminder-silent_example =
    process_reminder-silent cipher (reminder 12 2) world (task 2 done_status none) refl refl
