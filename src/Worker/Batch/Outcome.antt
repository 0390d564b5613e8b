-- ===== src/Worker/Batch/Outcome.antt =====
-- The batch as a whole.
use hound_bot.Base.{
  ℕ, suc, ◌≡◌, refl, ap, String, false, Option, List, [], ◌∷◌, map, nat_eq, contains, All,
  All-implies, length, ◌⊎◌, inl, inr, arith,
}
use hound_bot.Time.{DateTime}
use hound_bot.Models.{InboundJob, Uuid}
use hound_bot.Exec.{pure, ◌>>=◌, ◌>>◌, World, Exec, for_each, exec}
use hound_bot.Repositories.Jobs.{claim, claim_batch, job_id}
use hound_bot.Repositories.Jobs.Claims.{batch_of, claim_batch-eq}
use hound_bot.Worker.Batch.{process_job, process_one_batch}
use hound_bot.Worker.Batch.Refused.{OrRefused, OrRefused-statement, OrRefused-bind, asked}
use hound_bot.Worker.Batch.Settles.{LeaveJobs, IsOver, ids_onto, none_over, process_all, AllSettled}

contains-ids_onto :
    (t : DateTime) (js : List InboundJob) (ids : List Uuid) (x : Uuid)
    → contains (ids_onto (map (claim t) js) ids) x ≡ false
    → (contains (map job_id js) x ≡ false) × (contains ids x ≡ false)
contains-ids_onto t [] ids x h = (refl, h)
contains-ids_onto t (j ∷ js) ids x h = ground (arith, contains-ids_onto t js (j.id ∷ ids) x h)

length-map-claim : (t : DateTime) (js : List InboundJob) → length (map (claim t) js) ≡ length js
length-map-claim t [] = refl
length-map-claim t (j ∷ js) = ap suc (length-map-claim t js)

IsOver-in_batch :
    (t : DateTime) (js : List InboundJob) (j : InboundJob)
    → (contains (ids_onto (map (claim t) js) []) j.id ≡ false) ⊎ IsOver j.status
    → (contains (map job_id js) j.id ≡ false) ⊎ IsOver j.status
IsOver-in_batch t js j (inl n) = inl (contains-ids_onto t js [] j.id n).0
IsOver-in_batch t js j (inr o) = inr o

-- What a batch that returns leaves: the jobs that it claimed are over, and all is committed unless
-- it claimed none.
abbrev pub BatchSettled : World → ℕ → World → Type 0
BatchSettled w n v =
    (n ≡ length (batch_of 10 w))
    × All (λ j. (contains (map job_id (batch_of 10 w)) j.id ≡ false) ⊎ IsOver j.status) v.db.jobs
    × ((batch_of 10 w ≡ []) ⊎ (v.saved ≡ v.db))

module _ (handlers : String → Option (InboundJob → Exec Unit)) (leaves : LeaveJobs handlers) where
  settled :
      (t : DateTime) (js : List InboundJob) (c : World) (x : Unit {0}) (v : World)
      → AllSettled handlers (map (claim t) js) [] c x v
      → All (λ j. (contains (map job_id js) j.id ≡ false) ⊎ IsOver j.status) v.db.jobs
        × ((js ≡ []) ⊎ (v.saved ≡ v.db))
  settled t [] c x v h = (All-implies _ _ _ (λ j. IsOver-in_batch t [] j) h.0, inl refl)
  settled t (j ∷ js) c x v h = (All-implies _ _ _ (λ i. IsOver-in_batch t (j ∷ js) i) h.0, inr h.1)

  abbrev process : List InboundJob → Exec ℕ
  process jobs = do for_each jobs (process_job handlers); pure (length jobs)

  claimed :
      (u : World) → let (r, v) = (claim_batch 10 >>= process) u in OrRefused (BatchSettled u) r v
  unfolding exec
  claimed u =
      let t = u.outside.clock (suc u.calls) in
      let js = batch_of 10 u in
      let c = (claim_batch 10 u).1 in
      rw (claim_batch-eq 10 u) (
        OrRefused-bind (AllSettled handlers (map (claim t) js) [] c) (BatchSettled u)
          (for_each (map (claim t) js) (process_job handlers))
          (λ _. pure (length (map (claim t) js))) c
          (process_all handlers leaves (map (claim t) js) [] c (none_over c.db.jobs))
          (λ x v h. let p = settled t js c x v h in (length-map-claim t js, p.0, p.1)))

  -- A batch raises only an exception with which the database refused a statement of the batch
  -- itself, as its last call, whatever its handlers raise; else it returns how many jobs it
  -- claimed, from the tables as they were when it claimed them. After it no job that it claimed is
  -- left pending or claimed: each is done or failed. Unless it claimed none, all that the session
  -- wrote is committed. The handlers are assumed not to write to the queue themselves.
  pub process_one_batch-settles :
      (w : World)
      → let (r, v) = process_one_batch handlers w in OrRefused (BatchSettled (asked w)) r v
  unfolding process_one_batch ◌>>◌
  process_one_batch-settles w =
      OrRefused-statement (BatchSettled (asked w)) (claim_batch 10 >>= process) w
        (claimed (asked w))
