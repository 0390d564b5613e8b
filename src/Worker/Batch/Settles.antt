-- ===== src/Worker/Batch/Settles.antt =====
-- Every job of a batch is settled, whatever its handler does.
use hound_bot.Worker.Batch.Refused.{OrRefused, asked, OrRefused-statement, OrRefused-bind}
use hound_bot.Base.{
  ℕ, ◌≡◌, refl, subst, String, true, false, Option, none, some, List, [], ◌∷◌, nat_eq, contains,
  update, select, All, Bool-cases, ◌⊎◌, inl, inr, arith, if◌then◌else◌,
}
use hound_bot.Models.{Db, InboundJob, JobStatus, done, failed, Uuid}
use hound_bot.Exec.{commit, ◌>>◌, Result, ok, err, message, World, continue, Exec, for_each, exec}
use hound_bot.Exec.Laws.{Leaves, on_db}
use hound_bot.Repositories.Jobs
use hound_bot.Repositories.Jobs.{is_row, complete, fail, job_id}
use hound_bot.Worker.Batch.{statement, set_failed, set_done, settle, run_handler, process_job}

abbrev pub jobs_of : Db → List InboundJob
jobs_of db = db.jobs

-- A job whose processing is over.
abbrev pub IsOver : JobStatus → Type 0
IsOver s = (s ≡ done) ⊎ (s ≡ failed)

-- How a settled job's row differs from what it was: completed, or failed with an error.
abbrev pub Settles : Uuid → List InboundJob → List InboundJob → Type 0
Settles id js js' =
    ((t : ℕ) × (js' ≡ update (is_row id) (complete t) js))
    ⊎ ((t : ℕ) × (e : String) × (js' ≡ update (is_row id) (fail t e) js))

update_of_empty :
    (id : Uuid) (f : InboundJob → InboundJob) (js : List InboundJob)
    → select (is_row id) js ≡ []
    → js ≡ update (is_row id) f js
update_of_empty id f [] h = refl
update_of_empty id f (j ∷ js) h = ground (arith, update_of_empty id f js)

mark_failed-ok : (id : Uuid) (e : String) (w : World) → (Jobs.mark_failed id e w).0 ≡ ok tt
unfolding Jobs.mark_failed exec
mark_failed-ok id e w = ground arith

mark_failed-jobs :
    (id : Uuid) (e : String) (w : World)
    → (Jobs.mark_failed id e w).1.db.jobs
      ≡ update (is_row id) (fail (w.outside.clock w.calls) e) w.db.jobs
unfolding Jobs.mark_failed exec
mark_failed-jobs id e w =
    ground (arith, update_of_empty id (fail (w.outside.clock w.calls) e) w.db.jobs)

mark_done-ok : (id : Uuid) (w : World) → (Jobs.mark_done id w).0 ≡ ok tt
unfolding Jobs.mark_done exec
mark_done-ok id w = ground arith

mark_done-jobs :
    (id : Uuid) (w : World)
    → (Jobs.mark_done id w).1.db.jobs
      ≡ update (is_row id) (complete (w.outside.clock w.calls)) w.db.jobs
unfolding Jobs.mark_done exec
mark_done-jobs id w =
    ground (arith, update_of_empty id (complete (w.outside.clock w.calls)) w.db.jobs)

abbrev SettlesFrom : Uuid → List InboundJob → Unit {0} → World → Type 0
SettlesFrom id js _ v = Settles id js v.db.jobs

set_failed-Settles :
    (id : Uuid) (e : String) (w : World)
    → let (r, v) = set_failed id e w in OrRefused (SettlesFrom id w.db.jobs) r v
unfolding set_failed
set_failed-Settles id e w =
    OrRefused-statement (SettlesFrom id w.db.jobs) (Jobs.mark_failed id e) w
      (rw (mark_failed-ok id e (asked w)) (inr (_, e, mark_failed-jobs id e (asked w))))

-- The `try` block after the handler has returned or raised, and the `except`.
outcome-Settles :
    (id : Uuid) (r : Result (Unit {0})) (v : World)
    → let out = continue r (λ _. set_done id) v in
      let (r', u) = settle id out.0 out.1 in OrRefused (SettlesFrom id v.db.jobs) r' u
unfolding settle set_done statement exec
outcome-Settles id (ok _) v = by_answer (v.outside.database v.calls)
  where
    by_answer :
        (r : Result (Unit {0}))
        → let out = continue r (λ _. Jobs.mark_done id) (asked v) in
          let (r', u) = settle id out.0 out.1 in OrRefused (SettlesFrom id v.db.jobs) r' u
    by_answer (ok _) = rw (mark_done-ok id (asked v)) (inl (_, mark_done-jobs id (asked v)))
    by_answer (err e) = set_failed-Settles id (message e) (asked v)
outcome-Settles id (err e) v = set_failed-Settles id (message e) v

run_handler-Settles :
    (j : InboundJob) (o : Option (InboundJob → Exec Unit))
    → ((h : InboundJob → Exec Unit) → o ≡ some h → Leaves (on_db jobs_of) (h j))
    → (w : World) → let (r, v) = run_handler j o w in OrRefused (SettlesFrom j.id w.db.jobs) r v
unfolding run_handler exec
run_handler-Settles j none leaves w = set_failed-Settles j.id _ w
run_handler-Settles j (some h) leaves w =
    let v = (h j w).1 in
    let out = continue (h j w).0 (λ (_ : Unit {0}). set_done j.id) v in
    let (r, u) = settle j.id out.0 out.1 in
    subst (λ js. OrRefused (SettlesFrom j.id js) r u) ((leaves h refl).at w)
      (outcome-Settles j.id (h j w).0 v)

-- The rows with one of the ids are settled.
abbrev pub AllOver : List Uuid → List InboundJob → Type 0
AllOver ids = All (λ j. (contains ids j.id ≡ false) ⊎ IsOver j.status)

update-AllOver :
    (id : Uuid) (ids : List Uuid) (f : InboundJob → InboundJob)
    → ((j : InboundJob) → IsOver (f j).status)
    → (js : List InboundJob) → AllOver ids js
    → AllOver (id ∷ ids) (update (is_row id) f js)
update-AllOver id ids f over [] h = tt
update-AllOver id ids f over (j ∷ js) h =
    (head (Bool-cases (is_row id j)) h.0, update-AllOver id ids f over js h.1)
  where
    other :
        is_row id j ≡ false
        → (contains ids j.id ≡ false) ⊎ IsOver j.status
        → (contains (id ∷ ids) j.id ≡ false) ⊎ IsOver j.status
    other e (inl n) = inl (rw (e, n))
    other e (inr o) = inr o

    head :
        (is_row id j ≡ true) ⊎ (is_row id j ≡ false)
        → (contains ids j.id ≡ false) ⊎ IsOver j.status
        → (contains (id ∷ ids) (if is_row id j then f j else j).id ≡ false)
          ⊎ IsOver (if is_row id j then f j else j).status
    head (inl e) h0 = rw e (inr (over j))
    head (inr e) h0 = rw e (other e h0)

Settles-AllOver :
    (id : Uuid) (ids : List Uuid) (js js' : List InboundJob)
    → Settles id js js'
    → AllOver ids js
    → AllOver (id ∷ ids) js'
Settles-AllOver id ids js js' (inl (t, e)) h =
    rw e (update-AllOver id ids (complete t) (λ _. inl refl) js h)
Settles-AllOver id ids js js' (inr (t, m, e)) h =
    rw e (update-AllOver id ids (fail t m) (λ _. inr refl) js h)

-- The ids of the jobs, the last one first.
abbrev pub ids_onto : List InboundJob → List Uuid → List Uuid
ids_onto [] ids = ids
ids_onto (j ∷ js) ids = ids_onto js (j.id ∷ ids)

pub none_over : (js : List InboundJob) → AllOver [] js
none_over [] = tt
none_over (j ∷ js) = (inl refl, none_over js)

module _ (handlers : String → Option (InboundJob → Exec Unit)) where
  -- What is assumed of the handlers: none of them writes to the queue.
  abbrev pub LeaveJobs : Type 0
  LeaveJobs =
      (name : String) (h : InboundJob → Exec Unit)
      → handlers name ≡ some h
      → (j : InboundJob) → Leaves (on_db jobs_of) (h j)

  abbrev pub Committed : Uuid → List InboundJob → Unit {0} → World → Type 0
  Committed id js _ v = (v.saved ≡ v.db) × Settles id js v.db.jobs

  committed :
      (id : Uuid) (js : List InboundJob) (v : World)
      → Settles id js v.db.jobs
      → let (r, u) = commit (asked v) in OrRefused (Committed id js) r u
  unfolding exec
  committed id js v h = (refl, h)

  pub process_job-Settles :
      LeaveJobs
      → (j : InboundJob) (w : World)
      → let (r, v) = process_job handlers j w in OrRefused (Committed j.id w.db.jobs) r v
  unfolding process_job ◌>>◌
  process_job-Settles leaves j w =
      OrRefused-bind (SettlesFrom j.id w.db.jobs) (Committed j.id w.db.jobs)
        (run_handler j (handlers j.event_type)) _ w
        (run_handler-Settles j (handlers j.event_type) (λ h e. leaves j.event_type h e j) w)
        (λ _ v h.
          OrRefused-statement (Committed j.id w.db.jobs) commit v (committed j.id w.db.jobs v h))

  -- The jobs are over and, unless there is none, all is committed.
  abbrev pub AllSettled : List InboundJob → List Uuid → World → Unit {0} → World → Type 0
  AllSettled [] ids w _ v = AllOver ids v.db.jobs × (v ≡ w)
  AllSettled (j ∷ js) ids w _ v = AllOver (ids_onto js (j.id ∷ ids)) v.db.jobs × (v.saved ≡ v.db)

  AllSettled-cons :
      (js : List InboundJob) (j : InboundJob) (ids : List Uuid) (w u : World) (x : Unit {0})
      (v : World)
      → u.saved ≡ u.db
      → AllSettled js (j.id ∷ ids) u x v
      → AllSettled (j ∷ js) ids w x v
  AllSettled-cons [] j ids w u x v e h = (h.0, rw h.1 e)
  AllSettled-cons (i ∷ js) j ids w u x v e h = h

  rest :
      (js : List InboundJob) (j : InboundJob) (ids : List Uuid) (w u : World)
      (r : Result (Unit {0})) (v : World)
      → u.saved ≡ u.db
      → OrRefused (AllSettled js (j.id ∷ ids) u) r v
      → OrRefused (AllSettled (j ∷ js) ids w) r v
  rest js j ids w u (ok x) v e p = AllSettled-cons js j ids w u x v e p
  rest js j ids w u (err x) v e p = p

  pub process_all :
      LeaveJobs
      → (batch : List InboundJob) (ids : List Uuid) (w : World) → AllOver ids w.db.jobs
      → let (r, v) = for_each batch (process_job handlers) w in
        OrRefused (AllSettled batch ids w) r v
  unfolding for_each exec
  process_all leaves [] ids w h = (h, refl)
  process_all leaves (j ∷ js) ids w h =
      OrRefused-bind (Committed j.id w.db.jobs) (AllSettled (j ∷ js) ids w) (process_job handlers j)
        (λ _. for_each js (process_job handlers)) w (process_job-Settles leaves j w)
        (λ _ u settled. rest js j ids w u _ _ settled.0 (
          process_all leaves js (j.id ∷ ids) u
            (Settles-AllOver j.id ids w.db.jobs u.db.jobs settled.1 h)))
