-- ===== src/Repositories/Jobs/Claims.antt =====
-- Which jobs `claim_batch` takes, in which order, and that none is taken twice.
use mathlib.Core.List.{Perm}
use hound_bot.Base.{
  ℕ, suc, ◌≤◌, ◌≡◌, refl, true, false, List, [], ◌∷◌, map, nat_eq, contains, take, take-All, select,
  update, All, length, length-take-le, Bool-cases, ◌⊎◌, inl, inr, arith, if◌then◌else◌,
}
use hound_bot.Base.Sort.{order_by, IsOrdered, order_by-perm, order_by-IsOrdered, All-order_by}
use hound_bot.Time.{DateTime}
use hound_bot.Models.{InboundJob, claimed, job_status_eq, Uuid}
use hound_bot.Exec.{ok, World, exec}
use hound_bot.Repositories.Jobs.{
  is_claimable, claimable_batch, job_id, in_batch, claim, claim_batch,
}

abbrev created : InboundJob → ℕ
created j = j.created_at

-- The batch of a call at the world `w`, before the rows are written.
abbrev pub batch_of : ℕ → World → List InboundJob
batch_of limit w = claimable_batch limit (w.outside.locked_jobs w.calls) w.db.jobs

pub claim_batch-eq :
    (limit : ℕ) (w : World)
    → (claim_batch limit w).0 ≡ ok (map (claim (w.outside.clock (suc w.calls))) (batch_of limit w))
unfolding claim_batch exec
claim_batch-eq limit w = refl

pub jobs-claim_batch :
    (limit : ℕ) (w : World)
    → (claim_batch limit w).1.db.jobs
      ≡ update (in_batch (batch_of limit w)) (claim (w.outside.clock (suc w.calls))) w.db.jobs
unfolding claim_batch exec
jobs-claim_batch limit w = refl

-- The call succeeds with the first `limit` of the pending jobs that no other transaction has
-- locked, in the order of their creation, as claimed rows; at most `limit` of them.
pub claim_batch-oldest :
    (limit : ℕ) (w : World)
    → (queue : List InboundJob) × Perm queue
        (select (is_claimable (w.outside.locked_jobs w.calls)) w.db.jobs)
      × IsOrdered (λ (j : InboundJob). j.created_at) queue
      × ((claim_batch limit w).0
          ≡ ok (map (claim (w.outside.clock (suc w.calls))) (take limit queue)))
      × (length (take limit queue) ≤ limit)
unfolding claimable_batch
claim_batch-oldest limit w =
    let waiting = select (is_claimable (w.outside.locked_jobs w.calls)) w.db.jobs in
    (
      order_by created waiting,
      order_by-perm created waiting,
      order_by-IsOrdered created waiting,
      claim_batch-eq limit w,
      length-take-le limit (order_by created waiting),
    )

-- A row with one of the ids is claimed.
abbrev pub IsTaken : List Uuid → InboundJob → Type 0
IsTaken ids j = (contains ids j.id ≡ false) ⊎ (j.status ≡ claimed)

update-IsTaken :
    (ids : List Uuid) (t : DateTime) (js : List InboundJob)
    → All (IsTaken ids) (update (λ j. contains ids j.id) (claim t) js)
update-IsTaken ids t [] = tt
update-IsTaken ids t (j ∷ js) = (head (Bool-cases (contains ids j.id)), update-IsTaken ids t js)
  where
    head :
        (contains ids j.id ≡ true) ⊎ (contains ids j.id ≡ false)
        → IsTaken ids (if contains ids j.id then claim t j else j)
    head (inl e) = rw e (inr refl)
    head (inr e) = rw e (inl e)

-- A row that is still claimable has none of the ids.
IsTaken-select :
    (ids locked : List Uuid) (js : List InboundJob)
    → All (IsTaken ids) js
    → All (λ j. contains ids j.id ≡ false) (select (is_claimable locked) js)
IsTaken-select ids locked [] h = tt
IsTaken-select ids locked (j ∷ js) h =
    keep (Bool-cases (is_claimable locked j)) (IsTaken-select ids locked js h.1)
  where
    fresh : IsTaken ids j → is_claimable locked j ≡ true → contains ids j.id ≡ false
    fresh (inl e) c = e
    fresh (inr e) c = ground arith

    keep :
        (is_claimable locked j ≡ true) ⊎ (is_claimable locked j ≡ false)
        → All (λ j. contains ids j.id ≡ false) (select (is_claimable locked) js)
        → All (λ j. contains ids j.id ≡ false) (select (is_claimable locked) (j ∷ js))
    keep (inl e) rest = rw e (fresh h.0 e, rest)
    keep (inr e) rest = rw e rest

All-map-claim :
    (ids : List Uuid) (t : DateTime) (js : List InboundJob)
    → All (λ j. contains ids j.id ≡ false) js
    → All (λ j. contains ids j.id ≡ false) (map (claim t) js)
All-map-claim ids t [] h = tt
All-map-claim ids t (j ∷ js) h = (h.0, All-map-claim ids t js h.1)

fresh_batch :
    (m : ℕ) (ids locked : List Uuid) (js : List InboundJob)
    → All (IsTaken ids) js
    → All (λ j. contains ids j.id ≡ false) (claimable_batch m locked js)
unfolding claimable_batch
fresh_batch m ids locked js h =
    take-All _ m _ (All-order_by created _ _ (IsTaken-select ids locked js h))

-- Of two calls, one after the other, the second takes no job that the first took.
pub claim_batch-disjoint :
    (n m : ℕ) (w : World)
    → let (r, v) = claim_batch n w in
      (second : List InboundJob) × (r
        ≡ ok (map (claim (w.outside.clock (suc w.calls))) (batch_of n w)))
      × ((claim_batch m v).0 ≡ ok second)
      × All (λ j. contains (map job_id (batch_of n w)) j.id ≡ false) second
claim_batch-disjoint n m w =
    let v = (claim_batch n w).1 in
    let ids = map job_id (batch_of n w) in
    let t = v.outside.clock (suc v.calls) in
    (
      map (claim t) (batch_of m v),
      claim_batch-eq n w,
      claim_batch-eq m v,
      All-map-claim ids t (batch_of m v) (
          fresh_batch m ids (v.outside.locked_jobs v.calls) v.db.jobs (
            rw (jobs-claim_batch n w)
              (update-IsTaken ids (w.outside.clock (suc w.calls)) w.db.jobs))),
    )
