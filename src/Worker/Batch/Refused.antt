-- ===== src/Worker/Batch/Refused.antt =====
-- How a batch ends, which the database may stop at each of its statements: app/worker.py,
-- `process_one_batch`.
use hound_bot.Base.{ℕ, suc, ◌≡◌, refl}
use hound_bot.Exec.{Error, Result, ok, err, World, Exec, continue, ◌>>=◌, ◌>>◌, exec}
use hound_bot.Worker.Batch.{statement}

-- The last call of the world was a statement that the database refused, with this exception.
abbrev pub IsRefused : Error → World → Type 0
IsRefused e v = (k : ℕ) × (v.calls ≡ suc k) × (v.outside.database k ≡ err e)

-- A result with the property, unless the database refused a statement.
abbrev pub OrRefused : {A : Type 0} → (A → World → Type 0) → Result A → World → Type 0
OrRefused P (ok a) v = P a v
OrRefused P (err e) v = IsRefused e v

-- The world after a statement, refused or not.
abbrev pub asked : World → World
asked w = record w { calls = suc w.calls }

pub OrRefused-statement :
    {A : Type 0} (P : A → World → Type 0) (k : Exec A) (w : World)
    → OrRefused P (k (asked w)).0 (k (asked w)).1
    → OrRefused P ((statement >> k) w).0 ((statement >> k) w).1
unfolding statement exec
OrRefused-statement P k w h = by_answer (w.outside.database w.calls) refl
  where
    by_answer :
        (r : Result (Unit {0}))
        → w.outside.database w.calls ≡ r
        → let (r', v) = continue r (λ _. k) (asked w) in OrRefused P r' v
    by_answer (ok _) e = h
    by_answer (err x) e = (w.calls, refl, e)

pub OrRefused-bind :
    {A B : Type 0} (P : A → World → Type 0) (Q : B → World → Type 0) (m : Exec A) (k : A → Exec B)
    (w : World)
    → OrRefused P (m w).0 (m w).1
    → ((a : A) (v : World) → P a v → OrRefused Q (k a v).0 (k a v).1)
    → OrRefused Q ((m >>= k) w).0 ((m >>= k) w).1
unfolding exec
OrRefused-bind {A = A} P Q m k w h hk = by_result (m w).0 (m w).1 h
  where
    by_result :
        (r : Result A) (v : World)
        → OrRefused P r v
        → OrRefused Q (continue r k v).0 (continue r k v).1
    by_result (ok a) v h = hk a v h
    by_result (err e) v h = h
