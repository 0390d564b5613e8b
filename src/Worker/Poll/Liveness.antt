-- ===== src/Worker/Poll/Liveness.antt =====
-- What /health reads while the loop runs.
use hound_bot.Base.{ℕ, suc, ◌+◌, ◌≡◌, refl, some, ltb, arith, List, [], ◌∷◌, All, ◌⊎◌, inl, inr}
use hound_bot.Time.{DateTime}
use hound_bot.Exec.{Exec, Result, ok, err}
use hound_bot.Core.Security.{TokenCipher, KeySettings, token_cipher_from_settings}
use hound_bot.Worker.Poll.{
  Process, poll, Turn, completes, cancelled_in, cancelled_asleep, Loop, running, cancelled, failed,
  run_turns, started, run_worker_loop, worker_is_alive, stale_after,
}

is_alive-since : (t last : DateTime) → worker_is_alive t (some last) ≡ ltb t (last + stale_after)
unfolding worker_is_alive
is_alive-since t last = ground arith

-- The last call of the process read the clock, and what it read is recorded as the last poll; the
-- worker counts as alive at just the moments less than the staleness bound after it.
abbrev pub IsRecorded : DateTime → Process → Type 0
IsRecorded t q =
    (k : ℕ) × (q.world.calls ≡ suc k)
    × (q.last_poll_completed_utc ≡ some (q.world.outside.clock k))
    × (q.world.db ≡ q.world.saved)
    × (worker_is_alive t q.last_poll_completed_utc ≡ ltb t (q.world.outside.clock k + stale_after))

abbrev pub Completes : Turn → Type 0
Completes completes = Unit
Completes (cancelled_in part) = ⊥
Completes cancelled_asleep = ⊥

-- What the loop comes to: it runs only while every turn completes, and then the last turn's poll is
-- recorded; it is cancelled only by a turn.
abbrev pub Runs : DateTime → Process → List Turn → Loop → Type 0
Runs t p turns (running q) = All Completes turns × (((turns ≡ []) × (q ≡ p)) ⊎ IsRecorded t q)
Runs t p turns (cancelled q) = ¬ All Completes turns
Runs t p turns (failed e q) = ⊥

Runs-cons :
    (t : DateTime) (p p' : Process) (turns : List Turn) (l : Loop)
    → IsRecorded t p'
    → Runs t p' turns l
    → Runs t p (completes ∷ turns) l
Runs-cons t p p' turns (running q) h (all, inl (e, same)) = ((tt, all), inr (rw same h))
Runs-cons t p p' turns (running q) h (all, inr now) = ((tt, all), inr now)
Runs-cons t p p' turns (cancelled q) h stopped = λ all. stopped all.1
Runs-cons t p p' turns (failed e q) h stopped = stopped

poll-IsRecorded : (t : DateTime) (batch : Exec ℕ) (p : Process) → IsRecorded t (poll batch p)
unfolding poll
poll-IsRecorded t batch p = (_, refl, refl, refl, is_alive-since t _)

run_turns-Runs :
    (t : DateTime) (batch : Exec ℕ) (turns : List Turn) (p : Process)
    → Runs t p turns (run_turns batch turns p)
unfolding run_turns
run_turns-Runs t batch [] p = (tt, inl (refl, refl))
run_turns-Runs t batch (completes ∷ turns) p =
    Runs-cons t p (poll batch p) turns _ (poll-IsRecorded t batch p)
      (run_turns-Runs t batch turns (poll batch p))
run_turns-Runs t batch (cancelled_in part ∷ turns) p = λ all. all.0
run_turns-Runs t batch (cancelled_asleep ∷ turns) p = λ all. all.0

-- Where the settings have no valid cipher the loop fails before its first turn, and nothing is
-- recorded.
abbrev pub RunsWith : DateTime → Process → List Turn → Result TokenCipher → Loop → Type 0
RunsWith t p turns (ok cipher) l = Runs t p turns l
RunsWith t p turns (err e) l = l ≡ failed e p

-- Where the settings have no valid cipher, the loop fails at once and the process is as it was.
-- Otherwise, however its batches end, it stops only where a turn is cancelled. As long as none is,
-- after one turn or more, the moment at which the last turn's batch ended, as the clock was read
-- last, is recorded; nothing uncommitted is left in the tables; and the worker is alive at just
-- those moments that are less than the staleness bound after that moment.
pub run_worker_loop-alive :
    (keys : KeySettings) (batch : TokenCipher → Exec ℕ) (turns : List Turn) (p : Process)
    (t : DateTime)
    → RunsWith t p turns
        (token_cipher_from_settings p.world.outside.is_fernet_key keys)
        (run_worker_loop keys batch turns p)
unfolding run_worker_loop
run_worker_loop-alive keys batch turns p t =
    with_cipher (token_cipher_from_settings p.world.outside.is_fernet_key keys)
  where
    with_cipher : (r : Result TokenCipher) → RunsWith t p turns r (started batch turns p r)
    with_cipher (ok cipher) = run_turns-Runs t (batch cipher) turns p
    with_cipher (err e) = refl
