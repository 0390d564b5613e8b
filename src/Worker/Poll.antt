-- ===== src/Worker/Poll.antt =====
-- app/worker.py: the polling loop and the liveness that /health reads.
pub mod Liveness
use hound_bot.Base.{
  ℕ, zero, suc, ◌-◌, ◌*◌, Bool, false, Option, none, some, ltb, leb, if◌then◌else◌, true, List, [],
  ◌∷◌,
}
use hound_bot.Time.{DateTime, second}
use hound_bot.Exec.{World, Exec, Error, Result, ok, err}
use hound_bot.Core.Security.{TokenCipher, KeySettings, token_cipher_from_settings}

abbrev pub stale_after : ℕ
stale_after = 30 * second

-- The process: its world, and the global `_last_poll_completed_utc`.
pub record Process : Type 0 where
  pub world : World
  pub last_poll_completed_utc : Option DateTime

-- `age < STALE_AFTER_SECONDS`; the age is negative if the clock went back.
abbrev pub is_recent : DateTime → DateTime → Bool
is_recent t last = if leb last t then ltb (t - last) stale_after else true

unfoldable pub worker_is_alive : DateTime → Option DateTime → Bool
worker_is_alive t none = false
worker_is_alive t (some last) = is_recent t last

-- `async with async_session_factory()`: what was not committed before is not seen.
abbrev pub new_session : World → World
new_session w = record w { db = w.saved }

-- The exception of a batch is swallowed, and the session closed without a commit.
unfoldable pub poll : Exec ℕ → Process → Process
poll batch p =
    let w = (batch (new_session p.world)).1 in
    record {
      world = record w { db = w.saved; calls = suc w.calls };
      last_poll_completed_utc = some (w.outside.clock w.calls);
    }

-- How a turn of `while True` goes: to its end, or cancelled, when that part of the batch had run, or
-- in the sleep after it.
pub data Turn : Type 0 where
  completes : Turn
  cancelled_in : Exec ℕ → Turn
  cancelled_asleep : Turn

-- The process while it runs, after CancelledError, and where the settings have no valid cipher.
pub data Loop : Type 0 where
  running : Process → Loop
  cancelled : Process → Loop
  failed : Error → Process → Loop

-- `async with` closes the session without a commit.
abbrev pub close : Exec ℕ → Process → Process
close part p =
    let w = (part (new_session p.world)).1 in record p { world = record w { db = w.saved } }

unfoldable pub run_turns : Exec ℕ → List Turn → Process → Loop
unfolding poll
run_turns batch [] p = running p
run_turns batch (completes ∷ turns) p = run_turns batch turns (poll batch p)
run_turns batch (cancelled_in part ∷ turns) p = cancelled (close part p)
run_turns batch (cancelled_asleep ∷ turns) p = cancelled (poll batch p)

abbrev pub started : (TokenCipher → Exec ℕ) → List Turn → Process → Result TokenCipher → Loop
started batch turns p (err e) = failed e p
started batch turns p (ok cipher) = run_turns (batch cipher) turns p

-- The loop during some turns, whose batches take the cipher of the settings.
unfoldable pub run_worker_loop : KeySettings → (TokenCipher → Exec ℕ) → List Turn → Process → Loop
unfolding run_turns
run_worker_loop keys batch turns p =
    started batch turns p (token_cipher_from_settings p.world.outside.is_fernet_key keys)
