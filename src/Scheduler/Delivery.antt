-- ===== src/Scheduler/Delivery.antt =====
-- What one turn of the scheduler's loop does to the reminder and to the tables.
use hound_bot.Base.{
  ℕ, ◌≡◌, ◌∙◌, refl, sym, ap, String, Option, none, some, List, [], ◌∷◌, string_eq, nat_eq, select,
  update, ◌⊎◌, inl, inr, arith,
}
use hound_bot.Time.{DateTime}
use hound_bot.Models.{Db, Task, Reminder, Workspace, done_status, task_status_eq, Uuid, Bytes}
use hound_bot.Exec.{Error, Result, ok, err, Exec, World, continue, ◌>>◌, exec, scalar_one_or_none}
use hound_bot.Exec.Laws.{scalar_one_or_none-same_world, Leaves, tables_of, Tables, tables_rules}
use hound_bot.Core.Security.{TokenCipher, decrypt, decrypt_with}
use hound_bot.Repositories.Tasks
use hound_bot.Repositories.Workspaces
use hound_bot.Repositories.Reminders
use hound_bot.Scheduler

-- Every row with the reminder's id was sent at `t`.
abbrev pub sent_at : DateTime → Reminder → Reminder
sent_at t r = record r { sent_at = some t }

-- How the turn for the reminder `id` ends: marked and committed, or an exception and no write.
abbrev pub Ended : Uuid → World → Result (Unit {0}) → World → Type 0
Ended id w r v =
    ((r ≡ ok tt)
      × (t : DateTime) × (v.db
          ≡ record w.db { reminders = update (Reminders.is_row id) (sent_at t) w.db.reminders })
      × (v.saved ≡ v.db))
    ⊎ ((e : Error) × (r ≡ err e) × (tables_of v ≡ tables_of w))

update_of_empty :
    (id : Uuid) (t : DateTime) (rs : List Reminder)
    → select (Reminders.is_row id) rs ≡ []
    → update (Reminders.is_row id) (sent_at t) rs ≡ rs
update_of_empty id t [] h = refl
update_of_empty id t (r ∷ rs) h = ground (arith, update_of_empty id t rs)

marked :
    (id : Uuid) (w : World)
    → let (r, v) = (Reminders.mark_sent id >> Scheduler.commit) w in
      (r ≡ ok tt)
      × (v.db ≡ record w.db {
        reminders = update (Reminders.is_row id) (sent_at (w.outside.clock w.calls)) w.db.reminders;
      })
      × (v.saved ≡ v.db)
      × (v.sent ≡ w.sent)
unfolding Reminders.mark_sent Reminders.write_sent exec
marked id w = cases (select (Reminders.is_row id) w.db.reminders) refl
  where
    cases :
        (l : List Reminder)
        → select (Reminders.is_row id) w.db.reminders ≡ l
        → let (r, v) = (Reminders.mark_sent id >> Scheduler.commit) w in
          (r ≡ ok tt)
          × (v.db ≡ record w.db {
            reminders =
                update (Reminders.is_row id) (sent_at (w.outside.clock w.calls)) w.db.reminders;
          })
          × (v.saved ≡ v.db)
          × (v.sent ≡ w.sent)
    cases [] e =
        let same = update_of_empty id (w.outside.clock w.calls) w.db.reminders e in
        rw e
          (refl, ap (λ (l : List Reminder). record w.db { reminders = l }) (sym same), refl, refl)
    cases (r ∷ rs) e = rw e (refl, refl, refl, refl)

abbrev KeepsTables : {A : Type 0} → Exec A → Type 0
KeepsTables m = Leaves tables_of m

cipher-decrypt : (c : TokenCipher) (enc : Bytes) (version : ℕ) → KeepsTables (decrypt c enc version)
unfolding decrypt
cipher-decrypt c enc version = search (tables_rules, decrypt_with_key)
  where
    decrypt_with_key : (o : Option String) → KeepsTables (decrypt_with enc o)
    decrypt_with_key none = search tables_rules
    decrypt_with_key (some key) = search tables_rules

notify :
    (token text : String) (t : Task) (user : String)
    → KeepsTables (Scheduler.notify token text t user)
unfolding Scheduler.notify
notify token text t user = search tables_rules

workspace-get : (team : String) → KeepsTables (Workspaces.get team)
unfolding Workspaces.get
workspace-get team = search tables_rules

module _ (c : TokenCipher) (r : Reminder) where
  send_reminder : (t : Task) (s : Workspace) → KeepsTables (Scheduler.send_reminder c r t s)
  unfolding Scheduler.send_reminder
  send_reminder t s = search (tables_rules, cipher-decrypt, notify)

  send_if_installed :
      (t : Task) (o : Option Workspace) → KeepsTables (Scheduler.send_if_installed c r t o)
  unfolding Scheduler.send_if_installed
  send_if_installed t none = search tables_rules
  send_if_installed t (some s) = search (tables_rules, send_reminder)

  send_if_open : (o : Option Task) → KeepsTables (Scheduler.send_if_open c r o)
  unfolding Scheduler.send_if_open
  send_if_open none = search tables_rules
  send_if_open (some t) = search (tables_rules, workspace-get, send_if_installed)

  after_send :
      (q : Result (Unit {0})) (w v : World)
      → tables_of v ≡ tables_of w
      → let out = continue q (λ _. Reminders.mark_sent r.id >> Scheduler.commit) v in
        Ended r.id w out.0 out.1
  unfolding exec
  after_send (ok _) w v h =
      let m = marked r.id v in
      inl (
        m.0,
        v.outside.clock v.calls,
        m.1
            ∙ ap
                (λ (t : Tables). record t.0 {
                  reminders =
                      update (Reminders.is_row r.id) (sent_at (v.outside.clock v.calls))
                        t.0.reminders;
                })
                h,
        m.2,
      )
  after_send (err e) w v h = inr (e, refl, h)

  after_find :
      (q : Result (Option Task)) (w v : World)
      → tables_of v ≡ tables_of w
      → let send = λ (o : Option Task).
        Scheduler.send_if_open c r o >> (Reminders.mark_sent r.id >> Scheduler.commit) in
        let out = continue q send v in Ended r.id w out.0 out.1
  unfolding exec
  after_find (ok o) w v h =
      let sent = Scheduler.send_if_open c r o v in
      after_send sent.0 w sent.1 ((send_if_open o).at v ∙ h)
  after_find (err e) w v h = inr (e, refl, h)

  -- The turn for a reminder either marks the reminder sent, with nothing else of the tables
  -- changed, and commits, or it raises and writes nothing.
  pub process_reminder-Ended :
      (w : World) → let (q, v) = Scheduler.process_reminder c r w in Ended r.id w q v
  unfolding Scheduler.process_reminder exec
  process_reminder-Ended w =
      let rows = select (Tasks.has_id r.task_id) w.db.tasks in
      let found = scalar_one_or_none rows w in
      after_find found.0 w found.1 (ap tables_of (scalar_one_or_none-same_world rows w))

  skipped :
      (w : World) (task : Task)
      → select (Tasks.has_id r.task_id) w.db.tasks ≡ task ∷ []
      → task.status ≡ done_status
      → Scheduler.process_reminder c r w ≡ (Reminders.mark_sent r.id >> Scheduler.commit) w
  unfolding Scheduler.process_reminder Scheduler.send_if_open Reminders.mark_sent exec
  skipped w task row closed = ground arith

  -- The reminder of a task that is done, and the only row with its id, sends no message: the turn
  -- returns, the reminder is marked sent and what was written is committed.
  pub process_reminder-silent :
      (w : World) (task : Task)
      → select (Tasks.has_id r.task_id) w.db.tasks ≡ task ∷ []
      → task.status ≡ done_status
      → let (q, v) = Scheduler.process_reminder c r w in
        (q ≡ ok tt)
        × (v.sent ≡ w.sent)
        × (v.saved ≡ v.db)
        × (v.db.reminders
            ≡ update (Reminders.is_row r.id) (sent_at (w.outside.clock w.calls)) w.db.reminders)
  process_reminder-silent w task row closed =
      let m = marked r.id w in
      rw (skipped w task row closed) (m.0, m.3, m.2, ap (λ (db : Db). db.reminders) m.1)
