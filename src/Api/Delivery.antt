-- ===== src/Api/Delivery.antt =====
-- An event that Slack delivers again is not queued again.
use hound_bot.Base.{
  suc, ◌≡◌, refl, ap, sym, append-nil, Bool, String, true, false, not, ◌&&◌, List, [], ◌∷◌, ◌++◌,
  string_eq, Bool-cases, inl, inr,
}
use hound_bot.Models.{ProcessedEvent, Payload, InboundJob}
use hound_bot.Repositories.Constraints.{has_workspace, references_workspace, integrity_error}
use hound_bot.Exec.{Result, ok, err, World, exec}
use hound_bot.Repositories.ProcessedEvents.{is_known, mark_processed_if_new}
use hound_bot.Repositories.ProcessedEvents.Dedup.{any-appended}
use hound_bot.Repositories.Jobs
use hound_bot.Api.{Response, status}
use hound_bot.Api.Events.{event_callback, handled_event_type, receive, enqueue_if}

module _ (kind id team : String) (payload : Payload) (w : World) where
  abbrev received : Result Response × World
  received = receive (event_callback kind id team payload) w

  receive-known :
      is_known id w.db ≡ true
      → received ≡ (ok (status "ok"), record w { saved = w.db; calls = suc w.calls })
  unfolding receive enqueue_if mark_processed_if_new exec
  receive-known known = rw known

  -- The job of an event, with the id and the moment that are drawn for it.
  abbrev pub job_of : InboundJob
  job_of =
      Jobs.new_job (w.outside.uuid4 (suc (suc w.calls))) team kind payload
        (w.outside.clock (suc w.calls))

  -- An event that is dealt with: it is known, and all is committed.
  abbrev pub IsTaken : List InboundJob → Result Response → World → Type 0
  IsTaken queued r v =
      (r ≡ ok (status "ok"))
      × (v.saved ≡ v.db)
      × (v.db.jobs ≡ w.db.jobs ++ queued)
      × (is_known id v.db ≡ true)

  -- An event that is to be queued, for a team with a workspace or without one.
  abbrev pub Queues : Bool → Result Response → World → Type 0
  Queues true r v = IsTaken (job_of ∷ []) r v
  Queues false r v = (r ≡ err integrity_error) × (v.saved ≡ w.saved)

  abbrev pub Receives : (queued : Bool) → Result Response → World → Type 0
  Receives true r v = Queues (has_workspace team w.db) r v
  Receives false r v = IsTaken [] r v

  receive-new :
      is_known id w.db ≡ false → let (r, v) = received in Receives (handled_event_type kind) r v
  unfolding receive enqueue_if mark_processed_if_new Jobs.enqueue references_workspace exec
  receive-new new =
      let row : ProcessedEvent = record {
        event_id = id;
        team_id = team;
        processed_at = w.outside.clock w.calls;
      } in
      let seen = any-appended id w.db.processed_events row refl in
      elim (Bool-cases (handled_event_type kind)) [
        | inl e ↦ elim (Bool-cases (has_workspace team w.db)) [
          | inl h ↦ rw (new, e, h) (refl, refl, refl, seen)
          | inr h ↦ rw (new, e, h) (refl, refl)
        ]
        | inr e ↦ rw (new, e) (refl, refl, sym (append-nil w.db.jobs), seen)
      ]

-- An event is to be queued just where it is new and of a type that has a handler. Then its job is
-- queued, where the team has a workspace, and where it has none the database refuses the job and
-- nothing is committed; else no job is queued. Unless it is refused, the event is known afterwards
-- and everything is committed. At any later time at which it is still known, that is before the
-- sweep forgets it, a delivery of it, with whatever content, succeeds and changes no table.
pub receive-once :
    (kind id team : String) (payload : Payload) (w : World) (kind' team' : String)
    (payload' : Payload) (u : World)
    → is_known id u.db ≡ true
    → let (r, v) = receive (event_callback kind id team payload) w in
      let (r', u') = receive (event_callback kind' id team' payload') u in
      Receives kind id team payload w (not (is_known id w.db) && handled_event_type kind) r v
      × (r' ≡ ok (status "ok"))
      × (u'.db ≡ u.db)
receive-once kind id team payload w kind' team' payload' u known = (
  elim (Bool-cases (is_known id w.db)) [
    | inl e ↦
        rw (receive-known kind id team payload w e, e) (refl, refl, sym (append-nil w.db.jobs), e)
    | inr e ↦ rw e (receive-new kind id team payload w e)
  ],
  ap (λ (p : Result Response × World). p.0) (receive-known kind' id team' payload' u known),
  ap (λ (p : Result Response × World). p.1.db) (receive-known kind' id team' payload' u known),
)
