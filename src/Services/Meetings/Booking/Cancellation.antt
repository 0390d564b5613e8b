-- ===== src/Services/Meetings/Booking/Cancellation.antt =====
-- What cancelling a meeting ends in, on every branch.
use hound_bot.Base.{
  ◌≡◌, refl, ◌∙◌, ap, String, Option, none, some, List, [], ◌∷◌, string_eq, select, ◌≢◌, arith,
}
use hound_bot.Models.{Meeting, cancelled, booked, MeetingStatus, meeting_status_eq, Uuid}
use hound_bot.Exec.{
  Error, Result, ok, err, Exec, World, Sent, record_effect, cancel_event, continue, ◌>>◌, modify,
  pure, perform, exec,
}
use hound_bot.Exec.Laws.{State, state_of, EndsFrom-raise, EndsFrom-bind, EndsFrom-raise_if}
use hound_bot.Core.Security.{TokenCipher}
use hound_bot.Services.Meetings.Booking
use hound_bot.Services.Meetings.Booking.Outcome.{
  organiser_token, logged, find_meeting, find_meeting-row,
}

-- The calendar's part of cancelling `m`: one event deleted where `m` has one, else nothing.
pub data Withdraws (m : Meeting) (s : State) : List Sent → Type 0 where
  no_event :
      Booking.event_to_cancel m.status m.google_event_id ≡ none
      → (l : List Sent) → l ≡ s.2
      → Withdraws m s l
  event_deleted :
      (token event_id : String) (l : List Sent)
      → m.status ≡ booked
      → m.google_event_id ≡ some event_id
      → l ≡ logged s (cancel_event token event_id)
      → Withdraws m s l

-- How cancelling ends, from the state `s`.
pub data Cancels (team : String) (id : Uuid) (user : String) (s : State)
    : Result Meeting → World → Type 0 where
  refused : (e : Error) (v : World) → state_of v ≡ s → Cancels team id user s (err e) v
  withdrawn :
      (m : Meeting) (v : World)
      → select (Booking.is_team_row team id) s.0.meetings ≡ m ∷ []
      → m.organiser_slack_id ≡ user
      → m.status ≢ cancelled
      → v.db ≡ Booking.write m.id Booking.cancel s.0
      → v.saved ≡ s.1
      → Withdraws m s v.sent
      → Cancels team id user s (ok (Booking.cancel m)) v

event_to_cancel-some :
    (st : MeetingStatus) (o : Option String) (event_id : String)
    → Booking.event_to_cancel st o ≡ some event_id
    → (st ≡ booked) × (o ≡ some event_id)
event_to_cancel-some st o event_id h = ground arith

module _ (s : State) (team : String) (id : Uuid) (user : String) where
  abbrev EndsWell : Exec Meeting → Type 0
  EndsWell m = (w : World) → state_of w ≡ s → Cancels team id user s (m w).0 (m w).1

  module _ (m : Meeting) (row : select (Booking.is_team_row team id) s.0.meetings ≡ m ∷ [])
      (own : m.organiser_slack_id ≡ user) (still : m.status ≢ cancelled) where
    abbrev store : Exec Meeting
    store = modify (Booking.write m.id Booking.cancel) >> pure (Booking.cancel m)

    module _ (token event_id : String) (st : m.status ≡ booked)
        (ev : m.google_event_id ≡ some event_id) where
      answered :
          (r : Result String) (w : World)
          → state_of w ≡ s
          → let p =
              continue r
                (λ (_ : String). pure (tt {0}))
                (record_effect (cancel_event token event_id) r w) in
            let (r', v) = continue p.0 (λ (_ : Unit {0}). store) p.1 in Cancels team id user s r' v
      unfolding exec
      answered (ok reply) w h =
          withdrawn m _ row own still (ap (λ (t : State). Booking.write m.id Booking.cancel t.0) h)
            (ap (λ (t : State). t.1) h)
            (event_deleted token event_id _ st ev
              (ap (λ (t : State). logged t (cancel_event token event_id)) h))
      answered (err x) w h = refused x _ h

    with_token :
        (event_id : String) (r : Result String) (v : World)
        → m.status ≡ booked
        → m.google_event_id ≡ some event_id
        → state_of v ≡ s
        → let delete = λ (token : String). perform (cancel_event token event_id) >> pure (tt {0}) in
          let p = continue r delete v in
          let (r', u) = continue p.0 (λ (_ : Unit {0}). store) p.1 in Cancels team id user s r' u
    unfolding exec
    with_token event_id (ok token) v st ev h =
        answered token event_id st ev (v.outside.perform v.calls (cancel_event token event_id)) v h
    with_token event_id (err x) v st ev h = refused x v h

    withdraw :
        (c : TokenCipher) (o : Option String)
        → Booking.event_to_cancel m.status m.google_event_id ≡ o
        → EndsWell (Booking.cancel_event_of c team m o >> store)
    unfolding Booking.cancel_event_of exec
    withdraw c none e w h =
        withdrawn m _ row own still (ap (λ (t : State). Booking.write m.id Booking.cancel t.0) h)
          (ap (λ (t : State). t.1) h) (no_event e _ (ap (λ (t : State). t.2) h))
    withdraw c (some event_id) e w h =
        let found = event_to_cancel-some m.status m.google_event_id event_id e in
        let token = Booking.organiser_token c team m.organiser_slack_id _ in
        with_token event_id (token w).0 (token w).1 found.0 found.1
          ((organiser_token c team m.organiser_slack_id _).at w ∙ h)

  cancel_found :
      (c : TokenCipher) (o : Option Meeting)
      → ((m : Meeting) → o ≡ some m → select (Booking.is_team_row team id) s.0.meetings ≡ m ∷ [])
      → EndsWell (Booking.cancel_found c team user o)
  unfolding Booking.cancel_found
  cancel_found c none row = EndsFrom-raise state_of s (Cancels team id user s) refused _
  cancel_found c (some m) row =
      EndsFrom-raise_if state_of s (Cancels team id user s) refused _ _ _ (λ own.
        EndsFrom-raise_if state_of s (Cancels team id user s) refused _ _ _
          (λ still. withdraw m (row m refl) (ground arith) (λ e. ground arith) c _ refl))

-- `cancel_meeting` either raises and leaves the tables, what is committed and the calendars as they
-- were, or it cancels the one meeting of the team with that id, which the user who asks organises
-- and which was not cancelled. A booked meeting's event is deleted from the calendar, once; a
-- meeting with no event to delete touches no calendar.
pub cancel_meeting-Cancels :
    (c : TokenCipher) (team : String) (id : Uuid) (user : String) (w : World)
    → let (r, v) = Booking.cancel_meeting c team id user w in Cancels team id user (state_of w) r v
unfolding Booking.cancel_meeting
cancel_meeting-Cancels c team id user w =
    let s = state_of w in
    EndsFrom-bind state_of s (Cancels team id user s) refused _ _ (find_meeting team id)
      (λ o w1 e1 found.
        cancel_found s team id user c o
          (λ m e. find_meeting-row s team id m w1 e1 (found ∙ ap ok e)))
      w refl
