-- ===== src/Services/Meetings/Booking/Outcome.antt =====
-- What booking and cancelling a meeting end in, on every branch.
use hound_bot.Base.{
  subst, ℕ, suc, ◌≡◌, refl, ◌∙◌, ap, String, Option, none, some, List, [], ◌∷◌, ◌++◌, string_eq,
  select, arith,
}
use hound_bot.Time.{DateTime, TimeDelta, add_delta, minutes_delta}
use hound_bot.Models.{User, Meeting, MeetingParticipant, proposed, meeting_status_eq, Uuid, Bytes}
use hound_bot.Exec.{
  Error, Result, ok, err, Exec, World, Sent, Effect, perform_attempt, create_event, continue, ◌>>=◌,
  ◌>>◌, modify, pure, exec,
}
use hound_bot.Exec.Laws.{
  Leaves, State, state_of, reads_rules, EndsFrom-raise, EndsFrom-bind, or_raise-ok,
  EndsFrom-raise_if, scalar_one_or_none-ok,
}
use hound_bot.Core.Security.{TokenCipher, decrypt, decrypt_with}
use hound_bot.Repositories.Tenant
use hound_bot.Repositories.Users
use hound_bot.Services.Meetings.Booking

abbrev pub Reads : {A : Type 0} → Exec A → Type 0
Reads m = Leaves state_of m

cipher-decrypt : (c : TokenCipher) (enc : Bytes) (version : ℕ) → Reads (decrypt c enc version)
unfolding decrypt
cipher-decrypt c enc version = search (reads_rules, decrypt_with_key)
  where
    decrypt_with_key : (o : Option String) → Leaves state_of (decrypt_with enc o)
    decrypt_with_key none = search reads_rules
    decrypt_with_key (some key) = search reads_rules

token_with :
    (c : TokenCipher) (text : String) (u : User) (o : Option Bytes)
    → Reads (Booking.token_with c text u o)
unfolding Booking.token_with
token_with c text u none = search reads_rules
token_with c text u (some enc) = search (reads_rules, cipher-decrypt)

token_of : (c : TokenCipher) (text : String) (o : Option User) → Reads (Booking.token_of c text o)
unfolding Booking.token_of
token_of c text none = search reads_rules
token_of c text (some u) = token_with c text u u.google_refresh_token_enc

user-get : (team user : String) → Reads (Users.get team user)
unfolding Users.get
user-get team user = search reads_rules

pub organiser_token :
    (c : TokenCipher) (team organiser text : String)
    → Reads (Booking.organiser_token c team organiser text)
unfolding Booking.organiser_token Tenant.open_repository
organiser_token c team organiser text = search (reads_rules, token_of, user-get)

attendee_emails :
    (team : String) (rows : List MeetingParticipant) (acc : List String)
    → Reads (Booking.attendee_emails team rows acc)
unfolding Booking.attendee_emails
attendee_emails team [] acc = search reads_rules
attendee_emails team (r ∷ rs) acc = search (reads_rules, user-get, attendee_emails team rs)

-- The log after one more effect.
abbrev pub logged : State → Effect → List Sent
logged s e = s.2 ++ record { effect = e; committed = s.1 } ∷ []

-- How booking ends, from the state `s`.
pub data Confirms (team : String) (id : Uuid) (user title : String) (s : State)
    : Result Meeting → World → Type 0 where
  refused : (e : Error) (v : World) → state_of v ≡ s → Confirms team id user title s (err e) v
  unanswered :
      (m : Meeting) (start : DateTime) (d : TimeDelta) (stop : DateTime) (token : String)
      (emails : List String) (e : Error) (v : World)
      → select (Booking.is_team_row team id) s.0.meetings ≡ m ∷ []
      → m.organiser_slack_id ≡ user
      → m.status ≡ proposed
      → m.proposed_start_utc ≡ some start
      → minutes_delta m.duration_min ≡ some d
      → add_delta start d ≡ some stop
      → state_of v ≡ (s.0, s.1, logged s (create_event token title start stop emails))
      → Confirms team id user title s (err e) v
  confirmed :
      (m : Meeting) (start : DateTime) (d : TimeDelta) (stop : DateTime) (token : String)
      (emails : List String) (event_id : String) (v : World)
      → select (Booking.is_team_row team id) s.0.meetings ≡ m ∷ []
      → m.organiser_slack_id ≡ user
      → m.status ≡ proposed
      → m.proposed_start_utc ≡ some start
      → minutes_delta m.duration_min ≡ some d
      → add_delta start d ≡ some stop
      → state_of v ≡ (
        Booking.write m.id (Booking.book event_id) s.0,
        s.1,
        logged s (create_event token title start stop emails),
      )
      → Confirms team id user title s (ok (Booking.book event_id m)) v

module _ (s : State) (team : String) (id : Uuid) (user title : String) where
  abbrev EndsWell : Exec Meeting → Type 0
  EndsWell m = (w : World) → state_of w ≡ s → Confirms team id user title s (m w).0 (m w).1

  and_then :
      {B : Type 0} (m : Exec B) (k : B → Exec Meeting)
      → Reads m
      → ((b : B) (w : World) → state_of w ≡ s → (m w).0 ≡ ok b → EndsWell (k b))
      → EndsWell (m >>= k)
  and_then = EndsFrom-bind state_of s (Confirms team id user title s) refused

  module _ (m : Meeting) (start : DateTime) (token : String) (emails : List String)
      (row : select (Booking.is_team_row team id) s.0.meetings ≡ m ∷ [])
      (own : m.organiser_slack_id ≡ user) (prop : m.status ≡ proposed)
      (at_start : m.proposed_start_utc ≡ some start) where
    abbrev store : String → Exec Meeting
    store event_id =
        modify (Booking.write m.id (Booking.book event_id)) >> pure (Booking.book event_id m)

    module _ (d : TimeDelta) (stop : DateTime) (ed : minutes_delta m.duration_min ≡ some d)
        (es : add_delta start d ≡ some stop) where
      abbrev event : Effect
      event = create_event token title start stop emails

      abbrev attempted : World → World
      attempted w = record w {
        calls = suc w.calls;
        sent = w.sent ++ record { effect = event; committed = w.saved } ∷ [];
      }

      answered :
          (r : Result String) (w : World)
          → state_of w ≡ s
          → let (r', v) = continue r store (attempted w) in Confirms team id user title s r' v
      unfolding exec
      answered (ok event_id) w h =
          confirmed m start d stop token emails event_id _ row own prop at_start ed es (
            ap
              (λ (t : State). (Booking.write m.id (Booking.book event_id) t.0, t.1, logged t event))
              h)
      answered (err x) w h =
          unanswered m start d stop token emails x _ row own prop at_start ed es
            (ap (λ (t : State). (t.0, t.1, logged t event)) h)

      performed : EndsWell (perform_attempt event >>= store)
      unfolding exec
      performed w h = answered (w.outside.perform w.calls event) w h

    book_meeting : EndsWell (Booking.book_meeting m start token emails title)
    unfolding Booking.book_meeting
    book_meeting = and_then _ _ (search reads_rules) (λ d w1 e1 ed.
        and_then _ _ (search reads_rules) (λ stop w2 e2 es.
          performed d stop (or_raise-ok _ _ d w1 ed) (or_raise-ok _ _ stop w2 es)))

  confirm_at :
      (c : TokenCipher) (m : Meeting) (o : Option DateTime)
      → select (Booking.is_team_row team id) s.0.meetings ≡ m ∷ []
      → m.organiser_slack_id ≡ user
      → m.status ≡ proposed
      → m.proposed_start_utc ≡ o
      → EndsWell (Booking.confirm_at c team title m o)
  unfolding Booking.confirm_at
  confirm_at c m none row own prop e =
      EndsFrom-raise state_of s (Confirms team id user title s) refused _
  confirm_at c m (some start) row own prop e =
      and_then _ _ (organiser_token c team m.organiser_slack_id _) (λ token w1 e1 _.
        and_then _ _ (search reads_rules) (λ rows w2 e2 _.
          and_then _ _ (attendee_emails team rows [])
            (λ emails w3 e3 _. book_meeting m start token emails row own prop e)))

  confirm_found :
      (c : TokenCipher) (o : Option Meeting)
      → ((m : Meeting) → o ≡ some m → select (Booking.is_team_row team id) s.0.meetings ≡ m ∷ [])
      → EndsWell (Booking.confirm_found c team user title o)
  unfolding Booking.confirm_found
  confirm_found c none row = EndsFrom-raise state_of s (Confirms team id user title s) refused _
  confirm_found c (some m) row =
      EndsFrom-raise_if state_of s (Confirms team id user title s) refused _ _ _ (λ own.
        EndsFrom-raise_if state_of s (Confirms team id user title s) refused _ _ _ (λ prop.
          confirm_at c m m.proposed_start_utc (row m refl) (ground arith) (ground arith) refl))

pub find_meeting : (team : String) (id : Uuid) → Reads (Booking.find_meeting team id)
unfolding Booking.find_meeting
find_meeting team id = search reads_rules

pub find_meeting-row :
    (s : State) (team : String) (id : Uuid) (m : Meeting) (w : World)
    → state_of w ≡ s
    → (Booking.find_meeting team id w).0 ≡ ok (some m)
    → select (Booking.is_team_row team id) s.0.meetings ≡ m ∷ []
unfolding Booking.find_meeting exec
find_meeting-row s team id m w e found =
    subst (λ (t : State). select (Booking.is_team_row team id) t.0.meetings ≡ m ∷ []) e
      (scalar_one_or_none-ok _ m w found)

-- `confirm_meeting` either raises and leaves the tables and what is committed as they were, and then
-- it made no call that changes a calendar, or just the one that books the meeting, whose answer was
-- an exception; or it books. It asks for a booking only of the one meeting of the team with that id,
-- which was proposed by the user who asks, with a start: by one call that creates a calendar event,
-- from that start to the start plus the meeting's duration. If that call returns an id, the row
-- becomes booked with it.
pub confirm_meeting-Confirms :
    (c : TokenCipher) (team : String) (id : Uuid) (user title : String) (w : World)
    → let (r, v) = Booking.confirm_meeting c team id user title w in
      Confirms team id user title (state_of w) r v
unfolding Booking.confirm_meeting
confirm_meeting-Confirms c team id user title w =
    let s = state_of w in
    and_then s team id user title _ _ (find_meeting team id)
      (λ o w1 e1 found.
        confirm_found s team id user title c o
          (λ m e. find_meeting-row s team id m w1 e1 (found ∙ ap ok e)))
      w refl
