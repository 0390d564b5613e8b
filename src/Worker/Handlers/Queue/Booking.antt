-- ===== src/Worker/Handlers/Queue/Booking.antt =====
-- Booking and cancelling a meeting writes nothing to the queue of jobs.
use hound_bot.Base.{String, Option, none, some, List, [], ◌∷◌}
use hound_bot.Time.{DateTime}
use hound_bot.Models.{User, Meeting, MeetingParticipant, Uuid, Bytes}
use hound_bot.Core.Security.{TokenCipher}
use hound_bot.Services.Meetings.Booking
use hound_bot.Worker.Handlers.Queue.{LeavesJobs, queue_rules}

token_with :
    (c : TokenCipher) (text : String) (u : User) (o : Option Bytes)
    → LeavesJobs (Booking.token_with c text u o)
unfolding Booking.token_with
token_with c text u none = search queue_rules
token_with c text u (some enc) = search queue_rules

token_of :
    (c : TokenCipher) (text : String) (o : Option User) → LeavesJobs (Booking.token_of c text o)
unfolding Booking.token_of
token_of c text none = search queue_rules
token_of c text (some u) = token_with c text u u.google_refresh_token_enc

organiser_token :
    (c : TokenCipher) (team organiser text : String)
    → LeavesJobs (Booking.organiser_token c team organiser text)
unfolding Booking.organiser_token
organiser_token c team organiser text = search (queue_rules, token_of)

attendee_emails :
    (team : String) (rows : List MeetingParticipant) (acc : List String)
    → LeavesJobs (Booking.attendee_emails team rows acc)
unfolding Booking.attendee_emails
attendee_emails team [] acc = search queue_rules
attendee_emails team (r ∷ rs) acc = search (queue_rules, attendee_emails team rs)

book_meeting :
    (m : Meeting) (start : DateTime) (token : String) (emails : List String) (title : String)
    → LeavesJobs (Booking.book_meeting m start token emails title)
unfolding Booking.book_meeting
book_meeting m start token emails title = search queue_rules depth 12

module _ (c : TokenCipher) (team user title : String) where
  confirm_at :
      (m : Meeting) (o : Option DateTime) → LeavesJobs (Booking.confirm_at c team title m o)
  unfolding Booking.confirm_at
  confirm_at m none = search queue_rules
  confirm_at m (some start) =
      search (queue_rules, organiser_token, attendee_emails, book_meeting) depth 12

  confirm_found : (o : Option Meeting) → LeavesJobs (Booking.confirm_found c team user title o)
  unfolding Booking.confirm_found
  confirm_found none = search queue_rules
  confirm_found (some m) = search (queue_rules, confirm_at)

  cancel_event_of :
      (m : Meeting) (o : Option String) → LeavesJobs (Booking.cancel_event_of c team m o)
  unfolding Booking.cancel_event_of
  cancel_event_of m none = search queue_rules
  cancel_event_of m (some event_id) = search (queue_rules, organiser_token)

  cancel_found : (o : Option Meeting) → LeavesJobs (Booking.cancel_found c team user o)
  unfolding Booking.cancel_found
  cancel_found none = search queue_rules
  cancel_found (some m) = search (queue_rules, cancel_event_of) depth 12

find_meeting : (team : String) (id : Uuid) → LeavesJobs (Booking.find_meeting team id)
unfolding Booking.find_meeting
find_meeting team id = search queue_rules

pub confirm_meeting :
    (c : TokenCipher) (team : String) (id : Uuid) (user title : String)
    → LeavesJobs (Booking.confirm_meeting c team id user title)
unfolding Booking.confirm_meeting
confirm_meeting c team id user title = search (queue_rules, find_meeting, confirm_found)

pub cancel_meeting :
    (c : TokenCipher) (team : String) (id : Uuid) (user : String)
    → LeavesJobs (Booking.cancel_meeting c team id user)
unfolding Booking.cancel_meeting
cancel_meeting c team id user = search (queue_rules, find_meeting, cancel_found c team user "")
