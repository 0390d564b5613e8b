-- ===== src/Services/Meetings/Booking.antt =====
-- app/services/meeting_service.py: `confirm_meeting`, `book_meeting` and `cancel_meeting`.
pub mod Outcome
pub mod Cancellation
use hound_bot.Base.{
  String, ◌<>◌, Bool, not, ◌&&◌, Option, none, some, List, [], ◌∷◌, ◌++◌, ◌==◌, string_eq, nat_eq,
  is_some, select, update, if◌then◌else◌,
}
use hound_bot.Time.{DateTime, add_delta, minutes_delta}
use hound_bot.Models.{
  Db, User, Meeting, MeetingParticipant, MeetingStatus, proposed, booked, cancelled,
  meeting_status_eq, Uuid, Bytes,
}
use hound_bot.Exec.{
  overflow_error, meeting_confirmation, create_event, cancel_event, Exec, pure, raise, or_raise,
  query, scalar_one_or_none, ◌>>=◌, ◌>>◌, modify, raise_if, perform, perform_attempt,
}
use hound_bot.Core.Security.{TokenCipher, decrypt}
use hound_bot.Repositories.Tenant.{open_repository}
use hound_bot.Repositories.Users

abbrev pub is_row : Uuid → Meeting → Bool
is_row id m = m.id == id

abbrev pub write : Uuid → (Meeting → Meeting) → Db → Db
write id f db = record db { meetings = update (is_row id) f db.meetings }

-- `select(Meeting).filter_by(id=meeting_id, team_id=team_id)`
abbrev pub is_team_row : String → Uuid → Meeting → Bool
is_team_row team_id id m = m.id == id && m.team_id == team_id

unfoldable pub find_meeting : String → Uuid → Exec (Option Meeting)
find_meeting team_id id = do
  result ← query (λ db. select (is_team_row team_id id) db.meetings)
  scalar_one_or_none result

abbrev pub status_text : MeetingStatus → String
status_text proposed = "proposed"
status_text booked = "booked"
status_text cancelled = "cancelled"

abbrev pub refuse_if : Bool → String → Exec Unit
refuse_if c text = raise_if c (meeting_confirmation text)

unfoldable pub token_with : TokenCipher → String → User → Option Bytes → Exec String
token_with cipher text u none = raise (meeting_confirmation text)
token_with cipher text u (some token_enc) =
    if is_some u.google_link_broken_at
    then raise (meeting_confirmation text)
    else decrypt cipher token_enc u.key_version

-- The refresh token of an organiser whose link works, or the refusal.
unfoldable pub token_of : TokenCipher → String → Option User → Exec String
unfolding token_with
token_of cipher text none = raise (meeting_confirmation text)
token_of cipher text (some u) = token_with cipher text u u.google_refresh_token_enc

unfoldable pub organiser_token : TokenCipher → String → String → String → Exec String
unfolding token_of
organiser_token cipher team_id organiser text = do
  open_repository team_id
  user ← Users.get team_id organiser
  token_of cipher text user

abbrev pub add_email : Option User → List String → List String
add_email none acc = acc
add_email (some u) acc = elim u.google_email [
  | none ↦ acc
  | some email ↦ if email == "" then acc else acc ++ email ∷ []
]

unfoldable pub attendee_emails : String → List MeetingParticipant → List String → Exec (List String)
attendee_emails team_id [] acc = pure acc
attendee_emails team_id (row ∷ rows) acc = do
  participant ← Users.get team_id row.slack_user_id
  attendee_emails team_id rows (add_email participant acc)

abbrev pub book : String → Meeting → Meeting
book event_id m = record m { status = booked; google_event_id = some event_id }

unfoldable pub book_meeting : Meeting → DateTime → String → List String → String → Exec Meeting
book_meeting meeting slot_start_utc refresh_token emails title = do
  duration ← or_raise overflow_error (minutes_delta meeting.duration_min)
  slot_end_utc ← or_raise overflow_error (add_delta slot_start_utc duration)
  event_id ← perform_attempt (create_event refresh_token title slot_start_utc slot_end_utc emails)
  modify (write meeting.id (book event_id))
  pure (book event_id meeting)

abbrev pub has_meeting : Uuid → MeetingParticipant → Bool
has_meeting id row = row.meeting_id == id

unfoldable pub confirm_at : TokenCipher → String → String → Meeting → Option DateTime → Exec Meeting
unfolding book_meeting organiser_token attendee_emails
confirm_at cipher team_id title meeting none =
    raise (meeting_confirmation "Meeting has no proposed time to book.")
confirm_at cipher team_id title meeting (some slot_start) = do
  token ←
      organiser_token cipher team_id meeting.organiser_slack_id
        "The organiser must link a calendar before booking."
  rows ← query (λ db. select (has_meeting meeting.id) db.participants)
  emails ← attendee_emails team_id rows []
  book_meeting meeting slot_start token emails title

unfoldable pub confirm_found :
    TokenCipher → String → String → String → Option Meeting → Exec Meeting
unfolding confirm_at
confirm_found cipher team_id user title none =
    raise (meeting_confirmation "No meeting with that id in this workspace.")
confirm_found cipher team_id user title (some meeting) = do
  refuse_if (not (meeting.organiser_slack_id == user)) "Only the meeting organiser can book it."
  refuse_if (not (meeting.status == proposed))
      ("Meeting is already " <> status_text meeting.status <> ".")
  confirm_at cipher team_id title meeting meeting.proposed_start_utc

unfoldable pub confirm_meeting : TokenCipher → String → Uuid → String → String → Exec Meeting
unfolding find_meeting confirm_found
confirm_meeting cipher team_id meeting_id requesting_slack_user_id title = do
  meeting ← find_meeting team_id meeting_id
  confirm_found cipher team_id requesting_slack_user_id title meeting

-- `meeting.status == STATUS_BOOKED and meeting.google_event_id`
abbrev pub event_to_cancel : MeetingStatus → Option String → Option String
event_to_cancel booked (some event_id) = if event_id == "" then none else some event_id
event_to_cancel _ _ = none

unfoldable pub cancel_event_of : TokenCipher → String → Meeting → Option String → Exec Unit
unfolding organiser_token
cancel_event_of cipher team_id meeting none = pure tt
cancel_event_of cipher team_id meeting (some event_id) = do
  token ←
      organiser_token cipher team_id meeting.organiser_slack_id
        "The organiser must link a calendar before cancelling."
  perform (cancel_event token event_id)
  pure tt

abbrev pub cancel : Meeting → Meeting
cancel m = record m { status = cancelled }

unfoldable pub cancel_found : TokenCipher → String → String → Option Meeting → Exec Meeting
unfolding cancel_event_of
cancel_found cipher team_id user none =
    raise (meeting_confirmation "No meeting with that id in this workspace.")
cancel_found cipher team_id user (some meeting) = do
  refuse_if (not (meeting.organiser_slack_id == user)) "Only the meeting organiser can cancel it."
  refuse_if (meeting.status == cancelled) "Meeting is already cancelled."
  cancel_event_of cipher team_id meeting (event_to_cancel meeting.status meeting.google_event_id)
  modify (write meeting.id cancel)
  pure (cancel meeting)

unfoldable pub cancel_meeting : TokenCipher → String → Uuid → String → Exec Meeting
unfolding find_meeting cancel_found
cancel_meeting cipher team_id meeting_id requesting_slack_user_id = do
  meeting ← find_meeting team_id meeting_id
  cancel_found cipher team_id requesting_slack_user_id meeting
