-- ===== src/Services/Meetings/Propose.antt =====
-- app/services/meeting_service.py: `propose_meeting`, the search over the participants' calendars.
use hound_bot.Base.{
  String, Bool, ◌||◌, Option, none, some, List, [], ◌∷◌, ◌++◌, contains, string_eq, nat_eq, is_none,
  is_some, if◌then◌else◌,
}
use hound_bot.Time.{DateTime, TimeDelta, whole_minutes}
use hound_bot.Models.{
  Db, User, Meeting, MeetingParticipant, proposed, meeting_status_eq, Uuid, Bytes,
}
use hound_bot.Exec.{
  Result, ok, err, invalid_grant, external, BusyBlock, Exec, pure, raise, lift, ask, ◌>>=◌, ◌>>◌,
  modify, now, fresh_uuid, for_each,
}
use hound_bot.Core.Security.{TokenCipher, decrypt}
use hound_bot.Calendar.Intersection.{find_earliest_slot}
use hound_bot.Repositories.Tenant.{open_repository}
use hound_bot.Repositories.Users

pub record ProposalResult : Type 0 where
  pub meeting : Option Meeting
  pub slot_start_utc : Option DateTime
  pub unavailable_participants : List String

-- `list(dict.fromkeys(xs))`: each value once, in the order of its first place.
abbrev pub from_keys : List String → List String → List String
from_keys acc [] = acc
from_keys acc (x ∷ xs) = from_keys (if contains acc x then acc else acc ++ x ∷ []) xs

abbrev pub dedupe : List String → List String
dedupe xs = from_keys [] xs

-- `user.google_refresh_token_enc is None or user.google_link_broken_at`
abbrev pub is_unlinked : User → Bool
is_unlinked u = is_none u.google_refresh_token_enc || is_some u.google_link_broken_at

-- The dicts and the list that the loop over the participants fills.
pub record Availability : Type 0 where
  pub busy_by_participant : List (String × List BusyBlock)
  pub timezone_by_participant : List (String × String)
  pub unavailable : List String

abbrev pub nobody : Availability
nobody = record { busy_by_participant = []; timezone_by_participant = []; unavailable = [] }

abbrev pub add_unavailable : String → Availability → Availability
add_unavailable p a = record a { unavailable = a.unavailable ++ p ∷ [] }

abbrev pub add_busy : String → String → List BusyBlock → Availability → Availability
add_busy p tz blocks a = record a {
  busy_by_participant = a.busy_by_participant ++ (p, blocks) ∷ [];
  timezone_by_participant = a.timezone_by_participant ++ (p, tz) ∷ [];
}

module _ (team_id : String) where
  -- `except InvalidGrantError`; any other exception goes on.
  unfoldable pub after_freebusy :
      String → String → Availability → Result (List BusyBlock) → Exec Availability
  after_freebusy p tz acc (ok blocks) = pure (add_busy p tz blocks acc)
  after_freebusy p tz acc (err invalid_grant) = do
    Users.mark_google_link_broken team_id p
    pure (add_unavailable p acc)
  after_freebusy p tz acc (err e) = raise e

  module _ (cipher : TokenCipher) (window_start window_end : DateTime) where
    unfoldable pub check_linked : String → Availability → User → Option Bytes → Exec Availability
    unfolding after_freebusy
    check_linked p acc user none = pure (add_unavailable p acc)
    check_linked p acc user (some token_enc) =
        if is_some user.google_link_broken_at then pure (add_unavailable p acc) else do
          refresh_token ← decrypt cipher token_enc user.key_version
          busy ← ask (λ o n. o.busy_blocks n refresh_token window_start window_end)
          after_freebusy p user.tz acc busy

    unfoldable pub check_user : String → Availability → Option User → Exec Availability
    unfolding check_linked
    check_user p acc none = raise (external "AttributeError")
    check_user p acc (some user) = check_linked p acc user user.google_refresh_token_enc

    -- The second loop over `all_participants`.
    unfoldable pub check_participants : List String → Availability → Exec Availability
    unfolding check_user
    check_participants [] acc = pure acc
    check_participants (p ∷ ps) acc = do
      user ← Users.get team_id p
      acc' ← check_user p acc user
      check_participants ps acc'

  abbrev pub insert_meeting : Meeting → Db → Db
  insert_meeting m db = record db { meetings = db.meetings ++ m ∷ [] }

  abbrev pub participant_row : Uuid → String → MeetingParticipant
  participant_row id p = record { meeting_id = id; slack_user_id = p; team_id = team_id }

  abbrev pub insert_participant : Uuid → String → Db → Db
  insert_participant id p db = record db {
    participants = db.participants ++ participant_row id p ∷ [];
  }

  abbrev pub new_meeting : Uuid → DateTime → String → TimeDelta → DateTime → Meeting
  new_meeting id created_at organiser duration slot_start = record {
    id = id;
    team_id = team_id;
    organiser_slack_id = organiser;
    duration_min = whole_minutes duration;
    status = proposed;
    google_event_id = none;
    created_at = created_at;
    proposed_start_utc = some slot_start;
  }

  unfoldable pub store_proposal :
      String → TimeDelta → List String → List String → Option DateTime → Exec ProposalResult
  store_proposal organiser duration everyone unavailable none =
      pure
        (record { meeting = none; slot_start_utc = none; unavailable_participants = unavailable })
  store_proposal organiser duration everyone unavailable (some slot_start) = do
    id ← fresh_uuid
    t ← now
    modify (insert_meeting (new_meeting id t organiser duration slot_start))
    for_each everyone (λ p. modify (insert_participant id p))
    pure (record {
      meeting = some (new_meeting id t organiser duration slot_start);
      slot_start_utc = some slot_start;
      unavailable_participants = unavailable;
    })

-- `if busy_by_participant:`
unfoldable pub search_slot :
    List (String × List BusyBlock)
    → List (String × String)
    → TimeDelta
    → DateTime
    → DateTime
    → Exec (Option DateTime)
search_slot [] zones duration window_start window_end = pure none
search_slot (b ∷ bs) zones duration window_start window_end = do
  answer ←
      ask (λ o _. find_earliest_slot o.local_time (b ∷ bs) zones duration window_start window_end)
  lift answer

unfoldable pub propose_meeting :
    TokenCipher
    → (team_id organiser_slack_id : String) (participant_slack_ids : List String)
    → (duration : TimeDelta) (window_start window_end : DateTime) → Exec ProposalResult
unfolding check_participants search_slot store_proposal
propose_meeting cipher team_id organiser participants duration window_start window_end = do
  open_repository team_id
  let everyone = dedupe (organiser ∷ participants)
  for_each everyone (λ p. Users.get_or_create team_id p "UTC" >> pure tt)
  found ← check_participants team_id cipher window_start window_end everyone nobody
  slot_start ←
      search_slot found.busy_by_participant found.timezone_by_participant duration window_start
        window_end
  store_proposal team_id organiser duration everyone found.unavailable slot_start
