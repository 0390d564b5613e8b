-- ===== src/Tests/Meetings.antt =====
-- The search for a slot, booking and cancelling at the concrete world.
use hound_bot.Base.{Option, ◌≡◌, some, arith, ◌+◌, ◌*◌, refl, String, string_eq, List, [], ◌∷◌}
use hound_bot.Base.Int.{pos}
use hound_bot.Time.{DateTime, day, hour, minute}
use hound_bot.Exec.{BusyBlock, LocalTime}
use hound_bot.Exec.Laws.{state_of}
use hound_bot.Calendar.Intersection.{find_earliest_slot}
use hound_bot.Calendar.Intersection.Throughout.{clock_at}
use hound_bot.Calendar.Intersection.Search.{Answers, find_earliest_slot-Answers}
use hound_bot.Services.Meetings.Propose.{propose_meeting, dedupe}
use hound_bot.Services.Meetings.Roster.{IsRoster}
use hound_bot.Services.Meetings.Proposal.{Proposes, propose_meeting-Proposes}
use hound_bot.Services.Meetings.Booking.{confirm_meeting, cancel_meeting}
use hound_bot.Services.Meetings.Booking.Outcome.{Confirms, confirm_meeting-Confirms}
use hound_bot.Services.Meetings.Booking.Cancellation.{Cancels, cancel_meeting-Cancels}
use hound_bot.Calendar.Intersection.Total.{Returns, find_earliest_slot-Returns}
use hound_bot.Tests.Setting.{world, cipher, monday}

-- One participant is busy until half past nine, the other from ten to eleven.
abbrev busy : List (String × List BusyBlock)
busy =
    ("UA", record { start_utc = monday; end_utc = monday + 30 * minute } ∷ [])
    ∷ ("UB", record { start_utc = monday + hour; end_utc = monday + 2 * hour } ∷ [])
    ∷ []

abbrev zones : List (String × String)
zones = ("UA", "UTC") ∷ ("UB", "UTC") ∷ []

find_earliest_slot-Answers_example :
    Answers world.outside.local_time zones busy (pos (30 * minute)) (monday + day) monday (
      find_earliest_slot world.outside.local_time busy zones
        (pos (30 * minute))
        monday
        (monday + day))
unfolding string_eq
find_earliest_slot-Answers_example =
    find_earliest_slot-Answers world.outside.local_time busy zones (pos (30 * minute)) monday
      (monday + day) refl

confirm_meeting-Confirms_example :
    let (r, v) = confirm_meeting cipher "T1" 5 "UA" "Meeting" world in
    Confirms "T1" 5 "UA" "Meeting" (state_of world) r v
confirm_meeting-Confirms_example = confirm_meeting-Confirms cipher "T1" 5 "UA" "Meeting" world

cancel_meeting-Cancels_example :
    let (r, v) = cancel_meeting cipher "T1" 6 "UA" world in Cancels "T1" 6 "UA" (state_of world) r v
cancel_meeting-Cancels_example = cancel_meeting-Cancels cipher "T1" 6 "UA" world

utc_known : (t : DateTime) → (l : LocalTime) × (world.outside.local_time "UTC" t ≡ some l)
unfolding string_eq
utc_known t = (_, refl)

find_earliest_slot-Returns_example : Returns (
    find_earliest_slot world.outside.local_time busy zones
      (pos (30 * minute))
      monday
      (monday + day))
unfolding string_eq
find_earliest_slot-Returns_example =
    find_earliest_slot-Returns world.outside.local_time zones busy (30 * minute) (monday + day)
      (("UTC", refl, utc_known), (("UTC", refl, utc_known), tt)) (omega arith) (omega arith) monday
      (omega arith) refl

propose_meeting-Proposes_example :
    let (r, v) =
      propose_meeting cipher "T1" "UA"
        ("UB" ∷ "UA" ∷ [])
        (pos (30 * minute))
        monday
        (monday + day)
        world in
    IsRoster "UA" ("UB" ∷ "UA" ∷ []) (dedupe ("UA" ∷ "UB" ∷ "UA" ∷ []))
    × Proposes "T1" "UA" (dedupe ("UA" ∷ "UB" ∷ "UA" ∷ [])) (pos (30 * minute)) world.db r v.db
propose_meeting-Proposes_example =
    propose_meeting-Proposes cipher "T1" "UA" ("UB" ∷ "UA" ∷ []) (pos (30 * minute)) monday
      (monday + day) world

-- Every zone is on UTC, all the year.
abbrev all_utc : String → DateTime → Option LocalTime
all_utc tz t = some (clock_at 0 t)
