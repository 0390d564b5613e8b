-- ===== src/Services/Parsers.antt =====
-- app/services/task_command_parser.py and meet_command_parser.py: the explicit syntax of /task add
-- and /meet. `datetime.fromisoformat`, the repr of a text and the text of an integer are parameters.
-- A result is the fields or the text of the error that the source raises.
pub mod Accepted
use hound_bot.Base.{
  nat_eq, ℕ, String, ◌<>◌, Bool, true, false, not, ◌&&◌, Option, none, some, List, [], ◌∷◌, ◌==◌,
  string_eq, length, leb, ◌⊎◌, inl, inr, if◌then◌else◌,
}
use hound_bot.Base.Int.{ℤ, pos, negsuc}
use hound_bot.Time.{DateTime}
use hound_bot.Exec.{Error, Result, ok, err, overflow_error}
use hound_bot.Text.{strip, lstrip, codes, parse_int}
use hound_bot.Text.Mention.{match_mention}
use hound_bot.Text.Split.{
  after_prefix, last_word, rpartition_bar, split_bar, whole_int, starts_lower, scan_mentions,
}

-- `datetime.fromisoformat(raw)`: ValueError, no time zone, or a time, which as UTC may be out of
-- range.
pub data IsoTime : Type 0 where
  invalid naive out_of_range : IsoTime
  aware : DateTime → IsoTime

pub record AddFields : Type 0 where
  pub assignee : String
  pub title : String
  pub due_at_utc : DateTime
  pub recurrence_interval_days : Option ℕ

pub record MeetFields : Type 0 where
  pub participants : List String
  pub duration_minutes : ℤ
  pub window_start : DateTime
  pub window_end : DateTime

abbrev pub Parsed : Type 0 → Type 0
Parsed A = Result (A ⊎ String)

abbrev pub refuse : {A : Type 0} → String → Parsed A
refuse text = ok (inr text)

abbrev pub missing_due : String
missing_due = "Missing ' | <due date>' — an explicit ISO 8601 date/time is required"

abbrev pub meet_usage : String
meet_usage =
    "Usage: /meet @user1 @user2 30 | 2026-09-10T09:00+00:00 | 2026-09-10T17:00+00:00\n(duration in minutes, then the search window as two ISO 8601 timestamps with timezones)"

module _ (fromisoformat : String → IsoTime) (repr : String → String) (str : ℤ → String) where
  unfoldable pub with_due : String → String → Option ℕ → String → IsoTime → Parsed AddFields
  with_due assignee title interval due_raw invalid =
      refuse ("Could not parse due date " <> repr due_raw <> " as ISO 8601")
  with_due assignee title interval due_raw naive = refuse (
      "Due date "
      <> repr due_raw
      <> " has no timezone — include one explicitly (e.g. 'Z' or '+00:00'); a guessed timezone is worse than an error")
  with_due assignee title interval due_raw out_of_range = err overflow_error
  with_due assignee title interval due_raw (aware due) = ok (
      inl (record {
        assignee = assignee;
        title = title;
        due_at_utc = due;
        recurrence_interval_days = interval;
      }))

  -- The last bar of what is left separates the title from the due date.
  unfoldable pub parse_due : String → Option ℕ → Option (String × String) → Parsed AddFields
  unfolding with_due
  parse_due assignee interval none = refuse missing_due
  parse_due assignee interval (some (title, due_raw)) =
      if strip title == ""
      then refuse "Task title cannot be empty"
      else with_due assignee (strip title) interval (strip due_raw) (fromisoformat (strip due_raw))

  unfoldable pub with_interval : String → String → ℤ → Parsed AddFields
  unfolding parse_due
  with_interval assignee rest (negsuc n) =
      refuse ("Recurrence interval must be a positive integer, got " <> str (negsuc n))
  with_interval assignee rest (pos n) =
      if n == 0
      then refuse ("Recurrence interval must be a positive integer, got " <> str (pos n))
      else parse_due assignee (some n) (rpartition_bar rest)

  abbrev pub repeat_int : Option String → Option ℤ
  repeat_int none = none
  repeat_int (some digits) = whole_int (codes digits)

  -- What the last segment is: `repeat:N`, something that begins like it, or the due date.
  unfoldable pub with_repeat : String → String → String → String → Option ℤ → Parsed AddFields
  unfolding with_interval parse_due
  with_repeat assignee rest before last (some interval) = with_interval assignee before interval
  with_repeat assignee rest before last none =
      if starts_lower (codes "repeat:") (codes last)
      then refuse (
          "Invalid recurrence format "
          <> repr last
          <> " — expected 'repeat:N' where N is a positive integer")
      else parse_due assignee none (rpartition_bar rest)

  unfoldable pub parse_segments : String → String → Option (String × String) → Parsed AddFields
  unfolding with_repeat
  parse_segments assignee rest none = refuse missing_due
  parse_segments assignee rest (some (before, last)) =
      with_repeat assignee rest before (strip last)
        (repeat_int (after_prefix "repeat:" (strip last)))

  unfoldable pub parse_mentioned : Option (String × String) → Parsed AddFields
  unfolding parse_segments
  parse_mentioned none =
      refuse "Usage: /task add @assignee Title | 2026-09-10T17:00+00:00 | repeat:7"
  parse_mentioned (some (assignee, after)) =
      parse_segments assignee (lstrip after) (rpartition_bar (lstrip after))

  unfoldable pub parse_task_add : String → Parsed AddFields
  unfolding parse_mentioned
  parse_task_add text = parse_mentioned (match_mention text)

  -- `_parse_utc_datetime`, with what follows.
  unfoldable pub with_utc_datetime :
      String → String → IsoTime → (DateTime → Parsed MeetFields) → Parsed MeetFields
  with_utc_datetime label raw invalid k =
      refuse ("Could not parse " <> label <> " " <> repr raw <> " as ISO 8601")
  with_utc_datetime label raw naive k = refuse (
      label
      <> " "
      <> repr raw
      <> " has no timezone — include one explicitly (e.g. 'Z' or '+00:00')")
  with_utc_datetime label raw out_of_range k = err overflow_error
  with_utc_datetime label raw (aware t) k = k t

  abbrev pub window_fields : List String → ℤ → DateTime → DateTime → Parsed MeetFields
  window_fields participants minutes start stop =
      if leb stop start
      then refuse "Window end must be after window start."
      else ok (
          inl (record {
            participants = participants;
            duration_minutes = minutes;
            window_start = start;
            window_end = stop;
          }))

  unfoldable pub window_from : List String → ℤ → String → DateTime → Parsed MeetFields
  unfolding with_utc_datetime
  window_from participants minutes end_raw start =
      with_utc_datetime "window end" end_raw (fromisoformat end_raw)
        (window_fields participants minutes start)

  unfoldable pub with_duration :
      List String → String → String → String → Option ℤ → Parsed MeetFields
  unfolding with_utc_datetime window_from
  with_duration participants duration_text start_raw end_raw none =
      refuse
        ("Could not parse duration " <> repr duration_text <> " as an integer number of minutes")
  with_duration participants duration_text start_raw end_raw (some minutes) =
      if not (leb 1 (length participants) && leb (length participants) 7)
      then refuse "Meetings support 2-8 participants total, including you."
      else with_utc_datetime "window start" start_raw (fromisoformat start_raw)
          (window_from participants minutes end_raw)

  unfoldable pub parse_head : List String → String → String → String → Parsed MeetFields
  unfolding with_duration
  parse_head [] duration_text start_raw end_raw =
      refuse ("Mention at least one other participant with @. " <> meet_usage)
  parse_head (p ∷ ps) duration_text start_raw end_raw =
      if duration_text == ""
      then refuse ("Missing meeting duration in minutes. " <> meet_usage)
      else with_duration (p ∷ ps) duration_text start_raw end_raw
          (parse_int (last_word duration_text))

  unfoldable pub parse_three : String → List String → Parsed MeetFields
  unfolding parse_head
  parse_three head (start_raw ∷ end_raw ∷ []) =
      let parts = scan_mentions (length (codes (strip head))) (strip head) in
      parse_head parts.0 (strip parts.1) (strip start_raw) (strip end_raw)
  parse_three head _ = refuse meet_usage

  unfoldable pub parse_meet_command : String → Parsed MeetFields
  unfolding parse_three
  parse_meet_command text = let segments = split_bar text in parse_three segments.0 segments.1
