-- ===== src/Services/Parsers/Accepted.antt =====
-- What is true of every command that the parsers accept.
use hound_bot.Base.{
  ℕ, ◌≤◌, ◌<◌, ◌≢◌, String, ◌&&◌, Option, none, some, List, [], ◌∷◌, ◌==◌, string_eq, nat_eq,
  length, leb, inl, inr, Bool-cases, arith,
}
use hound_bot.Base.Int.{ℤ, pos, negsuc}
use hound_bot.Time.{DateTime}
use hound_bot.Exec.{ok, err}
use hound_bot.Text.{strip, codes, lstrip}
use hound_bot.Text.Split.{rpartition_bar, starts_lower, split_bar}
use hound_bot.Text.Mention.{match_mention}
use hound_bot.Services.Parsers
use hound_bot.Services.Parsers.{
  IsoTime, invalid, naive, out_of_range, aware, AddFields, MeetFields, Parsed,
}

-- The predicate holds of the fields, if the parser accepts.
abbrev pub Accepted : {A : Type 0} → (A → Type 0) → Parsed A → Type 0
Accepted P (ok (inl f)) = P f
Accepted P (ok (inr text)) = Unit
Accepted P (err e) = Unit

abbrev pub IsPositive : Option ℕ → Type 0
IsPositive none = Unit
IsPositive (some n) = 1 ≤ n

abbrev pub IsTask : AddFields → Type 0
IsTask f = (f.title ≢ "") × IsPositive f.recurrence_interval_days

abbrev pub IsMeeting : MeetFields → Type 0
IsMeeting f =
    (1 ≤ length f.participants) × (length f.participants ≤ 7) × (f.window_start < f.window_end)

module _ (iso : String → IsoTime) (repr : String → String) (str : ℤ → String) where
  with_due :
      (assignee title : String) (interval : Option ℕ) (raw : String) (t : IsoTime)
      → title ≢ ""
      → IsPositive interval
      → Accepted IsTask (Parsers.with_due iso repr str assignee title interval raw t)
  unfolding Parsers.with_due
  with_due assignee title interval raw invalid h p = tt
  with_due assignee title interval raw naive h p = tt
  with_due assignee title interval raw out_of_range h p = tt
  with_due assignee title interval raw (aware due) h p = (h, p)

  parse_due :
      (assignee : String) (interval : Option ℕ) (o : Option (String × String))
      → IsPositive interval
      → Accepted IsTask (Parsers.parse_due iso repr str assignee interval o)
  unfolding Parsers.parse_due
  parse_due assignee interval none p = tt
  parse_due assignee interval (some (title, raw)) p = elim (Bool-cases (strip title == "")) [
    | inl e ↦ rw e tt
    | inr e ↦ rw e (with_due assignee (strip title) interval _ _ (λ n. ground arith) p)
  ]

  with_interval :
      (assignee rest : String) (interval : ℤ)
      → Accepted IsTask (Parsers.with_interval iso repr str assignee rest interval)
  unfolding Parsers.with_interval
  with_interval assignee rest (negsuc n) = tt
  with_interval assignee rest (pos n) = elim (Bool-cases (n == 0)) [
    | inl e ↦ rw e tt
    | inr e ↦ rw e (parse_due assignee (some n) (rpartition_bar rest) (ground arith))
  ]

  with_repeat :
      (assignee rest before last : String) (o : Option ℤ)
      → Accepted IsTask (Parsers.with_repeat iso repr str assignee rest before last o)
  unfolding Parsers.with_repeat
  with_repeat assignee rest before last (some interval) = with_interval assignee before interval
  with_repeat assignee rest before last none =
      elim (Bool-cases (starts_lower (codes "repeat:") (codes last))) [
        | inl s ↦ rw s tt
        | inr s ↦ rw s (parse_due assignee none (rpartition_bar rest) tt)
      ]

  parse_mentioned :
      (o : Option (String × String)) → Accepted IsTask (Parsers.parse_mentioned iso repr str o)
  unfolding Parsers.parse_mentioned Parsers.parse_segments
  parse_mentioned none = tt
  parse_mentioned (some (assignee, after)) = segments (rpartition_bar (lstrip after))
    where
      segments :
          (o : Option (String × String))
          → Accepted IsTask (Parsers.parse_segments iso repr str assignee (lstrip after) o)
      segments none = tt
      segments (some (before, last)) = with_repeat assignee (lstrip after) before (strip last) _

  window_fields :
      (ps : List String) (minutes : ℤ) (start stop : DateTime)
      → 1 ≤ length ps
      → length ps ≤ 7
      → Accepted IsMeeting (Parsers.window_fields iso repr str ps minutes start stop)
  window_fields ps minutes start stop lo hi = elim (Bool-cases (leb stop start)) [
    | inl e ↦ rw e tt
    | inr e ↦ rw e (lo, hi, ground arith)
  ]

  with_utc_datetime :
      (label raw : String) (t : IsoTime) (k : DateTime → Parsed MeetFields)
      → ((d : DateTime) → Accepted IsMeeting (k d))
      → Accepted IsMeeting (Parsers.with_utc_datetime iso repr str label raw t k)
  unfolding Parsers.with_utc_datetime
  with_utc_datetime label raw invalid k h = tt
  with_utc_datetime label raw naive k h = tt
  with_utc_datetime label raw out_of_range k h = tt
  with_utc_datetime label raw (aware t) k h = h t

  window_from :
      (ps : List String) (minutes : ℤ) (end_raw : String)
      → 1 ≤ length ps
      → length ps ≤ 7
      → (start : DateTime)
      → Accepted IsMeeting (Parsers.window_from iso repr str ps minutes end_raw start)
  unfolding Parsers.window_from
  window_from ps minutes end_raw lo hi start =
      with_utc_datetime "window end" end_raw (iso end_raw)
        (Parsers.window_fields iso repr str ps minutes start)
        (λ stop. window_fields ps minutes start stop lo hi)

  with_duration :
      (ps : List String) (text start_raw end_raw : String) (o : Option ℤ)
      → Accepted IsMeeting (Parsers.with_duration iso repr str ps text start_raw end_raw o)
  unfolding Parsers.with_duration
  with_duration ps text start_raw end_raw none = tt
  with_duration ps text start_raw end_raw (some minutes) =
      elim (Bool-cases (leb 1 (length ps) && leb (length ps) 7)) [
        | inl e ↦
            let h = window_from ps minutes end_raw (ground arith) (ground arith) in
            rw e (
              with_utc_datetime "window start" start_raw (iso start_raw)
                (Parsers.window_from iso repr str ps minutes end_raw) h)
        | inr e ↦ rw e tt
      ]

  parse_head :
      (ps : List String) (text start_raw end_raw : String)
      → Accepted IsMeeting (Parsers.parse_head iso repr str ps text start_raw end_raw)
  unfolding Parsers.parse_head
  parse_head [] text start_raw end_raw = tt
  parse_head (p ∷ ps) text start_raw end_raw = elim (Bool-cases (text == "")) [
    | inl e ↦ rw e tt
    | inr e ↦ rw e (with_duration (p ∷ ps) text start_raw end_raw _)
  ]

  parse_three :
      (head : String) (segments : List String)
      → Accepted IsMeeting (Parsers.parse_three iso repr str head segments)
  unfolding Parsers.parse_three
  parse_three head [] = tt
  parse_three head (a ∷ []) = tt
  parse_three head (a ∷ b ∷ []) = parse_head _ _ _ _
  parse_three head (a ∷ b ∷ c ∷ rest) = tt

  -- Whatever the text, a /task add command that is accepted has a title that is not empty, and an
  -- interval, if it has one, of at least a day; and a /meet command that is accepted has from one
  -- to seven participants and a window that ends after it starts.
  pub parsers-Accepted :
      (text : String)
      → Accepted IsTask (Parsers.parse_task_add iso repr str text)
        × Accepted IsMeeting (Parsers.parse_meet_command iso repr str text)
  unfolding Parsers.parse_task_add Parsers.parse_meet_command
  parsers-Accepted text =
      (parse_mentioned (match_mention text), parse_three (split_bar text).0 (split_bar text).1)
