-- ===== src/Services/Analytics.antt =====
-- app/services/analytics_service.py: the counts of the weekly digest.
-- The completion rate is the pair of numbers whose quotient the source returns.
pub mod Rate
pub mod Tenancy
use hound_bot.Base.{
  ℕ, ◌*◌, String, ◌<>◌, Bool, ◌&&◌, ◌==◌, string_eq, nat_eq, select, length, leb, ltb,
  if◌then◌else◌,
}
use hound_bot.Time.{DateTime, day, sub_delta}
use hound_bot.Models.{Task, Meeting, open_status, done_status, task_status_eq}
use hound_bot.Exec.{overflow_error, Exec, pure, or_raise, query, ask, ◌>>=◌, now}

abbrev pub created_since : String → DateTime → Task → Bool
created_since team_id since t = t.team_id == team_id && leb since t.created_at

abbrev pub done_since : String → DateTime → Task → Bool
done_since team_id since t =
    t.team_id == team_id && leb since t.created_at && t.status == done_status

-- `done / total`, and 1.0 where no task was created.
unfoldable pub task_completion_rate : String → DateTime → Exec (ℕ × ℕ)
task_completion_rate team_id since = do
  total ← query (λ db. length (select (created_since team_id since) db.tasks))
  done ← query (λ db. length (select (done_since team_id since) db.tasks))
  pure (if total == 0 then (1, 1) else (done, total))

abbrev pub is_overdue : String → DateTime → Task → Bool
is_overdue team_id t task =
    task.team_id == team_id && task.status == open_status && ltb task.due_at_utc t

unfoldable pub overdue_task_count : String → Exec ℕ
overdue_task_count team_id = do
  t ← now
  query (λ db. length (select (is_overdue team_id t) db.tasks))

abbrev pub meeting_since : String → DateTime → Meeting → Bool
meeting_since team_id since m = m.team_id == team_id && leb since m.created_at

unfoldable pub meeting_count_since : String → DateTime → Exec ℕ
meeting_count_since team_id since =
    query (λ db. length (select (meeting_since team_id since) db.meetings))

unfoldable pub build_weekly_digest : String → Exec String
unfolding task_completion_rate overdue_task_count meeting_count_since
build_weekly_digest team_id = do
  t ← now
  since ← or_raise overflow_error (sub_delta t (7 * day))
  rate ← task_completion_rate team_id since
  overdue ← overdue_task_count team_id
  meetings ← meeting_count_since team_id since
  text ← ask (λ o _. o.percent rate.0 rate.1)
  overdue_text ← ask (λ o _. o.decimal overdue)
  meetings_text ← ask (λ o _. o.decimal meetings)
  pure (
      "Weekly digest\n- Task completion rate: " <> text <> "\n- Overdue tasks: " <> overdue_text
      <> "\n- Meetings this week: " <> meetings_text)
