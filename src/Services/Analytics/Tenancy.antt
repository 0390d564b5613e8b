-- ===== src/Services/Analytics/Tenancy.antt =====
-- What the digest and the list of tasks say of a team depends on the rows of that team alone.
use hound_bot.Exec.Agrees.{
  Agrees, Agrees-query, agrees_rules, answers, Agrees-then, Agrees-raise_if,
}
use hound_bot.Base.{
  ◌≡◌, refl, ◌∙◌, ap, sym, String, Option, Bool, true, ◌&&◌, List, [], ◌∷◌, ◌==◌, string_eq, select,
  length, arith,
}
use hound_bot.Time.{DateTime}
use hound_bot.Models.{Db, Task, Meeting}
use hound_bot.Exec.{World, query}
use hound_bot.Repositories.Tenant
use hound_bot.Repositories.Tasks as TaskRows
use hound_bot.Services.Analytics.{
  created_since, done_since, is_overdue, meeting_since, task_completion_rate, overdue_task_count,
  meeting_count_since, build_weekly_digest,
}
use hound_bot.Services.Tasks.{list_open_tasks, is_open_for}

-- A test that only the team's rows pass selects the same from any table with those rows.
select-own :
    {Row : Type 0} (own p : Row → Bool) (xs : List Row)
    → ((x : Row) → p x ≡ true → own x ≡ true)
    → select p (select own xs) ≡ select p xs
select-own own p [] sub = refl
select-own own p (x ∷ xs) sub = ground (arith, sub x, select-own own p xs sub)

abbrev pub own_task : String → Task → Bool
own_task team t = t.team_id == team

abbrev pub own_meeting : String → Meeting → Bool
own_meeting team m = m.team_id == team

pub record SameRows (team : String) (a b : Db) : Type 0 where
  pub tasks : select (own_task team) a.tasks ≡ select (own_task team) b.tasks
  pub meetings : select (own_meeting team) a.meetings ≡ select (own_meeting team) b.meetings

module _ (team : String) (a b : Db) (same : SameRows team a b) where
  same_tasks :
      (p : Task → Bool)
      → ((t : Task) → p t ≡ true → own_task team t ≡ true)
      → select p a.tasks ≡ select p b.tasks
  same_tasks p sub =
      sym (select-own (own_task team) p a.tasks sub)
      ∙ ap (select p) same.tasks
      ∙ select-own (own_task team) p b.tasks sub

  same_meetings :
      (p : Meeting → Bool)
      → ((m : Meeting) → p m ≡ true → own_meeting team m ≡ true)
      → select p a.meetings ≡ select p b.meetings
  same_meetings p sub =
      sym (select-own (own_meeting team) p a.meetings sub)
      ∙ ap (select p) same.meetings
      ∙ select-own (own_meeting team) p b.meetings sub

  own_tasks :
      (p : Task → Bool)
      → ((t : Task) → p t ≡ true → own_task team t ≡ true)
      → Agrees a b (query (λ db. length (select p db.tasks)))
  own_tasks p sub = Agrees-query a b _ (ap length (same_tasks p sub))

  rate-Agrees : (since : DateTime) → Agrees a b (task_completion_rate team since)
  unfolding task_completion_rate
  rate-Agrees since = search (agrees_rules, total, done)
    where
      total : Agrees a b (query (λ db. length (select (created_since team since) db.tasks)))
      total = own_tasks _ (λ t h. ground arith)

      done : Agrees a b (query (λ db. length (select (done_since team since) db.tasks)))
      done = own_tasks _ (λ t h. ground arith)

  overdue-Agrees : Agrees a b (overdue_task_count team)
  unfolding overdue_task_count
  overdue-Agrees = search (agrees_rules, overdue)
    where
      overdue :
          (t : DateTime) → Agrees a b (query (λ db. length (select (is_overdue team t) db.tasks)))
      overdue t = own_tasks _ (λ t h. ground arith)

  meetings-Agrees : (since : DateTime) → Agrees a b (meeting_count_since team since)
  unfolding meeting_count_since
  meetings-Agrees since =
      Agrees-query a b _
        (ap length (same_meetings (meeting_since team since) (λ m h. ground arith)))

  digest-Agrees : Agrees a b (build_weekly_digest team)
  unfolding build_weekly_digest
  digest-Agrees = search (agrees_rules, rate-Agrees, overdue-Agrees, meetings-Agrees) depth 24

  list-Agrees : (assignee : Option String) → Agrees a b (list_open_tasks team assignee)
  unfolding list_open_tasks Tenant.open_repository TaskRows.list Tenant.list Tenant.filter_by
  list-Agrees assignee = Agrees-then a b _ _ (Agrees-raise_if a b _ _) (
      Agrees-query a b _
        (same_tasks (λ t. own_task team t && is_open_for assignee t) (λ t h. ground arith)))

-- Two databases with the same tasks and meetings of a team, whatever the rows of the others are,
-- give the same weekly digest of that team and the same lists of its open tasks.
pub reads-own_rows :
    (team : String) (a b : Db) (w : World)
    → SameRows team a b
    → ((build_weekly_digest team (record w { db = a })).0
        ≡ (build_weekly_digest team (record w { db = b })).0)
      × ((assignee : Option String)
          → (list_open_tasks team assignee (record w { db = a })).0
            ≡ (list_open_tasks team assignee (record w { db = b })).0)
reads-own_rows team a b w same = (
  answers a b _ (digest-Agrees team a b same) w,
  λ assignee. answers a b _ (list-Agrees team a b same assignee) w,
)
