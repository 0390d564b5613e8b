-- ===== src/Services/Analytics/Rate.antt =====
-- The completion rate is a fraction, and it is full just where nothing is left to do.
use hound_bot.Base.{
  ℕ, ◌≡◌, ◌≤◌, refl, ◌↔◌, String, Bool, false, not, ◌&&◌, List, [], ◌∷◌, ◌==◌, string_eq, nat_eq,
  select, length, any, arith, Bool-cases, inl, inr,
}
use hound_bot.Time.{DateTime}
use hound_bot.Models.{Task, done_status, task_status_eq}
use hound_bot.Exec.{ok, World, exec}
use hound_bot.Services.Analytics.{created_since, done_since, task_completion_rate}

abbrev pub is_unfinished : String → DateTime → Task → Bool
is_unfinished team since t = created_since team since t && not (t.status == done_status)

done_le :
    (team : String) (since : DateTime) (ts : List Task)
    → length (select (done_since team since) ts) ≤ length (select (created_since team since) ts)
done_le team since [] = omega arith
done_le team since (t ∷ ts) = ground (arith, done_le team since ts)

done_all :
    (team : String) (since : DateTime) (ts : List Task)
    → (length (select (done_since team since) ts) ≡ length (select (created_since team since) ts))
      ↔ (any (is_unfinished team since) ts ≡ false)
done_all team since [] = (λ h. refl, λ h. refl)
done_all team since (t ∷ ts) =
    let le = done_le team since ts in
    let (to, from) = done_all team since ts in
    (λ h. ground (arith, le, to), λ h. ground (arith, from))

-- The rate of a team since a moment is a fraction `done / total` of whole numbers with
-- `0 < total` and `done ≤ total`, and it is full, `done ≡ total`, just where no task of the team
-- that was created since then is unfinished; so it is full where no task was created.
pub task_completion_rate-bounds :
    (team : String) (since : DateTime) (w : World)
    → (done total : ℕ) × ((task_completion_rate team since w).0 ≡ ok (done, total))
      × (1 ≤ total)
      × (done ≤ total)
      × ((done ≡ total) ↔ (any (is_unfinished team since) w.db.tasks ≡ false))
unfolding task_completion_rate exec
task_completion_rate-bounds team since w =
    elim (Bool-cases (length (select (created_since team since) w.db.tasks) == 0)) [
      | inl h ↦ (
        1,
        1,
        rw h refl,
        omega arith,
        omega arith,
        (
          λ e. (done_all team since w.db.tasks).0 (ground (arith, done_le team since w.db.tasks)),
          λ e. refl,
        ),
      )
      | inr h ↦ (
        _,
        _,
        rw h refl,
        ground arith,
        done_le team since w.db.tasks,
        done_all team since w.db.tasks,
      )
    ]
