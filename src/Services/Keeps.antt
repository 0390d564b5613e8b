-- ===== src/Services/Keeps.antt =====
-- What the services leave alone when they work for one team: any view of the tables that the
-- writes of the repositories for that team keep.
pub mod Meetings
use hound_bot.Base.{◌≡◌, refl, ℕ, String, Option, none, some}
use hound_bot.Time.{DateTime}
use hound_bot.Models.{Db, Task, Reminder, User, Meeting, MeetingParticipant, Bytes, Uuid}
use hound_bot.Exec.{Exec, modify}
use hound_bot.Exec.Laws.{
  Leaves, on_db, Leaves-modify, leaves_rules, Leaves-then, Leaves-raise_if, Leaves-pure,
}
use hound_bot.Core.Security.{TokenCipher, decrypt, decrypt_with}
use hound_bot.Repositories.Tenant
use hound_bot.Repositories.Constraints.{references_workspace}
use hound_bot.Repositories.Users
use hound_bot.Repositories.Tasks
use hound_bot.Repositories.Reminders
use hound_bot.Services.Tasks as TaskService
use hound_bot.Services.Tasks.{TaskFields}
use hound_bot.Services.Meetings.Propose.{insert_meeting, insert_participant}

-- The view `g` of the tables is kept by every user's row that is added for the team and by every
-- assignment to one that leaves the row in its team.
pub record UserLaws {X : Type 0} (g : Db → X) (team : String) : Type 0 where
  pub keep_user : (u : User) → u.team_id ≡ team → (db : Db) → g (Users.insert u db) ≡ g db
  pub keep_user_write :
      (user : String) (f : User → User)
      → ((u : User) → (f u).team_id ≡ u.team_id)
      → (db : Db) → g (Users.write team user f db) ≡ g db

-- It is kept by every row that is added for the team.
pub record WriteLaws {X : Type 0} (g : Db → X) (team : String) : Type 0 where
  pub keep_task : (t : Task) → t.team_id ≡ team → (db : Db) → g (Tasks.insert t db) ≡ g db
  pub keep_reminder :
      (r : Reminder) → r.team_id ≡ team → (db : Db) → g (Reminders.insert r db) ≡ g db
  pub keep_users : UserLaws g team
  pub keep_meeting :
      (m : Meeting) → m.team_id ≡ team → (db : Db) → g (insert_meeting team m db) ≡ g db
  pub keep_participant :
      (id : Uuid) (p : String) (db : Db) → g (insert_participant team id p db) ≡ g db

module _ {X : Type 0} (g : Db → X) where
  pub open_repository : (team : String) → Leaves (on_db g) (Tenant.open_repository team)
  unfolding Tenant.open_repository
  open_repository team = search leaves_rules

  pub cipher-decrypt :
      (c : TokenCipher) (enc : Bytes) (version : ℕ) → Leaves (on_db g) (decrypt c enc version)
  unfolding decrypt
  cipher-decrypt c enc version = search (leaves_rules, decrypt_with_key)
    where
      decrypt_with_key : (o : Option String) → Leaves (on_db g) (decrypt_with enc o)
      decrypt_with_key none = search leaves_rules
      decrypt_with_key (some key) = search leaves_rules

  added :
      {Row : Type 0} (insert : Row → Db → Db) (row : Row)
      → ((db : Db) → g (insert row db) ≡ g db)
      → Leaves (on_db g) (Tenant.add insert row)
  unfolding Tenant.add
  added insert row kept =
      Leaves-then (on_db g) _ _ (Leaves-modify g _ kept) (Leaves-pure (on_db g) row)

  pub references-keeps : (team : String) → Leaves (on_db g) (references_workspace team)
  unfolding references_workspace
  references-keeps team = search leaves_rules

  pub user-get : (team user : String) → Leaves (on_db g) (Users.get team user)
  unfolding Users.get
  user-get team user = search leaves_rules

  pub list_open_tasks :
      (team : String) (assignee : Option String)
      → Leaves (on_db g) (TaskService.list_open_tasks team assignee)
  unfolding TaskService.list_open_tasks Tasks.list
  list_open_tasks team assignee = search (leaves_rules, open_repository)

module _ {X : Type 0} (g : Db → X) (team : String) (laws : UserLaws g team) where
  add_unlinked :
      (user tz : String) (o : Option User) → Leaves (on_db g) (Users.add_unlinked team user tz o)
  unfolding Users.add_unlinked
  add_unlinked user tz none = added g Users.insert _ (laws.keep_user _ refl)
  add_unlinked user tz (some u) = search leaves_rules

  pub get_or_create : (user tz : String) → Leaves (on_db g) (Users.get_or_create team user tz)
  unfolding Users.get_or_create
  get_or_create user tz = search (leaves_rules, user-get g, add_unlinked)

  write_broken :
      (user : String) (o : Option User) → Leaves (on_db g) (Users.write_broken team user o)
  unfolding Users.write_broken
  write_broken user none = search leaves_rules
  write_broken user (some u) = search (leaves_rules, written)
    where
      written :
          (t : DateTime)
          → Leaves
              (on_db g)
              (modify (Users.write team user (λ u. record u { google_link_broken_at = some t })))
      written t = Leaves-modify g _ (laws.keep_user_write user _ (λ u. refl))

  pub mark_google_link_broken :
      (user : String) → Leaves (on_db g) (Users.mark_google_link_broken team user)
  unfolding Users.mark_google_link_broken
  mark_google_link_broken user = search (leaves_rules, user-get g, write_broken)

module _ {X : Type 0} (g : Db → X) (team : String) (laws : WriteLaws g team) where
  pub reminder-create :
      (id : Uuid) (owner : String) (t : DateTime) (level : ℕ)
      → owner ≡ team
      → Leaves (on_db g) (Reminders.create id owner t level)
  unfolding Reminders.create
  reminder-create id owner t level own = search (leaves_rules, added)
    where
      added :
          (row : Uuid)
          → Leaves
              (on_db g)
              (modify (Reminders.insert (Reminders.new_reminder row id owner t level)))
      added row = Leaves-modify g _ (laws.keep_reminder _ own)

  pub task-add : (t : Task) → t.team_id ≡ team → Leaves (on_db g) (Tasks.add t)
  unfolding Tasks.add
  task-add t own = Leaves-then (on_db g) _ _ (Leaves-raise_if (on_db g) _ _) (
      Leaves-then (on_db g) _ _ (references-keeps g t.team_id)
        (added g Tasks.insert t (laws.keep_task t own)))

  create_upcoming :
      (id : Uuid) (owner : String) (fire t : DateTime)
      → owner ≡ team
      → Leaves (on_db g) (TaskService.create_upcoming id owner fire t)
  unfolding TaskService.create_upcoming
  create_upcoming id owner fire t own = search (leaves_rules, reminder-create)

  schedule_reminders :
      (id : Uuid) (owner : String) (due : DateTime)
      → owner ≡ team
      → Leaves (on_db g) (TaskService.schedule_reminders id owner due)
  unfolding TaskService.schedule_reminders
  schedule_reminders id owner due own =
      search (leaves_rules, reminder-create, create_upcoming) depth 12

  pub create_task :
      (f : TaskFields) → f.team_id ≡ team → Leaves (on_db g) (TaskService.create_task f)
  unfolding TaskService.create_task
  create_task f own =
      search (leaves_rules, open_repository g, task-add, schedule_reminders) depth 12
