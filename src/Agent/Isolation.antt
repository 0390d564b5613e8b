-- ===== src/Agent/Isolation.antt =====
-- An agent turn for one team leaves the rows of every other team alone.
use hound_bot.Services.Meetings.Propose.{participant_row}
use hound_bot.Base.{
  ◌≡◌, refl, String, Bool, true, not, List, [], ◌∷◌, ◌++◌, ◌==◌, string_eq, ==_refl, select, update,
  arith, Bool-cases, inl, inr, ==_sound, &&-eq-true,
}
use hound_bot.Models.{Db, User, Task, Reminder, Meeting, MeetingParticipant}
use hound_bot.Exec.{World}
use hound_bot.Repositories.Users
use hound_bot.Services.Keeps.{WriteLaws}
use hound_bot.Agent.Tools.{AgentContext}
use hound_bot.Agent.Loop.{run_agent_turn}
use hound_bot.Agent.Keeps

module _ {Row : Type 0} (team_of : Row → String) (team : String) where
  abbrev pub elsewhere : List Row → List Row
  elsewhere rows = select (λ r. not (team_of r == team)) rows

  elsewhere-add :
      (rows : List Row) (r : Row) → team_of r ≡ team → elsewhere (rows ++ r ∷ []) ≡ elsewhere rows
  elsewhere-add [] r own = rw (own, ==_refl team) refl
  elsewhere-add (x ∷ rows) r own = ground (arith, elsewhere-add rows r own)

  elsewhere-update :
      (p : Row → Bool) (f : Row → Row) (rows : List Row)
      → ((r : Row) → p r ≡ true → team_of r ≡ team)
      → ((r : Row) → team_of (f r) ≡ team_of r)
      → elsewhere (update p f rows) ≡ elsewhere rows
  elsewhere-update p f [] own keep = refl
  elsewhere-update p f (x ∷ rows) own keep = elim (Bool-cases (p x)) [
    | inl h ↦ rw (h, keep x, own x h, ==_refl team) (elsewhere-update p f rows own keep)
    | inr h ↦ rw (h, elsewhere-update p f rows own keep) refl
  ]

-- The rows of the other teams in the tables that the agent writes to, and the other tables.
abbrev pub other_teams : String → Db → Db
other_teams team db = record db {
  users = elsewhere (λ u. u.team_id) team db.users;
  tasks = elsewhere (λ t. t.team_id) team db.tasks;
  reminders = elsewhere (λ r. r.team_id) team db.reminders;
  meetings = elsewhere (λ m. m.team_id) team db.meetings;
  participants = elsewhere (λ p. p.team_id) team db.participants;
}

isolates : (team : String) → WriteLaws (other_teams team) team
isolates team = record {
  keep_task = λ t own db. rw (elsewhere-add (λ (t : Task). t.team_id) team db.tasks t own) refl;
  keep_reminder =
      λ r own db. rw (elsewhere-add (λ (r : Reminder). r.team_id) team db.reminders r own) refl;
  keep_users = record {
    keep_user = λ u own db. rw (elsewhere-add (λ (u : User). u.team_id) team db.users u own) refl;
    keep_user_write = λ user f keep db.
        rw
          (elsewhere-update (λ (u : User). u.team_id) team (Users.is_row team user) f db.users
            (λ u h. ==_sound u.team_id team (&&-eq-true _ _ h).0) keep)
          refl;
  };
  keep_meeting =
      λ m own db. rw (elsewhere-add (λ (m : Meeting). m.team_id) team db.meetings m own) refl;
  keep_participant = λ id p db.
      rw
        (elsewhere-add (λ (p : MeetingParticipant). p.team_id) team db.participants
          (participant_row team id p) refl)
        refl;
}

-- Whatever the language model answers and however the turn ends, a turn of the agent for a team
-- leaves every user, task, reminder, meeting and participant of every other team as it was, and the
-- workspaces, the jobs, the seen events and the OAuth states altogether.
pub run_agent_turn-isolates :
    (ctx : AgentContext) (api_key user_message : String) (w : World)
    → other_teams ctx.team_id (run_agent_turn ctx api_key user_message w).1.db
      ≡ other_teams ctx.team_id w.db
run_agent_turn-isolates ctx api_key user_message w =
    (Keeps.run_agent_turn (other_teams ctx.team_id) ctx (isolates ctx.team_id) api_key
        user_message).at
      w
