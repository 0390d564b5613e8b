-- ===== src/Services/Meetings/Proposal.antt =====
-- What `propose_meeting` stores.
use hound_bot.Base.{
  String, Option, none, some, List, [], ◌∷◌, ◌++◌, ◌≡◌, refl, ◌∙◌, ap, sym, append_assoc,
  append-nil, suc,
}
use hound_bot.Time.{DateTime, TimeDelta, whole_minutes}
use hound_bot.Models.{Db, Meeting, MeetingParticipant, Uuid, proposed}
use hound_bot.Exec.{World, Exec, Result, ok, err, exec, ◌>>=◌, ◌>>◌, for_each, modify}
use hound_bot.Exec.Laws.{Leaves, on_db, EndsFrom, EndsFrom-bind, leaves_rules}
use hound_bot.Core.Security.{TokenCipher}
use hound_bot.Services.Keeps as Keeps
use hound_bot.Services.Keeps.{UserLaws}
use hound_bot.Services.Keeps.Meetings as MeetingKeeps
use hound_bot.Repositories.Tenant
use hound_bot.Services.Meetings.Propose
use hound_bot.Services.Meetings.Roster.{IsRoster, dedupe-IsRoster}
use hound_bot.Services.Meetings.Propose.{ProposalResult, propose_meeting, dedupe}

-- The tables that a proposal adds to.
abbrev pub agenda : Db → List Meeting × List MeetingParticipant
agenda db = (db.meetings, db.participants)

keeps_agenda : (team : String) → UserLaws agenda team
keeps_agenda team = record {
  keep_user = λ u own db. refl;
  keep_user_write = λ user f keep db. refl;
}

-- The rows of the participants, each once.
abbrev pub rows_for : String → Uuid → List String → List MeetingParticipant
rows_for team id [] = []
rows_for team id (p ∷ ps) = Propose.participant_row team id p ∷ rows_for team id ps

-- The rows of a proposal: of the meeting, and of everyone who takes part.
abbrev Stores :
    String → String → List String → TimeDelta → Db → Db → Option Meeting → Option DateTime → Type 0
Stores team organiser everyone duration before after none none = agenda after ≡ agenda before
Stores team organiser everyone duration before after (some m) (some start) =
    (after.meetings ≡ before.meetings ++ m ∷ [])
    × (after.participants ≡ before.participants ++ rows_for team m.id everyone)
    × (m.team_id ≡ team)
    × (m.organiser_slack_id ≡ organiser)
    × (m.status ≡ proposed)
    × (m.duration_min ≡ whole_minutes duration)
    × (m.proposed_start_utc ≡ some start)
Stores team organiser everyone duration before after none (some start) = ⊥
Stores team organiser everyone duration before after (some m) none = ⊥

abbrev pub Proposes :
    String → String → List String → TimeDelta → Db → Result ProposalResult → Db → Type 0
Proposes team organiser everyone duration before (err e) after = agenda after ≡ agenda before
Proposes team organiser everyone duration before (ok r) after =
    Stores team organiser everyone duration before after r.meeting r.slot_start_utc

abbrev with_rows : List MeetingParticipant → World → World
with_rows rows w = record w { db = record w.db { participants = w.db.participants ++ rows } }

for_each-rows :
    (team : String) (id : Uuid) (ps : List String) (w : World)
    → for_each ps (λ p. modify (Propose.insert_participant team id p)) w
      ≡ (ok tt, with_rows (rows_for team id ps) w)
unfolding exec for_each
for_each-rows team id [] w =
    ap
      (λ (l : List MeetingParticipant). (ok tt, record w { db = record w.db { participants = l } }))
      (sym (append-nil w.db.participants))
for_each-rows team id (p ∷ ps) w =
    for_each-rows team id ps (record w { db = Propose.insert_participant team id p w.db })
    ∙ ap
        (λ (l : List MeetingParticipant).
          (ok tt, record w { db = record w.db { participants = l } }))
        (append_assoc w.db.participants (Propose.participant_row team id p ∷ [])
          (rows_for team id ps))

module _ (team organiser : String) (duration : TimeDelta) (everyone : List String)
    (before : Db) where
  store_proposal-Stores :
      (unavailable : List String) (slot : Option DateTime) (w : World)
      → agenda w.db ≡ agenda before
      → let (r, v) = Propose.store_proposal team organiser duration everyone unavailable slot w in
        Proposes team organiser everyone duration before r v.db
  unfolding Propose.store_proposal exec
  store_proposal-Stores unavailable none w at = at
  store_proposal-Stores unavailable (some start) w at =
      let id = w.outside.uuid4 w.calls in
      let m =
        Propose.new_meeting team id (w.outside.clock (suc w.calls)) organiser duration start in
      let u = record w { db = Propose.insert_meeting team m w.db; calls = suc (suc w.calls) } in
      rw (for_each-rows team id everyone u) (
        ap (λ (a : List Meeting × List MeetingParticipant). a.0 ++ m ∷ []) at,
        ap (λ (a : List Meeting × List MeetingParticipant). a.1 ++ rows_for team id everyone) at,
        refl,
        refl,
        refl,
        refl,
        refl,
      )

-- `propose_meeting` either raises, or finds no slot, and then adds no meeting and no participant; or
-- it returns a slot and a meeting, and adds exactly that meeting: of the team, by the organiser,
-- proposed for that slot and the duration in whole minutes; and for it one row for each of
-- its roster: the organiser first, then the participants, each once and no one else.
pub propose_meeting-Proposes :
    (cipher : TokenCipher) (team organiser : String) (participants : List String)
    (duration : TimeDelta) (window_start window_end : DateTime) (w : World)
    → let (r, v) =
        propose_meeting cipher team organiser participants duration window_start window_end w in
      let everyone = dedupe (organiser ∷ participants) in
      IsRoster organiser participants everyone
      × Proposes team organiser everyone duration w.db r v.db
unfolding propose_meeting ◌>>=◌ ◌>>◌ Tenant.open_repository
propose_meeting-Proposes cipher team organiser participants duration window_start window_end w = (
  dedupe-IsRoster organiser participants,
  first (Tenant.open_repository team) _ (Keeps.open_repository agenda team)
      (λ _.
        first (for_each everyone _) _
          (search (leaves_rules, Keeps.get_or_create agenda team (keeps_agenda team)))
          (λ _.
            first
              (Propose.check_participants team cipher window_start window_end everyone
                Propose.nobody)
              _
              (MeetingKeeps.check_participants agenda team (keeps_agenda team) cipher window_start
                window_end everyone Propose.nobody)
              (λ found.
                first
                  (Propose.search_slot found.busy_by_participant found.timezone_by_participant
                    duration window_start window_end)
                  _
                  (MeetingKeeps.search_slot agenda team (keeps_agenda team)
                    found.busy_by_participant found.timezone_by_participant duration window_start
                    window_end)
                  (λ slot.
                    store_proposal-Stores team organiser duration everyone w.db found.unavailable
                      slot))))
      w refl,
)
  where
    everyone : List String
    everyone = dedupe (organiser ∷ participants)

    Ends : Exec ProposalResult → Type 0
    Ends =
        EndsFrom (on_db agenda) (agenda w.db)
          (λ r v. Proposes team organiser everyone duration w.db r v.db) (λ e v at. at)

    first :
        {B : Type 0} (m : Exec B) (k : B → Exec ProposalResult)
        → Leaves (on_db agenda) m
        → ((b : B) → Ends (k b))
        → Ends (m >>= k)
    first m k h hk =
        EndsFrom-bind (on_db agenda) (agenda w.db)
          (λ r v. Proposes team organiser everyone duration w.db r v.db) (λ e v at. at) m k h
          (λ b v at ok_b. hk b)
