-- ===== src/Services/Keeps/Meetings.antt =====
-- Proposing a meeting for a team: what is left alone.
use hound_bot.Base.{◌≡◌, refl, String, Option, none, some, List, [], ◌∷◌}
use hound_bot.Time.{DateTime, TimeDelta}
use hound_bot.Models.{Db, User, Bytes, Uuid, Meeting}
use hound_bot.Exec.{
  Result, ok, err, overflow_error, multiple_results_found, value_error, runtime_error,
  task_authorization, meeting_confirmation, invalid_grant, google_oauth, slack_oauth, missing_key,
  index_out_of_range, agent_error, external, http_exception, BusyBlock, modify,
}
use hound_bot.Exec.Laws.{Leaves, on_db, Leaves-modify, leaves_rules}
use hound_bot.Core.Security.{TokenCipher}
use hound_bot.Services.Meetings.Propose
use hound_bot.Services.Meetings.Propose.{Availability}
use hound_bot.Services.Keeps.{
  UserLaws, WriteLaws, open_repository, cipher-decrypt, user-get, get_or_create,
  mark_google_link_broken,
}

module _ {X : Type 0} (g : Db → X) (team : String) (laws : UserLaws g team) where
  after_freebusy :
      (p tz : String) (acc : Availability) (r : Result (List BusyBlock))
      → Leaves (on_db g) (Propose.after_freebusy team p tz acc r)
  unfolding Propose.after_freebusy
  after_freebusy p tz acc (err invalid_grant) =
      search (leaves_rules, mark_google_link_broken g team laws)
  after_freebusy p tz acc (ok b) = search leaves_rules
  after_freebusy p tz acc (err overflow_error) = search leaves_rules
  after_freebusy p tz acc (err multiple_results_found) = search leaves_rules
  after_freebusy p tz acc (err (value_error m)) = search leaves_rules
  after_freebusy p tz acc (err (runtime_error m)) = search leaves_rules
  after_freebusy p tz acc (err (task_authorization m)) = search leaves_rules
  after_freebusy p tz acc (err (meeting_confirmation m)) = search leaves_rules
  after_freebusy p tz acc (err (google_oauth m)) = search leaves_rules
  after_freebusy p tz acc (err (slack_oauth m)) = search leaves_rules
  after_freebusy p tz acc (err (missing_key m)) = search leaves_rules
  after_freebusy p tz acc (err index_out_of_range) = search leaves_rules
  after_freebusy p tz acc (err (agent_error m)) = search leaves_rules
  after_freebusy p tz acc (err (external m)) = search leaves_rules
  after_freebusy p tz acc (err (http_exception n m)) = search leaves_rules

  module _ (c : TokenCipher) (from to : DateTime) where
    check_linked :
        (p : String) (acc : Availability) (u : User) (o : Option Bytes)
        → Leaves (on_db g) (Propose.check_linked team c from to p acc u o)
    unfolding Propose.check_linked
    check_linked p acc u none = search leaves_rules
    check_linked p acc u (some enc) =
        search (leaves_rules, cipher-decrypt g, after_freebusy) depth 9

    check_user :
        (p : String) (acc : Availability) (o : Option User)
        → Leaves (on_db g) (Propose.check_user team c from to p acc o)
    unfolding Propose.check_user
    check_user p acc none = search leaves_rules
    check_user p acc (some u) = check_linked p acc u u.google_refresh_token_enc

    pub check_participants :
        (ps : List String) (acc : Availability)
        → Leaves (on_db g) (Propose.check_participants team c from to ps acc)
    unfolding Propose.check_participants
    check_participants [] acc = search leaves_rules
    check_participants (p ∷ ps) acc =
        search (leaves_rules, user-get g, check_user, check_participants ps) depth 9

  pub search_slot :
      (busy : List (String × List BusyBlock)) (zones : List (String × String)) (d : TimeDelta)
      (from to : DateTime)
      → Leaves (on_db g) (Propose.search_slot busy zones d from to)
  unfolding Propose.search_slot
  search_slot [] zones d from to = search leaves_rules
  search_slot (b ∷ bs) zones d from to = search leaves_rules

module _ {X : Type 0} (g : Db → X) (team : String) (laws : WriteLaws g team) where
  add_meeting :
      (m : Meeting) → m.team_id ≡ team → Leaves (on_db g) (modify (Propose.insert_meeting team m))
  add_meeting m own = Leaves-modify g _ (laws.keep_meeting m own)

  add_participant :
      (id : Uuid) (p : String) → Leaves (on_db g) (modify (Propose.insert_participant team id p))
  add_participant id p = Leaves-modify g _ (laws.keep_participant id p)

  store_proposal :
      (organiser : String) (d : TimeDelta) (everyone unavailable : List String)
      (o : Option DateTime)
      → Leaves (on_db g) (Propose.store_proposal team organiser d everyone unavailable o)
  unfolding Propose.store_proposal
  store_proposal organiser d everyone unavailable none = search leaves_rules
  store_proposal organiser d everyone unavailable (some s) =
      search (leaves_rules, add_new, add_participant) depth 12
    where
      add_new :
          (id : Uuid) (t : DateTime)
          → Leaves
              (on_db g)
              (modify (Propose.insert_meeting team (Propose.new_meeting team id t organiser d s)))
      add_new id t = add_meeting _ refl

  pub propose_meeting :
      (c : TokenCipher) (organiser : String) (ps : List String) (d : TimeDelta) (from to : DateTime)
      → Leaves (on_db g) (Propose.propose_meeting c team organiser ps d from to)
  unfolding Propose.propose_meeting
  propose_meeting c organiser ps d from to =
      search
        (
          leaves_rules,
          open_repository g,
          get_or_create g team laws.keep_users,
          check_participants g team laws.keep_users,
          search_slot g team laws.keep_users,
          store_proposal,
        )
        depth 12
