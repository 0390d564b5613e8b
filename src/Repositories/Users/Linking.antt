-- ===== src/Repositories/Users/Linking.antt =====
-- What creating a user's row and linking a calendar to it leave in the table of users.
use hound_bot.Base.{
  ℕ, ◌≡◌, refl, ap, ◌∙◌, String, Bool, true, not, Option, List, [], ◌∷◌, ◌++◌, map, string_eq,
  ==_refl, select, select-append, select-update, select-not-update, append-nil, arith,
}
use hound_bot.Models.{Db, User, Bytes}
use hound_bot.Exec.{Result, ok, err, World, exec, scalar_one_or_none, ◌>>=◌}
use hound_bot.Repositories.Tenant
use hound_bot.Repositories.Users
use hound_bot.Repositories.Users.{is_row, link, unlinked, write}

abbrev pub other_row : String → String → User → Bool
other_row team user u = not (is_row team user u)

-- The database with other rows for one user, and all else as it was.
pub record OnlyUser (team user : String) (before after : Db) : Type 0 where
  pub others : select (other_row team user) after.users ≡ select (other_row team user) before.users
  pub tables : after ≡ record before { users = after.users }

-- After a call that creates the row where it is missing: the row is the only one.
abbrev pub Created : String → String → World → Result User → World → Type 0
Created team user w (err e) v = v ≡ w
Created team user w (ok u) v =
    (v ≡ record w { db = v.db })
    × (select (is_row team user) v.db.users ≡ u ∷ [])
    × OnlyUser team user w.db v.db

module _ (team user : String) where
  own_row : (tz : String) → is_row team user (unlinked team user tz) ≡ true
  own_row tz = ground (arith, ==_refl team, ==_refl user)

  created :
      (tz : String) (w : World) (rows : List User)
      → select (is_row team user) w.db.users ≡ rows
      → let (r, v) = (scalar_one_or_none rows >>= Users.add_unlinked team user tz) w in
        Created team user w r v
  unfolding Users.add_unlinked Tenant.add exec
  created tz w [] e = (
    refl,
    select-append (is_row team user) w.db.users _ ∙ new_row _ e,
    record {
      others = select-append (other_row team user) w.db.users _ ∙ no_other _;
      tables = refl;
    },
  )
    where
      new_row :
          (l : List User)
          → l ≡ []
          → l ++ select (is_row team user) (unlinked team user tz ∷ []) ≡ unlinked team user tz ∷ []
      new_row l h = rw (h, own_row tz) refl

      no_other :
          (l : List User) → l ++ select (other_row team user) (unlinked team user tz ∷ []) ≡ l
      no_other l = rw (own_row tz) (append-nil l)
  created tz w (u ∷ []) e = (refl, e, record { others = refl; tables = refl })
  created tz w (u ∷ u' ∷ us) e = refl

  pub get_or_create-Created :
      (tz : String) (w : World)
      → let (r, v) = Users.get_or_create team user tz w in Created team user w r v
  unfolding Users.get_or_create Users.get Tenant.get Tenant.filter_by exec
  get_or_create-Created tz w = created tz w _ refl

  -- A link is stored in the only row of the user; the call does not fail.
  pub store_google_link-row :
      (token : Bytes) (version : ℕ) (email : Option String) (u : User) (w : World)
      → select (is_row team user) w.db.users ≡ u ∷ []
      → let (r, v) = Users.store_google_link team user token version email w in
        (r ≡ ok tt)
        × (v ≡ record w { db = v.db })
        × (select (is_row team user) v.db.users ≡ link token version email u ∷ [])
        × OnlyUser team user w.db v.db
  unfolding Users.store_google_link Users.get Users.write_link Tenant.get Tenant.filter_by exec
  store_google_link-row token version email u w e = stored _ refl e
    where
      stored :
          (rows : List User)
          → select (is_row team user) w.db.users ≡ rows
          → rows ≡ u ∷ []
          → let (r, v) =
              (scalar_one_or_none rows >>= Users.write_link team user token version email) w in
            (r ≡ ok tt)
            × (v ≡ record w { db = v.db })
            × (select (is_row team user) v.db.users ≡ link token version email u ∷ [])
            × OnlyUser team user w.db v.db
      stored [] e h = ground arith
      stored (x ∷ []) e h = (
        refl,
        refl,
        select-update (is_row team user) (link token version email) w.db.users (λ x. refl)
            ∙ ap (map (link token version email)) (e ∙ h),
        record {
          others =
              select-not-update (is_row team user) (link token version email) w.db.users
                (λ x. refl);
          tables = refl;
        },
      )
      stored (x ∷ y ∷ l) e h = ground arith
