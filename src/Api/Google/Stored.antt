-- ===== src/Api/Google/Stored.antt =====
-- What the last calls of the Google callback store, and what they leave where one fails.
use hound_bot.Base.{
  ◌≡◌, refl, ◌∙◌, ap, ℕ, String, true, Option, none, [], ◌∷◌, is_some, select, arith, subst,
}
use hound_bot.Json.{Json, Read, got, failed, key_error, index_error, wrong_type, column_text}
use hound_bot.Models.{Db, User, Bytes}
use hound_bot.Exec.{
  Outside, Result, ok, err, World, Exec, exec, continue, read, commit, ◌>>◌, ◌>>=◌,
}
use hound_bot.Exec.Laws.{tables_of, Tables}
use hound_bot.Repositories.Users
use hound_bot.Repositories.Users.{is_row, link}
use hound_bot.Repositories.Users.Linking.{
  other_row, OnlyUser, Created, get_or_create-Created, store_google_link-row,
}

-- A committed link: the user's only row has a token and the account's address and no broken link.
pub record IsStored (team user : String) (email : Json) (before : Db) (v : World) : Type 0 where
  pub committed : v.saved ≡ v.db
  pub row : User
  pub own : select (is_row team user) v.db.users ≡ row ∷ []
  pub has_token : is_some row.google_refresh_token_enc ≡ true
  pub unbroken : row.google_link_broken_at ≡ none
  pub address : column_text email ≡ got row.google_email
  pub others : select (other_row team user) v.db.users ≡ select (other_row team user) before.users
  pub tables : v.db ≡ record before { users = v.db.users }

module _ (team user : String) (email : Json) (before saved : Db) (o : Outside) where
  abbrev pub Stores : Result (Unit {0}) → World → Type 0
  Stores (ok _) v = IsStored team user email before v
  Stores (err e) v = v.saved ≡ saved

  abbrev write_row : Bytes → ℕ → Option String → Exec (Unit {0})
  write_row token version address =
      Users.store_google_link team user token version address >> commit

  stored :
      (token : Bytes) (version : ℕ) (address : Option String) (u : User) (mid : Db)
      (r : Result (Unit {0})) (x : World)
      → column_text email ≡ got address
      → OnlyUser team user before mid
      → r ≡ ok tt
      → select (is_row team user) x.db.users ≡ link token version address u ∷ []
      → OnlyUser team user mid x.db
      → let (r', v) = continue r (λ _. commit) x in Stores r' v
  unfolding exec
  stored token version address u mid (err x) v e first good own then = ground arith
  stored token version address u mid (ok _) v e first good own then = record {
    committed = refl;
    row = link token version address u;
    own = own;
    has_token = refl;
    unbroken = refl;
    address = e;
    others = then.others ∙ first.others;
    tables = then.tables ∙ ap (λ (db : Db). record db { users = v.db.users }) first.tables;
  }

  linked :
      (token : Bytes) (version : ℕ) (address : Option String) (u : User) (v : World)
      → column_text email ≡ got address
      → select (is_row team user) v.db.users ≡ u ∷ []
      → OnlyUser team user before v.db
      → let (r, v') = write_row token version address v in Stores r v'
  unfolding exec
  linked token version address u v e own first =
      let facts = store_google_link-row team user token version address u v own in
      stored token version address u v.db _ _ e first facts.0 facts.2 facts.3

  with_address :
      (token : Bytes) (version : ℕ) (u : User) (v : World) (c : Read (Option String))
      → column_text email ≡ c
      → v.saved ≡ saved
      → select (is_row team user) v.db.users ≡ u ∷ []
      → OnlyUser team user before v.db
      → let (r, v') = (read c >>= write_row token version) v in Stores r v'
  unfolding exec
  with_address token version u v (got address) e same own first =
      linked token version address u v e own first
  with_address token version u v (failed (key_error k)) e same own first = same
  with_address token version u v (failed index_error) e same own first = same
  with_address token version u v (failed wrong_type) e same own first = same

  -- Creating the row where it is missing, and the link.
  abbrev pub link_row : Bytes → ℕ → Exec (Unit {0})
  link_row token version = do
    Users.get_or_create team user "UTC"
    address ← read (column_text email)
    write_row token version address

  after_creation :
      (token : Bytes) (version : ℕ) (r : Result User) (w x : World)
      → tables_of w ≡ (before, saved, o)
      → Created team user w r x
      → let (r', v) = continue r (λ _. read (column_text email) >>= write_row token version) x in
        Stores r' v
  unfolding exec
  after_creation token version (err e) w x at h = ap (λ v. v.saved) h ∙ ap (λ t. t.1) at
  after_creation token version (ok u) w x at h =
      with_address token version u x (column_text email) refl
        (ap (λ (v : World). v.saved) h.0 ∙ ap (λ (t : Tables). t.1) at) h.1
        (subst (λ db. OnlyUser team user db x.db) (ap (λ (t : Tables). t.0) at) h.2)

  pub link_row-Stores :
      (token : Bytes) (version : ℕ) (w : World)
      → tables_of w ≡ (before, saved, o)
      → let (r, v) = link_row token version w in Stores r v
  unfolding exec
  link_row-Stores token version w at =
      after_creation token version _ w _ at (get_or_create-Created team user "UTC" w)
