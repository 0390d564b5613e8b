-- ===== src/Repositories/OAuthStates/SingleUse.antt =====
-- A state is redeemed at most once, for its purpose and before it expires.
use hound_bot.Base.{
  ◌≡◌, refl, String, Bool, not, Option, none, some, List, [], ◌∷◌, ◌==◌, string_eq, ◌&&◌, leb,
  if◌then◌else◌, select, is_some, ◌⊎◌, inl, inr, arith,
}
use hound_bot.Models.{OAuthState, Purpose, purpose_eq}
use hound_bot.Exec.{Result, ok, err, multiple_results_found, World, exec}
use hound_bot.Repositories.OAuthStates

abbrev pub has : String → OAuthState → Bool
has = OAuthStates.has_state

pub select-removed :
    (state other : String) (rows : List OAuthState)
    → other ≡ state
    → select (has state) (select (λ r. not (has other r)) rows) ≡ []
select-removed state other [] h = refl
select-removed state other (r ∷ rs) h = ground (arith, select-removed state other rs h)

pub select_self :
    (state : String) (rows : List OAuthState) (r : OAuthState) (rest : List OAuthState)
    → select (has state) rows ≡ r ∷ rest
    → r.state ≡ state
select_self state [] r rest h = ground arith
select_self state (x ∷ xs) r rest h = ground (arith, select_self state xs r rest)

consume-gone :
    (state : String) (q : Purpose) (w : World)
    → select (has state) w.db.oauth_states ≡ []
    → OAuthStates.consume state q w ≡ (ok none, w)
unfolding OAuthStates.consume OAuthStates.find OAuthStates.take_row exec
consume-gone state q w h = ground arith

consume-removes :
    (state : String) (p : Purpose) (w : World) (l : List OAuthState)
    → select (has state) w.db.oauth_states ≡ l
    → let (r, v) = OAuthStates.consume state p w in
      (r ≡ err multiple_results_found) ⊎ (select (has state) v.db.oauth_states ≡ [])
unfolding OAuthStates.consume OAuthStates.find OAuthStates.take_row OAuthStates.redeem exec
consume-removes state p w [] e = inr (ground arith)
consume-removes state p w (r ∷ []) e =
    let own = select_self state w.db.oauth_states r [] e in
    inr (ground (arith, select-removed state r.state w.db.oauth_states own))
consume-removes state p w (r ∷ r' ∷ rs) e = inl (ground arith)

-- Either `consume` raises because the state has several rows, or, whatever it returned, a second
-- `consume` of that state, for whatever purpose, returns none and changes nothing.
pub consume-once :
    (state : String) (p q : Purpose) (w : World)
    → let (r, v) = OAuthStates.consume state p w in
      (r ≡ err multiple_results_found) ⊎ (OAuthStates.consume state q v ≡ (ok none, v))
consume-once state p q w = elim (consume-removes state p w _ refl) [
  | inl e ↦ inl e
  | inr e ↦ inr (consume-gone state q _ e)
]

-- Of a state that has exactly one row, `consume` returns that row where the row has the expected
-- purpose and has not expired when the clock is read, and none otherwise.
pub consume-valid :
    (state : String) (p : Purpose) (w : World) (row : OAuthState)
    → select (has state) w.db.oauth_states ≡ row ∷ []
    → (OAuthStates.consume state p w).0
      ≡ ok (
          if row.purpose == p && leb (w.outside.clock w.calls) row.expires_at
          then some row
          else none)
unfolding OAuthStates.consume OAuthStates.find OAuthStates.take_row OAuthStates.redeem exec
consume-valid state p w row h = ground arith

abbrev pub was_found : Result (Option OAuthState) → Result Bool
was_found (ok o) = ok (is_some o)
was_found (err e) = err e

-- `peek_valid` says what `consume` would do at that moment: true where it would return a row, false
-- where it would return none, and the same exception; and it leaves the tables as they are.
pub peek_valid-consume :
    (state : String) (p : Purpose) (w : World)
    → let (r, v) = OAuthStates.peek_valid state p w in
      (r ≡ was_found (OAuthStates.consume state p w).0) × (v.db ≡ w.db)
unfolding OAuthStates.consume OAuthStates.find OAuthStates.take_row OAuthStates.redeem
    OAuthStates.peek_valid OAuthStates.check_valid exec
peek_valid-consume state p w = ground arith
