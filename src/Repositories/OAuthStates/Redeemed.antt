-- ===== src/Repositories/OAuthStates/Redeemed.antt =====
-- What a redeemed state says, and what is left of it.
use hound_bot.Base.{
  ◌≡◌, refl, String, Bool, true, false, Option, none, some, List, [], ◌∷◌, ◌==◌, string_eq, leb,
  ltb, select, arith, ==_sound,
}
use hound_bot.Models.{OAuthState, Purpose, purpose_eq}
use hound_bot.Exec.{Result, ok, err, World, exec, scalar_one_or_none, ◌>>=◌}
use hound_bot.Exec.Laws.{tables_of}
use hound_bot.Repositories.OAuthStates
use hound_bot.Repositories.OAuthStates.{has_state, remove}
use hound_bot.Repositories.OAuthStates.SingleUse.{select_self, select-removed}

-- The state's only row in the tables of `w` has the purpose and has not expired when the clock is
-- read; it is gone from the session's tables, which are as they were otherwise, and nothing is
-- committed.
pub record IsRedeemed (state : String) (p : Purpose) (w : World) (row : OAuthState) (v : World)
    : Type 0 where
  pub only : select (has_state state) w.db.oauth_states ≡ row ∷ []
  pub purpose : row.purpose ≡ p
  pub in_time : leb (w.outside.clock w.calls) row.expires_at ≡ true
  pub gone : select (has_state state) v.db.oauth_states ≡ []
  pub tables : tables_of v ≡ (remove row.state w.db, w.saved, w.outside)

abbrev pub Redeems : String → Purpose → World → Result (Option OAuthState) → World → Type 0
Redeems state p w (ok (some row)) v = IsRedeemed state p w row v
Redeems state p w (ok none) v = v.saved ≡ w.saved
Redeems state p w (err e) v = v.saved ≡ w.saved

module _ (state : String) (p : Purpose) (w : World) where
  -- The purpose and the expiry decide, after the row is gone.
  decided :
      (row : OAuthState) (right expired : Bool)
      → select (has_state state) w.db.oauth_states ≡ row ∷ []
      → (row.purpose == p) ≡ right
      → ltb row.expires_at (w.outside.clock w.calls) ≡ expired
      → let (r, v) = OAuthStates.take_row p (some row) w in Redeems state p w r v
  unfolding OAuthStates.take_row OAuthStates.redeem exec
  decided row false expired e h late = rw h refl
  decided row true true e h late = rw (h, late) refl
  decided row true false e h late =
      rw (h, late)
        (record {
          only = e;
          purpose = ==_sound row.purpose p h;
          in_time = ground arith;
          gone =
              select-removed state row.state w.db.oauth_states
                (select_self state w.db.oauth_states row [] e);
          tables = refl;
        })

  redeems :
      (rows : List OAuthState)
      → select (has_state state) w.db.oauth_states ≡ rows
      → let (r, v) = (scalar_one_or_none rows >>= OAuthStates.take_row p) w in Redeems state p w r v
  unfolding OAuthStates.take_row exec
  redeems [] e = refl
  redeems (row ∷ []) e = decided row _ _ e refl refl
  redeems (row ∷ row' ∷ rows) e = refl

  pub consume-Redeems : let (r, v) = OAuthStates.consume state p w in Redeems state p w r v
  unfolding OAuthStates.consume OAuthStates.find exec
  consume-Redeems = redeems _ refl
