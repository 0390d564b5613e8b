-- ===== src/Exec/Agrees.antt =====
-- Actions that do the same at two databases.
use hound_bot.Base.{◌≡◌, refl, ℕ, suc, Option, none, some, Bool, true, false, sym, ap, ◌∙◌}
use hound_bot.Models.{Db}
use hound_bot.Exec.{
  Result, ok, err, Outside, World, Error, Exec, exec, pure, ask, now, or_raise, query, raise_if,
  ◌>>=◌, ◌>>◌,
}

module _ (a b : Db) where
  -- The action does the same at the two databases, which it leaves as they are.
  pub record Agrees {A : Type 0} (m : Exec A) : Type 0 where
    pub at :
        (w : World)
        → (r : Result A) × (v : World) × (m (record w { db = a }) ≡ (r, record v { db = a }))
          × (m (record w { db = b }) ≡ (r, record v { db = b }))

  pub answers :
      {A : Type 0} (m : Exec A)
      → Agrees m
      → (w : World) → (m (record w { db = a })).0 ≡ (m (record w { db = b })).0
  answers {A = A} m h w =
      let t = h.at w in
      ap (λ (p : Result A × World). p.0) t.2 ∙ sym (ap (λ (p : Result A × World). p.0) t.3)

  pub Agrees-bind :
      {A B : Type 0} (m : Exec A) (k : A → Exec B)
      → Agrees m
      → ((x : A) → Agrees (k x))
      → Agrees (m >>= k)
  unfolding exec
  Agrees-bind {A = A} {B = B} m k h hk = record {
    at = λ w. let t = h.at w in joined w t.0 t.1 t.2 t.3;
  }
    where
      joined :
          (w : World) (r : Result A) (v : World)
          → m (record w { db = a }) ≡ (r, record v { db = a })
          → m (record w { db = b }) ≡ (r, record v { db = b })
          → (r' : Result B) × (v' : World) × ((m >>= k) (record w { db = a })
              ≡ (r', record v' { db = a }))
            × ((m >>= k) (record w { db = b }) ≡ (r', record v' { db = b }))
      joined w (err e) v ha hb = (err e, v, rw ha refl, rw hb refl)
      joined w (ok x) v ha hb = let t = (hk x).at v in (t.0, t.1, rw ha t.2, rw hb t.3)

  pub Agrees-pure : {A : Type 0} (x : A) → Agrees (pure x)
  unfolding exec
  Agrees-pure x = record { at = λ w. (_, w, refl, refl) }

  pub Agrees-ask : {A : Type 0} (q : Outside → ℕ → A) → Agrees (ask q)
  unfolding exec
  Agrees-ask q = record { at = λ w. (_, record w { calls = suc w.calls }, refl, refl) }

  pub Agrees-now : Agrees now
  unfolding exec
  Agrees-now = record { at = λ w. (_, record w { calls = suc w.calls }, refl, refl) }

  pub Agrees-or_raise : {A : Type 0} (e : Error) (o : Option A) → Agrees (or_raise e o)
  unfolding exec
  Agrees-or_raise e none = record { at = λ w. (_, w, refl, refl) }
  Agrees-or_raise e (some x) = record { at = λ w. (_, w, refl, refl) }

  pub Agrees-query : {A : Type 0} (f : Db → A) → f a ≡ f b → Agrees (query f)
  unfolding exec
  Agrees-query f e = record { at = λ w. (ok (f a), w, refl, rw e refl) }

  pub Agrees-then : {A B : Type 0} (m : Exec A) (k : Exec B) → Agrees m → Agrees k → Agrees (m >> k)
  unfolding exec
  Agrees-then m k h hk = Agrees-bind m (λ _. k) h (λ _. hk)

  pub Agrees-raise_if : (c : Bool) (e : Error) → Agrees (raise_if c e)
  unfolding exec
  Agrees-raise_if true e = record { at = λ w. (_, w, refl, refl) }
  Agrees-raise_if false e = record { at = λ w. (_, w, refl, refl) }

pub ruleset agrees_rules =
    (Agrees-bind, Agrees-pure, Agrees-ask, Agrees-now, Agrees-or_raise, Agrees-query)
