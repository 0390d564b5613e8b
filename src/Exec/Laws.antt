-- ===== src/Exec/Laws.antt =====
-- What an action leaves alone, by how it is put together.
use hound_bot.Base.{
  arith, ℕ, ◌≡◌, refl, ◌∙◌, String, Bool, true, false, if◌then◌else◌, List, [], ◌∷◌, Option, none,
  some,
}
use hound_bot.Models.{Db}
use hound_bot.Exec.Monad.{
  Error, Result, ok, err, Outside, Effect, Sent, World, Exec, pure, raise, lift, or_raise, query,
  scalar_one_or_none, ask, ◌>>=◌, ◌>>◌, modify, commit, raise_if, now, fresh_uuid, perform, attempt,
  perform_attempt, record_effect, continue, for_each, exec, send_request, read, http, or_external,
}
use hound_bot.Json.{Read}
use hound_bot.HttpClient.{HttpRequest, HttpResponse}

-- Reading rows changes nothing.
pub scalar_one_or_none-same_world :
    {A : Type 0} (l : List A) (w : World) → (scalar_one_or_none l w).1 ≡ w
unfolding exec
scalar_one_or_none-same_world [] w = refl
scalar_one_or_none-same_world (a ∷ []) w = refl
scalar_one_or_none-same_world (a ∷ b ∷ l) w = refl

-- Whatever the action does and however it ends, the view `f` of the world is as it was.
pub record Leaves {X : Type 0} (f : World → X) {A : Type 0} (m : Exec A) : Type 0 where
  pub at : (w : World) → f (m w).1 ≡ f w

module _ {X : Type 0} (f : World → X) where
  Leaves-continue :
      {A B : Type 0} (r : Result A) (k : A → Exec B)
      → ((a : A) → Leaves f (k a))
      → (w : World) → f (continue r k w).1 ≡ f w
  unfolding exec
  Leaves-continue (ok a) k h w = (h a).at w
  Leaves-continue (err e) k h w = refl

  pub Leaves-bind :
      {A B : Type 0} (m : Exec A) (k : A → Exec B)
      → Leaves f m
      → ((a : A) → Leaves f (k a))
      → Leaves f (m >>= k)
  unfolding exec
  Leaves-bind m k h hk = record { at = λ w. Leaves-continue (m w).0 k hk (m w).1 ∙ h.at w }

  pub Leaves-then :
      {A B : Type 0} (m : Exec A) (k : Exec B) → Leaves f m → Leaves f k → Leaves f (m >> k)
  unfolding exec
  Leaves-then m k h hk = Leaves-bind m (λ _. k) h (λ _. hk)

  pub Leaves-pure : {A : Type 0} (a : A) → Leaves f (pure a)
  unfolding exec
  Leaves-pure a = record { at = λ w. refl }

  pub Leaves-raise : {A : Type 0} (e : Error) → Leaves f (raise {A = A} e)
  unfolding exec
  Leaves-raise e = record { at = λ w. refl }

  pub Leaves-lift : {A : Type 0} (r : Result A) → Leaves f (lift r)
  unfolding exec
  Leaves-lift r = record { at = λ w. refl }

  pub Leaves-read : {A : Type 0} (r : Read A) → Leaves f (read r)
  unfolding exec
  Leaves-read r = record { at = λ w. refl }

  pub Leaves-or_raise : {A : Type 0} (e : Error) (o : Option A) → Leaves f (or_raise e o)
  unfolding exec
  Leaves-or_raise e none = record { at = λ w. refl }
  Leaves-or_raise e (some a) = record { at = λ w. refl }

  pub Leaves-query : {A : Type 0} (g : Db → A) → Leaves f (query g)
  unfolding exec
  Leaves-query g = record { at = λ w. refl }

  pub Leaves-scalar_one_or_none : {A : Type 0} (l : List A) → Leaves f (scalar_one_or_none l)
  unfolding exec
  Leaves-scalar_one_or_none [] = record { at = λ w. refl }
  Leaves-scalar_one_or_none (a ∷ []) = record { at = λ w. refl }
  Leaves-scalar_one_or_none (a ∷ b ∷ l) = record { at = λ w. refl }

  pub Leaves-raise_if : (c : Bool) (e : Error) → Leaves f (raise_if c e)
  unfolding exec
  Leaves-raise_if c e = record { at = λ w. refl }

  pub Leaves-if :
      {A : Type 0} (c : Bool) (m k : Exec A)
      → Leaves f m
      → Leaves f k
      → Leaves f (if c then m else k)
  Leaves-if true m k hm hk = hm
  Leaves-if false m k hm hk = hk

  pub Leaves-attempt : {A : Type 0} (m : Exec A) → Leaves f m → Leaves f (attempt m)
  unfolding exec
  Leaves-attempt m h = record { at = h.at }

  pub Leaves-for_each :
      {A : Type 0} (xs : List A) (body : A → Exec Unit)
      → ((a : A) → Leaves f (body a))
      → Leaves f (for_each xs body)
  unfolding for_each
  Leaves-for_each [] body h = Leaves-pure tt
  Leaves-for_each (x ∷ xs) body h = Leaves-then (body x) _ (h x) (Leaves-for_each xs body h)

-- A view of the tables alone is kept by the clock, by a commit and by what leaves the process.
module _ {X : Type 0} (g : Db → X) where
  abbrev pub on_db : World → X
  on_db w = g w.db

  pub Leaves-ask : {A : Type 0} (q : Outside → ℕ → A) → Leaves on_db (ask q)
  unfolding exec
  Leaves-ask q = record { at = λ w. refl }

  pub Leaves-now : Leaves on_db now
  unfolding exec
  Leaves-now = record { at = λ w. refl }

  pub Leaves-fresh_uuid : Leaves on_db fresh_uuid
  unfolding exec
  Leaves-fresh_uuid = record { at = λ w. refl }

  pub Leaves-commit : Leaves on_db commit
  unfolding exec
  Leaves-commit = record { at = λ w. refl }

  pub Leaves-perform : (e : Effect) → Leaves on_db (perform e)
  unfolding exec
  Leaves-perform e = record { at = λ w. kept (w.outside.perform w.calls e) w }
    where
      kept : (r : Result String) (w : World) → g (record_effect e r w).db ≡ g w.db
      kept (ok _) w = refl
      kept (err _) w = refl

  pub Leaves-perform_attempt : (e : Effect) → Leaves on_db (perform_attempt e)
  unfolding exec
  Leaves-perform_attempt e = record { at = λ w. refl }

  pub Leaves-send_request : (q : HttpRequest) → Leaves on_db (send_request q)
  unfolding exec
  Leaves-send_request q = record { at = λ w. kept (or_external (w.outside.http w.calls q)) w }
    where
      kept : (r : Result HttpResponse) (w : World) → g (record_effect (http q) r w).db ≡ g w.db
      kept (ok _) w = refl
      kept (err _) w = refl

  pub Leaves-modify : (h : Db → Db) → ((db : Db) → g (h db) ≡ g db) → Leaves on_db (modify h)
  unfolding exec
  Leaves-modify h kept = record { at = λ w. kept w.db }

pub ruleset leaves_rules = (
  Leaves-bind, Leaves-then, Leaves-pure, Leaves-raise, Leaves-lift, Leaves-or_raise, Leaves-read,
  Leaves-query, Leaves-scalar_one_or_none, Leaves-raise_if, Leaves-if, Leaves-attempt,
  Leaves-for_each, Leaves-ask, Leaves-now, Leaves-fresh_uuid, Leaves-commit, Leaves-perform,
  Leaves-send_request, Leaves-perform_attempt,
)

-- What a rollback and the remote services would show: all but the count of calls.
abbrev pub state_of : World → Db × Db × List Sent
state_of w = (w.db, w.saved, w.sent)

pub reads-ask : {A : Type 0} (q : Outside → ℕ → A) → Leaves state_of (ask q)
unfolding exec
reads-ask q = record { at = λ w. refl }

pub ruleset reads_rules = (
  Leaves-bind, Leaves-then, Leaves-pure, Leaves-raise, Leaves-lift, Leaves-or_raise, Leaves-read,
  Leaves-query, Leaves-scalar_one_or_none, Leaves-raise_if, Leaves-if, Leaves-attempt,
  Leaves-for_each, reads-ask,
)

abbrev pub State : Type 0
State = Db × Db × List Sent

-- How an action ends that began where the view `f` of the world was `s`: a relation between its
-- result and the world after it, which a raise with that view satisfies.
module _ {X : Type 0} (f : World → X) {A : Type 0} (s : X) (P : Result A → World → Type 0)
    (on_raise : (e : Error) (v : World) → f v ≡ s → P (err e) v) where
  abbrev pub EndsFrom : Exec A → Type 0
  EndsFrom m = (w : World) → f w ≡ s → P (m w).0 (m w).1

  EndsFrom-continue :
      {B : Type 0} (r : Result B) (k : B → Exec A) (v : World)
      → f v ≡ s
      → ((b : B) → r ≡ ok b → EndsFrom (k b))
      → P (continue r k v).0 (continue r k v).1
  unfolding exec
  EndsFrom-continue (ok b) k v e h = h b refl v e
  EndsFrom-continue (err x) k v e h = on_raise x v e

  -- What comes first only reads, so the rest begins at the same state.
  pub EndsFrom-bind :
      {B : Type 0} (m : Exec B) (k : B → Exec A)
      → Leaves f m
      → ((b : B) (w : World) → f w ≡ s → (m w).0 ≡ ok b → EndsFrom (k b))
      → EndsFrom (m >>= k)
  unfolding exec
  EndsFrom-bind m k h hk w e =
      EndsFrom-continue (m w).0 k (m w).1 (h.at w ∙ e) (λ b ok_b. hk b w e ok_b)

  -- A guard that is passed says that its test failed.
  pub EndsFrom-raise_if :
      (c : Bool) (e : Error) (m : Exec A) → (c ≡ false → EndsFrom m) → EndsFrom (raise_if c e >> m)
  unfolding exec
  EndsFrom-raise_if true e m h w at_s = on_raise e w at_s
  EndsFrom-raise_if false e m h w at_s = h refl w at_s

  pub EndsFrom-raise : (e : Error) → EndsFrom (raise e)
  unfolding exec
  EndsFrom-raise e w h = on_raise e w h

pub or_raise-ok :
    {A : Type 0} (e : Error) (o : Option A) (a : A) (w : World)
    → (or_raise e o w).0 ≡ ok a
    → o ≡ some a
unfolding exec
or_raise-ok e none a w h = ground arith
or_raise-ok e (some b) a w h = ground arith

pub scalar_one_or_none-ok :
    {A : Type 0} (l : List A) (a : A) (w : World)
    → (scalar_one_or_none l w).0 ≡ ok (some a)
    → l ≡ a ∷ []
unfolding exec
scalar_one_or_none-ok [] a w h = ground arith
scalar_one_or_none-ok (x ∷ []) a w h = ground arith
scalar_one_or_none-ok (x ∷ y ∷ l) a w h = ground arith

-- What the database would show, the tables of the session and what is committed, with the outside
-- world that answers.
abbrev pub Tables : Type 0
Tables = Db × Db × Outside

abbrev pub tables_of : World → Tables
tables_of w = (w.db, w.saved, w.outside)

pub tables-ask : {A : Type 0} (q : Outside → ℕ → A) → Leaves tables_of (ask q)
unfolding exec
tables-ask q = record { at = λ w. refl }

pub tables-perform : (e : Effect) → Leaves tables_of (perform e)
unfolding exec
tables-perform e = record { at = λ w. kept (w.outside.perform w.calls e) w }
  where
    kept : (r : Result String) (w : World) → tables_of (record_effect e r w) ≡ tables_of w
    kept (ok _) w = refl
    kept (err _) w = refl

pub tables-send_request : (q : HttpRequest) → Leaves tables_of (send_request q)
unfolding exec
tables-send_request q = record { at = λ w. kept (or_external (w.outside.http w.calls q)) w }
  where
    kept :
        (r : Result HttpResponse) (w : World) → tables_of (record_effect (http q) r w) ≡ tables_of w
    kept (ok _) w = refl
    kept (err _) w = refl

pub ruleset tables_rules = (
  Leaves-bind, Leaves-then, Leaves-pure, Leaves-raise, Leaves-lift, Leaves-or_raise, Leaves-read,
  Leaves-query, Leaves-scalar_one_or_none, Leaves-raise_if, Leaves-if, Leaves-attempt,
  Leaves-for_each, tables-ask, tables-perform, tables-send_request,
)
