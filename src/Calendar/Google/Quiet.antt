-- ===== src/Calendar/Google/Quiet.antt =====
-- Actions that never raise `invalid_grant` themselves, by how they are put together.
use hound_bot.Base.{ℕ, ◌≡◌, refl, ◌↔◌, String, arith, inl, inr, ◌⊎◌, Bool, true, false, nat_eq, ◌∙◌}
use hound_bot.Json.{
  Json, null, boolean, number, text, array, object, Read, got, failed, key_error, index_error,
  wrong_type,
}
use hound_bot.HttpClient.{HttpRequest, HttpResponse}
use hound_bot.Exec.{
  Result, ok, err, invalid_grant, google_oauth, World, exec, Exec, read, ◌>>◌, ◌>>=◌, send_request,
  overflow_error, multiple_results_found, value_error, runtime_error, task_authorization,
  meeting_confirmation, slack_oauth, missing_key, index_out_of_range, agent_error, external,
  http_exception, Outside, read_result, pure, raise, ask, continue, lift, raise_if, or_external,
}
use hound_bot.Exec.Responses.{decode, json_text, expect_keys, raise_for_status, send_with}
use hound_bot.Calendar.Google.{expect}

abbrev pub is_refusal : {A : Type 0} → Result A → Bool
is_refusal (err invalid_grant) = true
is_refusal _ = false

-- An action that never raises `invalid_grant` itself.
pub record Quiet {A : Type 0} (m : Exec A) : Type 0 where
  pub at : (w : World) → is_refusal (m w).0 ≡ false

continue-Quiet :
    {A B : Type 0} (r : Result A) (k : A → Exec B) (w : World)
    → ((a : A) → Quiet (k a))
    → is_refusal (continue r k w).0 ≡ is_refusal r
unfolding exec
continue-Quiet (ok a) k w h = (h a).at w
continue-Quiet (err overflow_error) k w h = refl
continue-Quiet (err multiple_results_found) k w h = refl
continue-Quiet (err (value_error m)) k w h = refl
continue-Quiet (err (runtime_error m)) k w h = refl
continue-Quiet (err (task_authorization m)) k w h = refl
continue-Quiet (err (meeting_confirmation m)) k w h = refl
continue-Quiet (err invalid_grant) k w h = refl
continue-Quiet (err (google_oauth m)) k w h = refl
continue-Quiet (err (slack_oauth m)) k w h = refl
continue-Quiet (err (missing_key m)) k w h = refl
continue-Quiet (err index_out_of_range) k w h = refl
continue-Quiet (err (agent_error m)) k w h = refl
continue-Quiet (err (external m)) k w h = refl
continue-Quiet (err (http_exception n m)) k w h = refl

-- An action followed by quiet ones refuses just where it does.
pub bind-Quiet :
    {A B : Type 0} (m : Exec A) (k : A → Exec B) (w : World)
    → ((a : A) → Quiet (k a))
    → is_refusal ((m >>= k) w).0 ≡ is_refusal (m w).0
unfolding exec
bind-Quiet m k w h = continue-Quiet (m w).0 k (m w).1 h

pub Quiet-bind :
    {A B : Type 0} (m : Exec A) (k : A → Exec B)
    → Quiet m
    → ((a : A) → Quiet (k a))
    → Quiet (m >>= k)
Quiet-bind m k h hk = record { at = λ w. bind-Quiet m k w hk ∙ h.at w }

pub Quiet-pure : {A : Type 0} (a : A) → Quiet (pure a)
unfolding exec
Quiet-pure a = record { at = λ w. refl }

pub Quiet-google_oauth : {A : Type 0} (m : String) → Quiet (raise {A = A} (google_oauth m))
unfolding exec
Quiet-google_oauth m = record { at = λ w. refl }

pub Quiet-ask : {A : Type 0} (q : Outside → ℕ → A) → Quiet (ask q)
unfolding exec
Quiet-ask q = record { at = λ w. refl }

read_result-quiet : {A : Type 0} (r : Read A) → is_refusal (read_result r) ≡ false
read_result-quiet (got a) = refl
read_result-quiet (failed (key_error k)) = refl
read_result-quiet (failed index_error) = refl
read_result-quiet (failed wrong_type) = refl

pub Quiet-read : {A : Type 0} (r : Read A) → Quiet (read r)
unfolding exec
Quiet-read r = record { at = λ w. read_result-quiet r }

pub Quiet-expect-read : {A : Type 0} (prefix : String) (r : Read A) → Quiet (expect prefix (read r))
unfolding expect expect_keys exec
Quiet-expect-read prefix (got a) = record { at = λ w. refl }
Quiet-expect-read prefix (failed (key_error k)) = record { at = λ w. refl }
Quiet-expect-read prefix (failed index_error) = record { at = λ w. refl }
Quiet-expect-read prefix (failed wrong_type) = record { at = λ w. refl }

pub ruleset quiet_rules =
    (Quiet-bind, Quiet-pure, Quiet-google_oauth, Quiet-ask, Quiet-read, Quiet-expect-read)

pub json_text-Quiet : (j : Json) → Quiet (json_text j)
unfolding json_text
json_text-Quiet null = search quiet_rules
json_text-Quiet (boolean b) = search quiet_rules
json_text-Quiet (number n b) = search quiet_rules
json_text-Quiet (text s) = search quiet_rules
json_text-Quiet (array xs) = search quiet_rules
json_text-Quiet (object ms) = search quiet_rules

pub Quiet-raise_if : (c : Bool) (m : String) → Quiet (raise_if c (external m))
unfolding exec
Quiet-raise_if true m = record { at = λ w. refl }
Quiet-raise_if false m = record { at = λ w. refl }

pub Quiet-lift_external : {A : Type 0} (a : A ⊎ String) → Quiet (lift (or_external a))
unfolding exec
Quiet-lift_external (inl a) = record { at = λ w. refl }
Quiet-lift_external (inr m) = record { at = λ w. refl }

pub Quiet-then : {A B : Type 0} (m : Exec A) (k : Exec B) → Quiet m → Quiet k → Quiet (m >> k)
unfolding exec
Quiet-then m k h hk = Quiet-bind m (λ _. k) h (λ _. hk)

pub Quiet-send_request : (q : HttpRequest) → Quiet (send_request q)
unfolding exec
Quiet-send_request q = record { at = λ w. kept (w.outside.http w.calls q) }
  where
    kept : (a : HttpResponse ⊎ String) → is_refusal (or_external a) ≡ false
    kept (inl r) = refl
    kept (inr m) = refl

pub Quiet-decode : (r : HttpResponse) → Quiet (decode r)
unfolding decode
Quiet-decode r = Quiet-lift_external r.json

pub Quiet-raise_for_status : (r : HttpResponse) → Quiet (raise_for_status r)
unfolding raise_for_status
Quiet-raise_for_status r = Quiet-raise_if _ _

pub ruleset http_rules = (
  Quiet-bind, Quiet-then, Quiet-pure, Quiet-google_oauth, Quiet-ask, Quiet-read, Quiet-expect-read,
  json_text-Quiet, Quiet-send_request, Quiet-decode, Quiet-raise_for_status,
)

pub send_with-Quiet : (t : Json) (q : HttpRequest) → Quiet (send_with t q)
unfolding send_with
send_with-Quiet t q = search http_rules

pub is_refusal-raise : {A : Type 0} (r : Result A) → (is_refusal r ≡ true) ↔ (r ≡ err invalid_grant)
is_refusal-raise (ok a) = (λ h. ground arith, λ h. ground arith)
is_refusal-raise (err overflow_error) = (λ h. ground arith, λ h. ground arith)
is_refusal-raise (err multiple_results_found) = (λ h. ground arith, λ h. ground arith)
is_refusal-raise (err (value_error m)) = (λ h. ground arith, λ h. ground arith)
is_refusal-raise (err (runtime_error m)) = (λ h. ground arith, λ h. ground arith)
is_refusal-raise (err (task_authorization m)) = (λ h. ground arith, λ h. ground arith)
is_refusal-raise (err (meeting_confirmation m)) = (λ h. ground arith, λ h. ground arith)
is_refusal-raise (err invalid_grant) = (λ h. ground arith, λ h. ground arith)
is_refusal-raise (err (google_oauth m)) = (λ h. ground arith, λ h. ground arith)
is_refusal-raise (err (slack_oauth m)) = (λ h. ground arith, λ h. ground arith)
is_refusal-raise (err (missing_key m)) = (λ h. ground arith, λ h. ground arith)
is_refusal-raise (err index_out_of_range) = (λ h. ground arith, λ h. ground arith)
is_refusal-raise (err (agent_error m)) = (λ h. ground arith, λ h. ground arith)
is_refusal-raise (err (external m)) = (λ h. ground arith, λ h. ground arith)
is_refusal-raise (err (http_exception n m)) = (λ h. ground arith, λ h. ground arith)
