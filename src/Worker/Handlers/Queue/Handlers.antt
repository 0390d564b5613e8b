-- ===== src/Worker/Handlers/Queue/Handlers.antt =====
-- No handler of the table HANDLERS writes to the queue, so every batch settles its jobs.
use hound_bot.Base.{
  arith, ◌≡◌, subst, ap, String, Bool, true, false, Option, none, some, if◌then◌else◌, string_eq,
  nat_eq,
}
use hound_bot.Base.Int.{ℤ}
use hound_bot.Time.{DateTime}
use hound_bot.Models.{InboundJob, Workspace, Payload, event, propose, act_on, Meeting, Uuid}
use hound_bot.Exec.{
  Result, ok, err, overflow_error, multiple_results_found, value_error, runtime_error,
  task_authorization, meeting_confirmation, invalid_grant, google_oauth, slack_oauth, missing_key,
  index_out_of_range, agent_error, external, http_exception, Exec,
}
use hound_bot.Core.Security.{TokenCipher}
use hound_bot.Services.Meetings.Propose.{ProposalResult}
use hound_bot.Worker.Handlers
use hound_bot.Worker.Handlers.{Settings}
use hound_bot.Worker.Handlers.Queue.{
  LeavesJobs, queue_rules, propose_meeting, list_open_tasks, run_agent_turn,
}
use hound_bot.Worker.Handlers.Queue.Booking.{confirm_meeting, cancel_meeting}

reply_to :
    (url text : String) (button : Option (String × Uuid))
    → LeavesJobs (Handlers.reply_to url text button)
unfolding Handlers.reply_to
reply_to url text button = search queue_rules

if_installed :
    (o : Option Workspace) (body : Workspace → Exec (Unit {0}))
    → ((s : Workspace) → LeavesJobs (body s))
    → LeavesJobs (Handlers.if_installed o body)
unfolding Handlers.if_installed
if_installed none body h = search queue_rules
if_installed (some s) body h = search (queue_rules, h)

module _ (settings : Settings) (c : TokenCipher) where
  answer_mention :
      (j : InboundJob) (token channel : String) (text user : Option String)
      → LeavesJobs (Handlers.answer_mention settings c j token channel text user)
  unfolding Handlers.answer_mention
  answer_mention j token channel text user = search (queue_rules, run_agent_turn) depth 12

  mention_in :
      (j : InboundJob) (p : Payload) (s : Workspace)
      → LeavesJobs (Handlers.mention_in settings c j p s)
  unfolding Handlers.mention_in
  mention_in j (event (some channel) text user) s = search (queue_rules, answer_mention)
  mention_in j (event none text user) s = search queue_rules
  mention_in j (propose a b d e f g) s = search queue_rules
  mention_in j (act_on a b d) s = search queue_rules

  home_for :
      (j : InboundJob) (p : Payload) (s : Workspace)
      → LeavesJobs (Handlers.home_for settings c j p s)
  unfolding Handlers.home_for
  home_for j (event channel text (some user)) s = search (queue_rules, list_open_tasks) depth 12
  home_for j (event channel text none) s = search queue_rules
  home_for j (propose a b d e f g) s = search queue_rules
  home_for j (act_on a b d) s = search queue_rules

  reply_proposal :
      (url : String) (n : ℤ) (r : ProposalResult) (m : Option Meeting) (t : Option DateTime)
      → LeavesJobs (Handlers.reply_proposal settings c url n r m t)
  unfolding Handlers.reply_proposal
  reply_proposal url n r (some m) (some t) = search (queue_rules, reply_to)
  reply_proposal url n r (some m) none = search (queue_rules, reply_to)
  reply_proposal url n r none t = search (queue_rules, reply_to)

  propose_from : (j : InboundJob) (p : Payload) → LeavesJobs (Handlers.propose_from settings c j p)
  unfolding Handlers.propose_from
  propose_from j (propose a b d e f g) =
      search (queue_rules, reply_to, propose_meeting, reply_proposal) depth 12
  propose_from j (event a b d) = search queue_rules
  propose_from j (act_on a b d) = search queue_rules

  or_refusal :
      {A : Type 0} (url : String) (k : A → Exec (Unit {0})) (r : Result A)
      → ((a : A) → LeavesJobs (k a))
      → LeavesJobs (Handlers.or_refusal settings c url k r)
  unfolding Handlers.or_refusal
  or_refusal url k (ok a) h = h a
  or_refusal url k (err (meeting_confirmation text)) h = reply_to url text none
  or_refusal url k (err overflow_error) h = search queue_rules
  or_refusal url k (err multiple_results_found) h = search queue_rules
  or_refusal url k (err (value_error m)) h = search queue_rules
  or_refusal url k (err (runtime_error m)) h = search queue_rules
  or_refusal url k (err (task_authorization m)) h = search queue_rules
  or_refusal url k (err invalid_grant) h = search queue_rules
  or_refusal url k (err (google_oauth m)) h = search queue_rules
  or_refusal url k (err (slack_oauth m)) h = search queue_rules
  or_refusal url k (err (missing_key m)) h = search queue_rules
  or_refusal url k (err index_out_of_range) h = search queue_rules
  or_refusal url k (err (agent_error m)) h = search queue_rules
  or_refusal url k (err (external m)) h = search queue_rules
  or_refusal url k (err (http_exception n m)) h = search queue_rules

  reply_booked : (url : String) (m : Meeting) → LeavesJobs (Handlers.reply_booked settings c url m)
  unfolding Handlers.reply_booked
  reply_booked url m = search (queue_rules, reply_to)

  book_from : (j : InboundJob) (p : Payload) → LeavesJobs (Handlers.book_from settings c j p)
  unfolding Handlers.book_from
  book_from j (act_on a b d) =
      search (queue_rules, reply_to, confirm_meeting, or_refusal, reply_booked) depth 12
  book_from j (event a b d) = search queue_rules
  book_from j (propose a b d e f g) = search queue_rules

  reply_cancelled :
      (url : String) (m : Meeting) → LeavesJobs (Handlers.reply_cancelled settings c url m)
  unfolding Handlers.reply_cancelled
  reply_cancelled url m = search (queue_rules, reply_to)

  cancel_from : (j : InboundJob) (p : Payload) → LeavesJobs (Handlers.cancel_from settings c j p)
  unfolding Handlers.cancel_from
  cancel_from j (act_on a b d) =
      search (queue_rules, reply_to, cancel_meeting, or_refusal, reply_cancelled) depth 12
  cancel_from j (event a b d) = search queue_rules
  cancel_from j (propose a b d e f g) = search queue_rules

  handle_app_mention : (j : InboundJob) → LeavesJobs (Handlers.handle_app_mention settings c j)
  unfolding Handlers.handle_app_mention
  handle_app_mention j = search (queue_rules, if_installed, mention_in)

  handle_app_home_opened :
      (j : InboundJob) → LeavesJobs (Handlers.handle_app_home_opened settings c j)
  unfolding Handlers.handle_app_home_opened
  handle_app_home_opened j = search (queue_rules, if_installed, home_for)

  handle_app_uninstalled :
      (j : InboundJob) → LeavesJobs (Handlers.handle_app_uninstalled settings c j)
  unfolding Handlers.handle_app_uninstalled
  handle_app_uninstalled j = search queue_rules

  handle_meet_propose : (j : InboundJob) → LeavesJobs (Handlers.handle_meet_propose settings c j)
  unfolding Handlers.handle_meet_propose
  handle_meet_propose j = propose_from j j.payload

  handle_meet_book : (j : InboundJob) → LeavesJobs (Handlers.handle_meet_book settings c j)
  unfolding Handlers.handle_meet_book
  handle_meet_book j = book_from j j.payload

  handle_meet_cancel : (j : InboundJob) → LeavesJobs (Handlers.handle_meet_cancel settings c j)
  unfolding Handlers.handle_meet_cancel
  handle_meet_cancel j = cancel_from j j.payload

  record OptionLeaves (o : Option (InboundJob → Exec (Unit {0}))) : Type 0 where
    at : (h : InboundJob → Exec (Unit {0})) → o ≡ some h → (j : InboundJob) → LeavesJobs (h j)

  OptionLeaves-none : OptionLeaves none
  OptionLeaves-none = record { at = λ h e. ground arith }

  OptionLeaves-some :
      (h : InboundJob → Exec (Unit {0}))
      → ((j : InboundJob) → LeavesJobs (h j))
      → OptionLeaves (some h)
  OptionLeaves-some h p = record { at = λ k e. subst HandlerLeaves (some-injective e) p }
    where
      HandlerLeaves : (InboundJob → Exec (Unit {0})) → Type 0
      HandlerLeaves k = (j : InboundJob) → LeavesJobs (k j)

      or_h : Option (InboundJob → Exec (Unit {0})) → InboundJob → Exec (Unit {0})
      or_h none = h
      or_h (some k) = k

      some-injective : {k : InboundJob → Exec (Unit {0})} → some h ≡ some k → h ≡ k
      some-injective e = ap or_h e

  OptionLeaves-if :
      (t : Bool) (a b : Option (InboundJob → Exec (Unit {0})))
      → OptionLeaves a
      → OptionLeaves b
      → OptionLeaves (if t then a else b)
  OptionLeaves-if true a b ha hb = ha
  OptionLeaves-if false a b ha hb = hb

  handler_for : (name : String) → OptionLeaves (Handlers.handler_for settings c name)
  unfolding Handlers.handler_for
  handler_for name =
      search
        (
          OptionLeaves-none, OptionLeaves-some, OptionLeaves-if, handle_app_mention,
          handle_meet_propose, handle_meet_book, handle_meet_cancel, handle_app_uninstalled,
          handle_app_home_opened,
        )
        depth 20
