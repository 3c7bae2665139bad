-- ===== src/Sync/Queue/Cursor.antt =====
-- How far a chain has emitted: the cursor of its conversation, through one step of the chain.
pub mod Progress
pub use Progress.*
use airway_im_plugin.Base.{
  ◌≡◌, refl, none, some, Option, List, [], ◌∷◌, arith, inl, inr, Option-cases,
}
use mathlib.Core.Path.{subst}
use airway_im_plugin.Text.{Text}
use airway_im_plugin.Sync.{ChatMessage, GatewayEvent, SyncEngine, last_sequence}
use airway_im_plugin.Sync.Fetch.{accept_page, begin}
use airway_im_plugin.Sync.Fetch.Order.{Ascending, accept_page-Accepts, Next-cases}
use airway_im_plugin.Sync.Queue.{
  Task, fetch, reload, Job, fetching, reloading, Chain, chain_start, chain_reply, start_next,
  begin_task, begin_reload, continue_fetch, finish, reply_next, reply_job, updates, find_message,
}

updates-silent : (found : Option ChatMessage) (c : Text) → emitted c (updates found) ≡ []
unfolding updates
updates-silent none c = refl
updates-silent (some m) c = refl

begin_reload-Forward :
    (ev : GatewayEvent) (ch : Chain) (e : SyncEngine)
    → AllDefault ch.waiting
    → Forward ch.conversation (last_sequence ch.conversation e) e (begin_reload ev ch e)
unfolding begin_reload
begin_reload-Forward ev ch e d = elim (Option-cases ev.sequence) [
  | inl p ↦
      rw (p, begin_reload)
        (quiet-Forward ch.conversation _ e _ refl refl (λ c. refl) (omega arith) d)
  | inr (s, p) ↦
      rw (p, begin_reload)
        (quiet-Forward ch.conversation _ e _ refl refl (λ c. refl) (omega arith) d)
]

begin_task-Forward :
    (t : Task) (ch : Chain) (e : SyncEngine)
    → IsDefault t
    → AllDefault ch.waiting
    → Forward ch.conversation (last_sequence ch.conversation e) e (begin_task t ch e)
unfolding begin_task
begin_task-Forward (fetch o) ch e p d =
    let from : (begin ch.conversation o e).from ≡ last_sequence ch.conversation e = rw (p, begin) in
    subst (λ s. Forward ch.conversation s e (continue_fetch (begin ch.conversation o e) ch e)) from
      (continue_fetch-Forward (begin ch.conversation o e) ch e d)
begin_task-Forward (reload ev) ch e p d = begin_reload-Forward ev ch e d

start_next-Forward :
    (job : Option Job) (ts : List Task) (ch : Chain) (e : SyncEngine)
    → ch.running ≡ job
    → AllDefault ts
    → AllDefault ch.waiting
    → Forward ch.conversation
        (job_cursor job (last_sequence ch.conversation e))
        e
        (start_next job ts ch e)
unfolding start_next
start_next-Forward none (t ∷ ts) ch e p d w =
    begin_task-Forward t (record ch { waiting = ts }) e d.0 d.1
start_next-Forward none [] ch e p d w =
    quiet-Forward ch.conversation _ e _ refl refl (λ c. refl) (rw p (omega arith)) w
start_next-Forward (some job) ts ch e p d w =
    quiet-Forward ch.conversation _ e _ refl refl (λ c. refl) (rw p (omega arith)) w

pub chain_start-Forward :
    (ch : Chain) (e : SyncEngine)
    → AllDefault ch.waiting
    → Forward ch.conversation (chain_cursor ch e) e (chain_start ch e)
unfolding chain_start
chain_start-Forward ch e d = start_next-Forward ch.running ch.waiting ch e refl d d

-- An answer that keeps the endpoint's contract: a fetch is not refused, and its page is ordered
-- above its `from`. A reload may get any answer.
abbrev pub IsGood : Option Job → Option (List ChatMessage) → Type 0
IsGood (some (fetching r)) (some page) = Ascending r.from page
IsGood (some (fetching r)) none = ⊥
IsGood _ reply = Unit

reply_job-Forward :
    (job : Job) (reply : Option (List ChatMessage)) (ch : Chain) (e : SyncEngine)
    → IsGood (some job) reply
    → AllDefault ch.waiting
    → Forward ch.conversation
        (job_cursor (some job) (last_sequence ch.conversation e))
        e
        (reply_job job reply ch e)
unfolding reply_job
reply_job-Forward (reloading ev) none ch e g d =
    quiet-Forward ch.conversation _ e _ refl refl (λ c. refl) (omega arith) d
reply_job-Forward (reloading ev) (some page) ch e g d =
    quiet-Forward ch.conversation _ e _ refl refl (updates-silent (find_message ev.message_id page))
      (omega arith) d
reply_job-Forward (fetching r) none ch e g d = absurd g
reply_job-Forward (fetching r) (some page) ch e g d =
    let (same, acc) = accept_page-Accepts r page in
    elim (Next-cases (accept_page r page).1) [
      | inl (r', q) ↦
          rw (q, same, reply_job)
            (prepend-Forward ch.conversation r.from e page (finish r' ch e) g
              (finish-silent r' ch e)
              (subst (λ s. Forward ch.conversation s e (finish r' ch e)) (rw q at acc).from
                (finish-Forward r' ch e d)))
      | inr (r', q) ↦
          rw (q, same, reply_job)
            (prepend-Forward ch.conversation r.from e page (continue_fetch r' ch e) g
              (continue_fetch-silent r' ch e)
              (subst (λ s. Forward ch.conversation s e (continue_fetch r' ch e)) (rw q at acc).from
                (continue_fetch-Forward r' ch e d)))
    ]

reply_next-Forward :
    (job : Option Job) (reply : Option (List ChatMessage)) (ch : Chain) (e : SyncEngine)
    → ch.running ≡ job
    → IsGood job reply
    → AllDefault ch.waiting
    → Forward ch.conversation
        (job_cursor job (last_sequence ch.conversation e))
        e
        (reply_next job reply ch e)
unfolding reply_next
reply_next-Forward none reply ch e p g d =
    quiet-Forward ch.conversation _ e _ refl refl (λ c. refl) (rw p (omega arith)) d
reply_next-Forward (some job) reply ch e p g d = reply_job-Forward job reply ch e g d

pub chain_reply-Forward :
    (reply : Option (List ChatMessage)) (ch : Chain) (e : SyncEngine)
    → IsGood ch.running reply
    → AllDefault ch.waiting
    → Forward ch.conversation (chain_cursor ch e) e (chain_reply reply ch e)
unfolding chain_reply
chain_reply-Forward reply ch e g d = reply_next-Forward ch.running reply ch e refl g d
