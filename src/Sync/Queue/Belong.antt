-- ===== src/Sync/Queue/Belong.antt =====
-- Which conversation the emitted messages are of: the chain's, if the answers are.
use airway_im_plugin.Base.{
  ℕ, ◌≡◌, refl, Option, none, some, List, [], ◌∷◌, ◌++◌, All, get_elem?, if_cases, inl, inr, ◌==◌,
}
use airway_im_plugin.Base.Int.{ℤ}
use airway_im_plugin.Text.{Text}
use airway_im_plugin.Sync.{ChatMessage, GatewayEvent, SyncEngine}
use airway_im_plugin.Sync.Fetch.{Run, accept_page}
use airway_im_plugin.Sync.Fetch.Order.{accept_page-Accepts, Next-cases}
use airway_im_plugin.Sync.Queue.{
  Machine, Chain, Job, fetching, reloading, Task, fetch, reload, Output, request, messages, updated,
  resolved, reloaded, rejected, Effect, chain_start, chain_reply, start_next, begin_task,
  begin_reload, continue_fetch, finish, reply_next, reply_job, emits, prepend, updates,
  find_message, starts, replies, on_chain_cases,
}

abbrev pub AreOf : Text → List ChatMessage → Type 0
AreOf conv = All (λ (m : ChatMessage). m.conversation_id ≡ conv)

-- Each call of onMessages is about messages of the conversation that it is made for.
abbrev pub AllBelong : List Output → Type 0
AllBelong [] = Unit
AllBelong (messages conv ms ∷ os) = AreOf conv ms × AllBelong os
AllBelong (request _ _ _ ∷ os) = AllBelong os
AllBelong (updated _ ∷ os) = AllBelong os
AllBelong (resolved _ ∷ os) = AllBelong os
AllBelong (reloaded _ ∷ os) = AllBelong os
AllBelong (rejected ∷ os) = AllBelong os

-- The server answers with messages of the conversation that was asked for.
abbrev pub AnswersOf : Option Chain → Option (List ChatMessage) → Type 0
AnswersOf (some ch) (some page) = AreOf ch.conversation page
AnswersOf _ _ = Unit

continue_fetch-AllBelong :
    (r : Run) (ch : Chain) (e : SyncEngine) → AllBelong (continue_fetch r ch e).out
unfolding continue_fetch finish
continue_fetch-AllBelong r ch e =
    if_cases (λ (t : Effect). AllBelong t.out) (r.pages_left == 0) _ _ (λ p. tt) (λ p. tt)

begin_reload-AllBelong :
    (ev : GatewayEvent) (o : Option ℤ)
    → ev.sequence ≡ o
    → (ch : Chain) (e : SyncEngine) → AllBelong (begin_reload ev ch e).out
unfolding begin_reload
begin_reload-AllBelong ev none q ch e = rw (q, begin_reload) tt
begin_reload-AllBelong ev (some n) q ch e = rw (q, begin_reload) tt

updates-AllBelong : (o : Option ChatMessage) → AllBelong (updates o)
unfolding updates
updates-AllBelong none = tt
updates-AllBelong (some m) = tt

start_next-AllBelong :
    (job : Option Job) (ts : List Task) (ch : Chain) (e : SyncEngine)
    → AllBelong (start_next job ts ch e).out
unfolding start_next begin_task
start_next-AllBelong none [] ch e = tt
start_next-AllBelong none (fetch o ∷ ts) ch e =
    continue_fetch-AllBelong _ (record ch { waiting = ts }) e
start_next-AllBelong none (reload ev ∷ ts) ch e =
    begin_reload-AllBelong ev ev.sequence refl (record ch { waiting = ts }) e
start_next-AllBelong (some j) ts ch e = tt

emits-AllBelong :
    (conv : Text) (page : List ChatMessage) (os : List Output)
    → AreOf conv page
    → AllBelong os
    → AllBelong (emits conv page ++ os)
unfolding emits
emits-AllBelong conv [] os h k = k
emits-AllBelong conv (m ∷ ms) os h k = (h, k)

reply_job-AllBelong :
    (job : Job) (reply : Option (List ChatMessage)) (ch : Chain) (e : SyncEngine)
    → AnswersOf (some ch) reply
    → AllBelong (reply_job job reply ch e).out
unfolding reply_job prepend updates finish
reply_job-AllBelong job none ch e h = tt
reply_job-AllBelong (reloading ev) (some page) ch e h =
    updates-AllBelong (find_message ev.message_id page)
reply_job-AllBelong (fetching r) (some page) ch e h =
    let (same, acc) = accept_page-Accepts r page in
    elim (Next-cases (accept_page r page).1) [
      | inl (r', q) ↦ rw (q, same, reply_job) (emits-AllBelong ch.conversation page _ h tt)
      | inr (r', q) ↦
          rw (q, same, reply_job)
            (emits-AllBelong ch.conversation page _ h (continue_fetch-AllBelong r' ch e))
    ]

-- The steps of the machine.
pub starts-AllBelong : (i : ℕ) (m : Machine) → AllBelong (starts i m).1
unfolding starts chain_start
starts-AllBelong i m =
    on_chain_cases (λ x. AllBelong x.1) chain_start i m tt
      (λ ch at. start_next-AllBelong ch.running ch.waiting ch m.engine)

reply_next-AllBelong :
    (job : Option Job) (reply : Option (List ChatMessage)) (ch : Chain) (e : SyncEngine)
    → AnswersOf (some ch) reply
    → AllBelong (reply_next job reply ch e).out
unfolding reply_next
reply_next-AllBelong none reply ch e h = tt
reply_next-AllBelong (some job) reply ch e h = reply_job-AllBelong job reply ch e h

pub replies-AllBelong :
    (i : ℕ) (reply : Option (List ChatMessage)) (m : Machine)
    → AnswersOf (get_elem? m.chains i) reply
    → AllBelong (replies i reply m).1
unfolding replies chain_reply
replies-AllBelong i reply m h =
    on_chain_cases (λ x. AllBelong x.1) (chain_reply reply) i m tt
      (λ ch at. reply_next-AllBelong ch.running reply ch m.engine (rw at at h))
