-- ===== src/Sync/Queue.antt =====
-- SyncEngine's promise queues (install/ignore/sdk/ts/dist/esm/sync.js): fetches and reloads as
-- tasks that wait in chains, with everything else free to happen between two of a task's awaits.
-- A chain is the promises that `enqueue` hung on one another; `queues` names each conversation's.
pub mod Cursor
pub mod Belong
pub mod Alone
use airway_im_plugin.Base.{
  ℕ, zero, ◌-◌, Option, none, some, List, [], ◌∷◌, ◌++◌, ◌==◌, if◌then◌else◌, length, get_elem?,
  set, ◌≡◌, Option-cases, inl, inr,
}
use airway_im_plugin.Base.Int.{ℤ, pos, ◌-ℤ◌}
use airway_im_plugin.Text.{Text, text_eq}
use airway_im_plugin.Dict
use airway_im_plugin.Dict.{Dict}
use airway_im_plugin.Sync.{ChatMessage, GatewayEvent, SyncEngine, track, forget_sequence}
use airway_im_plugin.Sync.Fetch.{Run, FetchOptions, begin, more, stop, accept_page}

pub data Task : Type 0 where
  fetch : FetchOptions → Task
  reload : GatewayEvent → Task

-- A task that has begun, and waits for its answer from listMessages.
pub data Job : Type 0 where
  fetching : Run → Job
  reloading : GatewayEvent → Job

pub record Chain : Type 0 where
  pub conversation : Text
  pub running : Option Job
  pub waiting : List Task

-- What the engine does to the outside: a call of listMessages, of onMessages (with the conversation
-- whose fetch makes it, which the call itself does not pass), of onMessageUpdated, and the end of a
-- task.
pub data Output : Type 0 where
  request : Text → ℤ → ℕ → Output
  messages : Text → List ChatMessage → Output
  updated : ChatMessage → Output
  resolved : List ChatMessage → Output
  reloaded : Option ChatMessage → Output
  rejected : Output

-- One step of a task: its chain and the engine after it, and what went out.
pub record Effect : Type 0 where
  pub chain : Chain
  pub engine : SyncEngine
  pub out : List Output

-- The end of runFetch.
pub finish : Run → Chain → SyncEngine → Effect
finish r ch e = record {
  chain = record ch { running = none };
  engine = track ch.conversation r.from e;
  out = resolved r.all ∷ [];
}

-- The test of the loop, and the request of the next page.
pub continue_fetch : Run → Chain → SyncEngine → Effect
unfolding finish
continue_fetch r ch e = if r.pages_left == 0 then finish r ch e else record {
  chain = record ch { running = some (fetching r) };
  engine = e;
  out = request ch.conversation r.from r.limit ∷ [];
}

begin_reload : GatewayEvent → Chain → SyncEngine → Effect
begin_reload ev ch e = elim ev.sequence [
  | none ↦ record { chain = record ch { running = none }; engine = e; out = reloaded none ∷ [] }
  | some s ↦ record {
    chain = record ch { running = some (reloading ev) };
    engine = e;
    out = request ch.conversation (s -ℤ pos 1) 10 ∷ [];
  }
]

begin_task : Task → Chain → SyncEngine → Effect
unfolding continue_fetch begin begin_reload
begin_task (fetch o) ch e = continue_fetch (begin ch.conversation o e) ch e
begin_task (reload ev) ch e = begin_reload ev ch e

-- The next task of a chain begins when the one before it has ended.
start_next : Option Job → List Task → Chain → SyncEngine → Effect
unfolding begin_task
start_next none (t ∷ ts) ch e = begin_task t (record ch { waiting = ts }) e
start_next _ _ ch e = record { chain = ch; engine = e; out = [] }

unfoldable pub chain_start : Chain → SyncEngine → Effect
unfolding start_next
chain_start ch e = start_next ch.running ch.waiting ch e

-- onMessages is called on a page that is not empty.
pub emits : Text → List ChatMessage → List Output
emits conv [] = []
emits conv (m ∷ ms) = messages conv (m ∷ ms) ∷ []

pub prepend : List Output → Effect → Effect
prepend out f = record f { out = out ++ f.out }

-- page.find((m) => m.id === event.message_id)
unfoldable pub find_message : Option Text → List ChatMessage → Option ChatMessage
find_message none ms = none
find_message (some id) [] = none
find_message (some id) (m ∷ ms) = if text_eq m.id id then some m else find_message (some id) ms

updates : Option ChatMessage → List Output
updates none = []
updates (some m) = updated m ∷ []

-- An answer of listMessages, `none` where it rejects, to the job that waits for it. The rejection
-- ends the task. A reload's message goes to onMessageUpdated.
reply_job : Job → Option (List ChatMessage) → Chain → SyncEngine → Effect
unfolding emits prepend updates find_message continue_fetch
reply_job job none ch e = record {
  chain = record ch { running = none };
  engine = e;
  out = rejected ∷ [];
}
reply_job (fetching r) (some page) ch e =
    let (out, next) = accept_page r page in
    elim next [
      | stop r' ↦ prepend (emits ch.conversation out) (finish r' ch e)
      | more r' ↦ prepend (emits ch.conversation out) (continue_fetch r' ch e)
    ]
reply_job (reloading ev) (some page) ch e =
    let found = find_message ev.message_id page in
    record {
      chain = record ch { running = none };
      engine = e;
      out = reloaded found ∷ updates found;
    }

reply_next : Option Job → Option (List ChatMessage) → Chain → SyncEngine → Effect
unfolding reply_job
reply_next none reply ch e = record { chain = ch; engine = e; out = [] }
reply_next (some job) reply ch e = reply_job job reply ch e

unfoldable pub chain_reply : Option (List ChatMessage) → Chain → SyncEngine → Effect
unfolding reply_next
chain_reply reply ch e = reply_next ch.running reply ch e

-- The engine with its queues: `chains` are all that were ever made, and a chain keeps its number.
pub record Machine : Type 0 where
  pub engine : SyncEngine
  pub queues : Dict ℕ
  pub chains : List Chain

-- A step of the chain with a number; no such chain, no step.
unfoldable pub on_chain : (Chain → SyncEngine → Effect) → ℕ → Machine → Machine × List Output
on_chain f i m = elim (get_elem? m.chains i) [
  | none ↦ (m, [])
  | some ch ↦
      let t = f ch m.engine in
      (record m { engine = t.engine; chains = set m.chains i t.chain }, t.out)
]

unfoldable pub starts : ℕ → Machine → Machine × List Output
starts i m = on_chain chain_start i m

unfoldable pub replies : ℕ → Option (List ChatMessage) → Machine → Machine × List Output
replies i reply m = on_chain (chain_reply reply) i m

add_task : Task → Option Chain → ℕ → List Chain → List Chain
add_task t none i chs = chs
add_task t (some ch) i chs = set chs i (record ch { waiting = ch.waiting ++ t ∷ [] })

-- enqueue(conversationId, task): behind the conversation's last promise, or on a resolved one.
unfoldable pub enqueue : Text → Task → Machine → Machine
unfolding add_task
enqueue conv t m = elim (Dict.get conv m.queues) [
  | none ↦ record m {
    queues = Dict.put conv (length m.chains) m.queues;
    chains = m.chains ++ record { conversation = conv; running = none; waiting = t ∷ [] } ∷ [];
  }
  | some i ↦ record m {
    queues = Dict.put conv i m.queues;
    chains = add_task t (get_elem? m.chains i) i m.chains;
  }
]

-- track, called by the session after a send.
unfoldable pub tracks : Text → ℤ → Machine → Machine
tracks conv seq m = record m { engine = track conv seq m.engine }

-- forget(conversationId): the queue's entry goes, and what runs on its chain runs on.
unfoldable pub forget : Text → Machine → Machine
forget conv m = record m {
  engine = forget_sequence conv m.engine;
  queues = Dict.remove conv m.queues;
}

-- A statement about a step of a chain, by whether the chain is there.
pub on_chain_cases :
    (P : Machine × List Output → Type 0) (f : Chain → SyncEngine → Effect) (i : ℕ) (m : Machine)
    → P (m, [])
    → ((ch : Chain)
        → get_elem? m.chains i ≡ some ch
        → P (
          record m {
            engine = (f ch m.engine).engine;
            chains = set m.chains i (f ch m.engine).chain;
          },
          (f ch m.engine).out,
        ))
    → P (on_chain f i m)
unfolding on_chain
on_chain_cases P f i m missing found = elim (Option-cases (get_elem? m.chains i)) [
  | inl p ↦ rw (p, on_chain) missing
  | inr (ch, p) ↦ rw (p, on_chain) (found ch p)
]
