-- ===== src/Sync/Events/Serial.antt =====
-- The queues serialize: as long as no conversation is forgotten, the tasks of one conversation are
-- all in one chain, and so at most one of them is running.
pub mod Steps
pub use Steps.*
use airway_im_plugin.Base.{
  ℕ, zero, suc, ◌<◌, ◌≡◌, refl, none, some, List, [], ◌∷◌, ◌++◌, arith, length, get_elem?,
  get_elem?-set, get_elem?-append_end, ap, sym, ◌≢◌, ◌∙◌,
}
use airway_im_plugin.Text.{Text, text_eq_refl}
use airway_im_plugin.Dict
use airway_im_plugin.Dict.{Dict}
use airway_im_plugin.Dict.Laws.{get-remove}
use airway_im_plugin.Sync.{SyncEngine, forget_sequence}
use airway_im_plugin.Sync.Fetch.{no_options, Run, begin}
use airway_im_plugin.Sync.Queue.{
  Machine, Chain, Job, fetching, fetch, forget, on_chain, chain_start, starts, enqueue,
}
use airway_im_plugin.Sync.Events.{
  Move, fetches, created, moderated, resyncs, sent, forgets, begins, answers, step, fetch_from,
  handle_message_event_cases, handle_message_moderated_event_cases, resync_all, run,
}

-- The move forgets no conversation.
abbrev pub Keeps : Move → Type 0
Keeps (forgets conv) = ⊥
Keeps _ = Unit

-- Every step but a `forget` keeps each conversation's tasks in one chain.
pub step-IsSerial : (v : Move) (m : Machine) → Keeps v → IsSerial m → IsSerial (step v m).0
unfolding step
step-IsSerial (fetches conv o) m k h = unfold fetch_from in enqueue-IsSerial conv _ m h
step-IsSerial (created ev) m k h =
    handle_message_event_cases IsSerial ev m h
      (unfold fetch_from in enqueue-IsSerial ev.conversation_id _ m h)
step-IsSerial (moderated ev) m k h =
    handle_message_moderated_event_cases IsSerial ev m h (enqueue-IsSerial ev.conversation_id _ m h)
step-IsSerial resyncs m k h =
    unfold resync_all in fetch_each-IsSerial (Dict.keys m.engine.last_seq) m h
step-IsSerial (sent conv s) m k h = tracks-IsSerial conv s m h
step-IsSerial (forgets conv) m k h = absurd k
step-IsSerial (begins i) m k h = starts-IsSerial i m h
step-IsSerial (answers i reply) m k h = replies-IsSerial i reply m h

-- No move of the history forgets a conversation.
abbrev pub AllKeep : List Move → Type 0
AllKeep [] = Unit
AllKeep (v ∷ vs) = Keeps v × AllKeep vs

pub run-IsSerial : (vs : List Move) (m : Machine) → AllKeep vs → IsSerial m → IsSerial (run vs m).0
unfolding run
run-IsSerial [] m k h = h
run-IsSerial (v ∷ vs) m k h = run-IsSerial vs (step v m).0 k.1 (step-IsSerial v m k.0 h)

some_injective : (i j : ℕ) → some i ≡ some j → i ≡ j
some_injective i j e = cc

none_is_some : (i : ℕ) → none ≡ some i → ⊥
none_is_some i e = cc

-- The machine of a new engine.
unfoldable pub fresh : SyncEngine → Machine
fresh e = record { engine = e; queues = []; chains = [] }

pub fresh-IsSerial : (e : SyncEngine) → IsSerial (fresh e)
unfolding fresh Dict.get
fresh-IsSerial e = record { named = λ i ch h. cc; linked = λ conv i h. absurd (none_is_some i h) }

-- From a new engine, after any history of calls, events, sends and answers in which nothing is
-- forgotten, two chains of one conversation are the same chain: of all tasks of a conversation at
-- most one has begun and not ended.
pub run_serialized :
    (e : SyncEngine) (vs : List Move) (i j : ℕ) (a b : Chain)
    → AllKeep vs
    → get_elem? (run vs (fresh e)).0.chains i ≡ some a
    → get_elem? (run vs (fresh e)).0.chains j ≡ some b
    → a.conversation ≡ b.conversation
    → i ≡ j
run_serialized e vs i j a b k p q same =
    let v = run-IsSerial vs (fresh e) k (fresh-IsSerial e) in
    some_injective i j
      (sym (v.named i a p) ∙ ap (λ c. Dict.get c (run vs (fresh e)).0.queues) same ∙ v.named j b q)

-- The machine after `forget` and a new fetch of the conversation: a chain of its own at the end.
forget-fetch :
    (m : Machine) (conv : Text)
    → fetch_from conv no_options (forget conv m) ≡ record {
      engine = forget_sequence conv m.engine;
      queues = Dict.put conv (length m.chains) (Dict.remove conv m.queues);
      chains =
          m.chains
          ++ record { conversation = conv; running = none; waiting = fetch no_options ∷ [] } ∷ [];
    }
unfolding fetch_from forget enqueue
forget-fetch m conv =
    let gone : Dict.get conv (Dict.remove conv m.queues) ≡ none =
      get-remove conv conv m.queues ∙ rw (text_eq_refl conv) in
    rw (gone, enqueue)

-- A begun task of a chain that stands apart from the end.
get_elem?-lt_length :
    {A : Type 0} (xs : List A) (i : ℕ) (x : A) → get_elem? xs i ≡ some x → i < length xs
get_elem?-lt_length [] i x h = cc
get_elem?-lt_length (y ∷ xs) zero x h = omega arith
get_elem?-lt_length (y ∷ xs) (suc i) x h = omega (arith, get_elem?-lt_length xs i x h)

-- What `forget` breaks. Where a task of a conversation has begun on the chain numbered `i` and the
-- conversation is then forgotten and fetched again, the new fetch begins on a chain of its own
-- while the old task goes on: two tasks of one conversation run at once.
pub forget_splits :
    (m : Machine) (i : ℕ) (ch : Chain) (job : Job)
    → get_elem? m.chains i ≡ some ch
    → ch.running ≡ some job
    → let conv = ch.conversation in
      let k = length m.chains in
      let m' = (starts k (fetch_from conv no_options (forget conv m))).0 in
      (get_elem? m'.chains i ≡ some ch)
      × (b : Chain) × (r : Run) × (get_elem? m'.chains k ≡ some b)
      × (b.conversation ≡ conv)
      × (b.running ≡ some (fetching r))
      × (i ≢ k)
unfolding starts on_chain chain_start begin
forget_splits m i ch job at busy =
    let conv = ch.conversation in
    let k = length m.chains in
    let e = forget_sequence conv m.engine in
    let b : Chain = record {
      conversation = conv;
      running = none;
      waiting = fetch no_options ∷ [];
    } in
    let chains = m.chains ++ b ∷ [] in
    let lt = get_elem?-lt_length m.chains i ch at in
    let last : get_elem? chains k ≡ some b = get_elem?-append_end m.chains k b ∙ ground arith in
    let old : get_elem? chains i ≡ some ch = get_elem?-append_end m.chains i b ∙ ground arith in
    let r = begin conv no_options e in
    rw (forget-fetch m conv) (
      rw (last, on_chain)
        (
          ground (
            arith,
            get_elem?-set chains k i (record b { running = some (fetching r); waiting = [] }) last,
          ),
          record b { running = some (fetching r); waiting = [] },
          r,
          ground (
            arith,
            get_elem?-set chains k k (record b { running = some (fetching r); waiting = [] }) last,
          ),
          refl,
          refl,
          omega arith,
        ))
