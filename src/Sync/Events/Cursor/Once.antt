-- ===== src/Sync/Events/Cursor/Once.antt =====
-- Steps and histories of the engine: each message of a conversation is emitted once, in order.
use airway_im_plugin.Base.{◌≡◌, refl, none, List, [], ◌∷◌, ◌++◌, arith, get_elem?, append_assoc}
use airway_im_plugin.Text.{Text}
use airway_im_plugin.Dict
use airway_im_plugin.Sync.{SyncEngine, last_sequence}
use airway_im_plugin.Sync.Fetch.{no_options}
use airway_im_plugin.Sync.Fetch.Order.{
  Ascending, Ascending-append, Ascending-weaken, last_of, last_of-append, last_of-mono,
}
use airway_im_plugin.Sync.Queue.{
  Machine, fetch, reload, Output, request, messages, updated, resolved, reloaded, rejected, enqueue,
}
use airway_im_plugin.Sync.Queue.Cursor.{emitted}
use airway_im_plugin.Sync.Events.{
  Move, fetches, created, moderated, resyncs, sent, forgets, begins, answers, step, fetch_from,
  resync_all, fetch_each, run, handle_message_event_cases, handle_message_moderated_event_cases,
}
use airway_im_plugin.Sync.Events.Serial.{
  Keeps, fresh, fresh-IsSerial, step-IsSerial, enqueue-IsSerial,
}
use airway_im_plugin.Sync.Events.Cursor.{
  cursor, quiet-Advances, stay-Orderly, starts-Orderly, IsGoodAt, replies-Orderly, Advances,
  IsOrderly, Orderly,
}
use airway_im_plugin.Sync.Events.Cursor.Queued.{tracks-Orderly, enqueue-Orderly}

emitted-append :
    (conv : Text) (a b : List Output) → emitted conv (a ++ b) ≡ emitted conv a ++ emitted conv b
emitted-append conv [] b = refl
emitted-append conv (messages c ms ∷ os) b =
    ground (arith, emitted-append conv os b, append_assoc ms (emitted conv os) (emitted conv b))
emitted-append conv (request _ _ _ ∷ os) b = emitted-append conv os b
emitted-append conv (updated _ ∷ os) b = emitted-append conv os b
emitted-append conv (resolved _ ∷ os) b = emitted-append conv os b
emitted-append conv (reloaded _ ∷ os) b = emitted-append conv os b
emitted-append conv (rejected ∷ os) b = emitted-append conv os b

Advances-trans :
    (conv : Text) (m m' m'' : Machine) (a b : List Output)
    → Advances conv m m' a
    → Advances conv m' m'' b
    → Advances conv m m'' (a ++ b)
Advances-trans conv m m' m'' a b h k =
    let s = cursor conv m in
    let later =
      Ascending-weaken (last_of s (emitted conv a)) (cursor conv m') _ h.reaches k.rises in
    let far =
      last_of-mono (last_of s (emitted conv a)) (cursor conv m') (emitted conv b) h.reaches in
    record {
      rises =
          rw emitted-append (Ascending-append s (emitted conv a) (emitted conv b) h.rises later);
      reaches = rw (emitted-append, last_of-append) (omega (arith, far, k.reaches));
    }

Orderly-trans :
    (m m' m'' : Machine) (a b : List Output)
    → Orderly m m' a
    → Orderly m' m'' b
    → Orderly m m'' (a ++ b)
Orderly-trans m m' m'' a b h k = record {
  waits = k.waits;
  advances = λ conv. Advances-trans conv m m' m'' a b (h.advances conv) (k.advances conv);
}

fetch_each-Orderly : (ids : List Text) (m : Machine) → IsOrderly m → Orderly m (fetch_each ids m) []
unfolding fetch_each fetch_from
fetch_each-Orderly [] m v = stay-Orderly m v
fetch_each-Orderly (id ∷ ids) m v =
    let h = enqueue-Orderly id (fetch no_options) m refl v in
    let m' = enqueue id (fetch no_options) m in
    Orderly-trans m m' _ [] [] h (
      fetch_each-Orderly ids m'
        (record { serial = enqueue-IsSerial id (fetch no_options) m v.serial; waits = h.waits }))

-- The moves of a healthy history: fetches begin where the tracker stands, nothing is forgotten, no
-- fetch is refused a page, and each page is in order above the sequence asked for.
abbrev pub IsGoodMove : Machine → Move → Type 0
IsGoodMove m (fetches conv o) = o.from_sequence ≡ none
IsGoodMove m (forgets conv) = ⊥
IsGoodMove m (answers i reply) = IsGoodAt (get_elem? m.chains i) reply
IsGoodMove m _ = Unit

step-Orderly :
    (v : Move) (m : Machine) → IsGoodMove m v → IsOrderly m → Orderly m (step v m).0 (step v m).1
unfolding step
step-Orderly (fetches conv o) m g h = unfold fetch_from in enqueue-Orderly conv (fetch o) m g h
step-Orderly (created ev) m g h =
    handle_message_event_cases (λ x. Orderly m x []) ev m (stay-Orderly m h)
      (unfold fetch_from in enqueue-Orderly ev.conversation_id (fetch no_options) m refl h)
step-Orderly (moderated ev) m g h =
    handle_message_moderated_event_cases (λ x. Orderly m x []) ev m (stay-Orderly m h)
      (enqueue-Orderly ev.conversation_id (reload ev) m tt h)
step-Orderly resyncs m g h =
    unfold resync_all in fetch_each-Orderly (Dict.keys m.engine.last_seq) m h
step-Orderly (sent conv s) m g h = tracks-Orderly conv s m h
step-Orderly (forgets conv) m g h = absurd g
step-Orderly (begins i) m g h = starts-Orderly i m h
step-Orderly (answers i reply) m g h = replies-Orderly i reply m g h

IsGoodMove-Keeps : (v : Move) (m : Machine) → IsGoodMove m v → Keeps v
IsGoodMove-Keeps (forgets conv) m g = g
IsGoodMove-Keeps _ m g = tt

abbrev pub AllGood : Machine → List Move → Type 0
AllGood m [] = Unit
AllGood m (v ∷ vs) = IsGoodMove m v × AllGood (step v m).0 vs

-- A good step keeps the machine orderly and advances every conversation.
pub step-Advances :
    (v : Move) (m : Machine)
    → IsGoodMove m v
    → IsOrderly m
    → IsOrderly (step v m).0 × ((conv : Text) → Advances conv m (step v m).0 (step v m).1)
step-Advances v m g h =
    let o = step-Orderly v m g h in
    (
      record { serial = step-IsSerial v m (IsGoodMove-Keeps v m g) h.serial; waits = o.waits },
      o.advances,
    )

run-Advances :
    (conv : Text) (vs : List Move) (m : Machine)
    → AllGood m vs
    → IsOrderly m
    → Advances conv m (run vs m).0 (run vs m).1
unfolding run
run-Advances conv [] m g h = quiet-Advances conv m m [] refl (omega arith)
run-Advances conv (v ∷ vs) m g h =
    let (h', o) = step-Advances v m g.0 h in
    Advances-trans conv m (step v m).0 _ (step v m).1 _ (o conv)
      (run-Advances conv vs (step v m).0 g.1 h')

pub cursor-fresh : (conv : Text) (e : SyncEngine) → cursor conv (fresh e) ≡ last_sequence conv e
unfolding cursor fresh Dict.get
cursor-fresh conv e = refl

pub fresh-IsOrderly : (e : SyncEngine) → IsOrderly (fresh e)
fresh-IsOrderly e = record { serial = fresh-IsSerial e; waits = unfold fresh in λ i ch h. cc }

-- From a new engine, over any interleaving of calls, events, sends and answers in which fetches
-- begin where the tracker stands, nothing is forgotten, no fetch is refused a page, and each page is
-- in order above the sequence asked for: the messages that the engine emits of a conversation have
-- strictly rising sequences, all above the sequence that it began with. So none of them is emitted
-- twice, or out of order.
pub run_emits_once :
    (conv : Text) (vs : List Move) (e : SyncEngine)
    → AllGood (fresh e) vs
    → Ascending (last_sequence conv e) (emitted conv (run vs (fresh e)).1)
run_emits_once conv vs e g =
    rw cursor-fresh at (run-Advances conv vs (fresh e) g (fresh-IsOrderly e)).rises
