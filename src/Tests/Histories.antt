-- ===== src/Tests/Histories.antt =====
-- The engine's events and queues at concrete inputs.
use airway_im_plugin.Base.{
  ℕ, ◌≡◌, ◌≢◌, refl, none, some, List, [], ◌∷◌, ◌++◌, arith, get_elem?, take,
}
use airway_im_plugin.Base.Int.{ℤ, pos, ◌≤ℤ◌, ◌<ℤ◌}
use airway_im_plugin.Text.{text, text_eq}
use airway_im_plugin.Dict
use airway_im_plugin.Sync.{last_sequence, is_tracked, track, persist}
use airway_im_plugin.Sync.Fetch.{Run, no_options, begin, run_fetch, accept_page}
use airway_im_plugin.Sync.Fetch.Order.{Ascending, last_of}
use airway_im_plugin.Sync.Fetch.Complete.{newer}
use airway_im_plugin.Sync.Queue.{
  Machine, Chain, fetching, fetch, reload, enqueue, on_chain, starts, replies, chain_start,
  chain_reply, tracks, forget,
}
use airway_im_plugin.Sync.Queue.Cursor.{emitted}
use airway_im_plugin.Sync.Queue.Alone.{drive, drive_catches}
use airway_im_plugin.Sync.Events.{
  Move, created, begins, answers, fetch_from, handle_message_event, run, step, is_applied,
}
use airway_im_plugin.Sync.Events.Serial.{fresh, run_serialized, forget_splits}
use airway_im_plugin.Sync.Events.Cursor.Once.{AllGood, run_emits_once}
use airway_im_plugin.Sync.Events.Ignored.{sent_hides}
use airway_im_plugin.Tests.Fixtures.{
  room, message, log, log-Ascending, engine, created_event, serve, serve-IsOrdered,
}

-- Two events come while the first one's fetch is out; its page brings both messages.
abbrev two_events : List Move
two_events =
    created (created_event 2)
    ∷ begins 0
    ∷ created (created_event 4)
    ∷ answers 0 (some (message (text "b") 2 ∷ message (text "c") 4 ∷ []))
    ∷ begins 0
    ∷ answers 0 (some [])
    ∷ []

test_two_events :
    emitted room (run two_events (fresh engine)).1
    ≡ message (text "b") 2 ∷ message (text "c") 4 ∷ []
unfolding run step fresh handle_message_event fetch_from enqueue starts replies on_chain chain_start
    chain_reply begin accept_page track persist last_sequence is_tracked is_applied Dict.get
    Dict.has Dict.put text_eq
test_two_events = refl

two_events-AllGood : AllGood (fresh engine) two_events
unfolding run step fresh handle_message_event fetch_from enqueue starts replies on_chain chain_start
    chain_reply begin accept_page track persist last_sequence is_tracked is_applied Dict.get
    Dict.has Dict.put text_eq
two_events-AllGood = omega arith

run_emits_once_example :
    Ascending (last_sequence room engine) (emitted room (run two_events (fresh engine)).1)
run_emits_once_example = run_emits_once room two_events engine two_events-AllGood

-- The chain of these events, when they are over.
abbrev ended : Chain
ended = record { conversation = room; running = none; waiting = [] }

ended_at : get_elem? (run two_events (fresh engine)).0.chains 0 ≡ some ended
unfolding run step fresh handle_message_event fetch_from enqueue starts replies on_chain chain_start
    chain_reply begin accept_page track persist last_sequence is_tracked is_applied Dict.get
    Dict.has Dict.put text_eq
ended_at = refl

run_serialized_example : ◌≡◌ {A = ℕ} 0 0
run_serialized_example =
    run_serialized engine two_events 0 0 ended ended (omega arith) ended_at ended_at refl

-- A fetch whose first page is out.
abbrev running_fetch : Run
running_fetch = record { conversation = room; limit = 200; from = pos 1; pages_left = 10; all = [] }

abbrev busy_chain : Chain
busy_chain = record { conversation = room; running = some (fetching running_fetch); waiting = [] }

abbrev busy : Machine
busy = record { engine = engine; queues = (room, 0) ∷ []; chains = busy_chain ∷ [] }

forget_splits_example :
    let m' = (starts 1 (fetch_from room no_options (forget room busy))).0 in
    (get_elem? m'.chains 0 ≡ some busy_chain)
    × (b : Chain) × (r : Run) × (get_elem? m'.chains 1 ≡ some b)
    × (b.conversation ≡ room)
    × (b.running ≡ some (fetching r))
    × (◌≢◌ {A = ℕ} 0 1)
forget_splits_example = forget_splits busy 0 busy_chain (fetching running_fetch) refl refl

above_last : (s : ℤ) → (created_event 2).sequence ≡ some s → last_sequence room engine <ℤ s
unfolding last_sequence Dict.get text_eq
above_last s e = ground arith

below_last : pos 1 ≤ℤ last_sequence room engine
unfolding last_sequence Dict.get text_eq
below_last = omega arith

sent_hides_example :
    let m' = tracks room (pos 4) busy in
    (handle_message_event (created_event 3) m' ≡ m')
    × Ascending (pos 4) (run_fetch serve room no_options m'.engine tt).1.emitted
sent_hides_example =
    sent_hides serve (created_event 3) busy (pos 3) (pos 4) tt serve-IsOrdered refl (omega arith)

-- A chain with a fetch to begin, and a reload behind it.
abbrev next_chain : Chain
next_chain = record {
  conversation = room;
  running = none;
  waiting = fetch no_options ∷ reload (created_event 2) ∷ [];
}

drive_catches_example :
    let t = chain_start next_chain engine in
    let d = drive serve 10 t.chain.running t.chain t.engine tt in
    let s = last_sequence room engine in
    (emitted room (t.out ++ d.out) ≡ take 2000 (newer s log))
    × (last_sequence room d.engine ≡ last_of s (take 2000 (newer s log)))
    × (d.chain ≡ record next_chain { running = none; waiting = reload (created_event 2) ∷ [] })
drive_catches_example =
    drive_catches serve log (pos 0) (reload (created_event 2) ∷ []) next_chain engine tt
      log-Ascending (λ after limit w lo hi. refl) refl refl
