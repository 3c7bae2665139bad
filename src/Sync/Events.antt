-- ===== src/Sync/Events.antt =====
-- SyncEngine's entry points (install/ignore/sdk/ts/dist/esm/sync.js): history and resynchronization,
-- the gateway's events, and the steps in which the calls of the program and the answers of the
-- server may come.
pub mod Ignored
pub mod Serial
pub mod Cursor
use airway_im_plugin.Base.{
  ℕ, Bool, false, Option, none, some, List, [], ◌∷◌, ◌++◌, if◌then◌else◌, Bool-cases, inl, inr,
}
use airway_im_plugin.Base.Int.{ℤ, leb_ℤ}
use airway_im_plugin.Text.{Text}
use airway_im_plugin.Dict
use airway_im_plugin.Sync.{ChatMessage, GatewayEvent, is_tracked, last_sequence}
use airway_im_plugin.Sync.Fetch.{FetchOptions, no_options}
use airway_im_plugin.Sync.Queue.{
  Machine, Output, fetch, reload, enqueue, starts, replies, tracks, forget,
}

-- fetchFrom(conversationId, options)
unfoldable pub fetch_from : Text → FetchOptions → Machine → Machine
fetch_from conv o m = enqueue conv (fetch o) m

-- `target !== undefined && target <= this.lastSequence(conversationId)`
unfoldable pub is_applied : Option ℤ → ℤ → Bool
is_applied none last = false
is_applied (some target) last = leb_ℤ target last

-- handleMessageEvent(event). The rejection of the fetch is swallowed.
unfoldable pub handle_message_event : GatewayEvent → Machine → Machine
handle_message_event ev m =
    if is_tracked ev.conversation_id m.engine
    then (if is_applied ev.sequence (last_sequence ev.conversation_id m.engine)
        then m
        else fetch_from ev.conversation_id no_options m)
    else m

-- handleMessageModeratedEvent(event), with reloadMessage(conversationId, event) as its task.
unfoldable pub handle_message_moderated_event : GatewayEvent → Machine → Machine
handle_message_moderated_event ev m =
    if is_tracked ev.conversation_id m.engine then enqueue ev.conversation_id (reload ev) m else m

pub fetch_each : List Text → Machine → Machine
unfolding fetch_from
fetch_each [] m = m
fetch_each (id ∷ ids) m = fetch_each ids (fetch_from id no_options m)

-- resyncAll()
unfoldable pub resync_all : Machine → Machine
unfolding fetch_each
resync_all m = fetch_each (Dict.keys m.engine.last_seq) m

-- What may happen next: a call, a task that begins, or an answer.
pub data Move : Type 0 where
  fetches : Text → FetchOptions → Move
  created : GatewayEvent → Move
  moderated : GatewayEvent → Move
  resyncs : Move
  sent : Text → ℤ → Move
  forgets : Text → Move
  begins : ℕ → Move
  answers : ℕ → Option (List ChatMessage) → Move

unfoldable pub step : Move → Machine → Machine × List Output
step (fetches conv o) m = (fetch_from conv o m, [])
step (created ev) m = (handle_message_event ev m, [])
step (moderated ev) m = (handle_message_moderated_event ev m, [])
step resyncs m = (resync_all m, [])
step (sent conv seq) m = (tracks conv seq m, [])
step (forgets conv) m = (forget conv m, [])
step (begins i) m = starts i m
step (answers i reply) m = replies i reply m

-- A history: the machine after it, and all outputs.
unfoldable pub run : List Move → Machine → Machine × List Output
run [] m = (m, [])
run (v ∷ vs) m = let (m', out) = step v m in let (m'', rest) = run vs m' in (m'', out ++ rest)

-- An event leaves the machine as it was, or puts one task behind the conversation's queue.
pub handle_message_event_cases :
    (P : Machine → Type 0) (ev : GatewayEvent) (m : Machine)
    → P m
    → P (fetch_from ev.conversation_id no_options m)
    → P (handle_message_event ev m)
unfolding handle_message_event
handle_message_event_cases P ev m same fetched =
    elim (Bool-cases (is_tracked ev.conversation_id m.engine)) [
      | inl p ↦
          rw p
            (elim (Bool-cases
              (is_applied ev.sequence (last_sequence ev.conversation_id m.engine))) [
                | inl q ↦ rw q same
                | inr q ↦ rw q fetched
              ])
      | inr p ↦ rw p same
    ]

pub handle_message_moderated_event_cases :
    (P : Machine → Type 0) (ev : GatewayEvent) (m : Machine)
    → P m
    → P (enqueue ev.conversation_id (reload ev) m)
    → P (handle_message_moderated_event ev m)
unfolding handle_message_moderated_event
handle_message_moderated_event_cases P ev m same queued =
    elim (Bool-cases (is_tracked ev.conversation_id m.engine)) [
      | inl p ↦ rw p queued
      | inr p ↦ rw p same
    ]
