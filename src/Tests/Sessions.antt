-- ===== src/Tests/Sessions.antt =====
-- The session at concrete inputs.
use airway_im_plugin.Base.{
  ◌≡◌, refl, Bool, true, false, none, some, Option, List, [], ◌∷◌, ◌++◌, if◌then◌else◌, arith,
}
use airway_im_plugin.Text.{text, text_eq}
use airway_im_plugin.Json.{Json}
use airway_im_plugin.Dict
use airway_im_plugin.Sync
use airway_im_plugin.Sync.{ChatMessage, GatewayEvent, last_sequence, is_tracked, track, persist}
use airway_im_plugin.Sync.Fetch.{begin, accept_page}
use airway_im_plugin.Sync.Fetch.Order.{Ascending}
use airway_im_plugin.Sync.Queue.{
  Output, messages, resolved, enqueue, on_chain, starts, replies, chain_start, chain_reply,
}
use airway_im_plugin.Sync.Queue.Cursor.{emitted}
use airway_im_plugin.Sync.Events
use airway_im_plugin.Sync.Events.{fetch_from}
use airway_im_plugin.Gateway
use airway_im_plugin.Http
use airway_im_plugin.Emitter.{
  Delivery, listeners_of, has_listener, emit, emit_local, call_each, call_listener, on,
  add_listener, frame,
}
use airway_im_plugin.Emitter.Calm.{IsCalm, heard}
use airway_im_plugin.Session.{
  AirwayIm, Options, new, message_event, emitting, emitting_local, emit_both, on_messages,
  conversation_for, remember_kind, made_conversation,
}
use airway_im_plugin.Session.Calm.{logged, session_word}
use airway_im_plugin.Session.Events.{handle_event, on_outputs, on_output}
use airway_im_plugin.Session.Events.Routing.{routed, news_word, handle_event-Routes}
use airway_im_plugin.Session.Steps.{
  Move, ons, conversation_ons, direct_came, begins, answers, step, run, engine_step, history,
  conversation_on, ensure_tracked, direct_arrived,
}
use airway_im_plugin.Session.Steps.Delivers.{of_conversation, on_outputs_tells}
use airway_im_plugin.Session.Steps.Order.{told_of}
use airway_im_plugin.Session.Steps.Order.History.{AllGood, delivered_in_order}
use airway_im_plugin.Tests.Fixtures.{room, message, created_event}

-- Listeners that do not throw.
abbrev pub calm : List Delivery → Delivery → Bool
calm log d = false

pub calm-IsCalm : IsCalm calm
calm-IsCalm log d e = refl

abbrev pub cast : Json → GatewayEvent
cast f = created_event 2

abbrev pub options : Options
options = record {
  api_url = text "https://host";
  ws_url = none;
  credential = text "key";
  timeout_ms = none;
  ping_interval_ms = none;
  has_get_credential = true;
  persist_sequences = none;
  storage = none;
  auto_connect = false;
}

-- A direct conversation comes, its object and the session get listeners, and its first fetch ends.
abbrev pub chat : List Move
chat =
    ons message_event 7
    ∷ direct_came room
    ∷ conversation_ons room message_event 8
    ∷ begins 0
    ∷ answers 0 (some (message (text "a") 1 ∷ message (text "b") 2 ∷ []))
    ∷ []

chat-AllGood : AllGood calm 0 cast chat (new options)
unfolding made_conversation new Sync.new Gateway.new Http.new step engine_step conversation_on
    ensure_tracked direct_arrived conversation_for remember_kind history Events.step fetch_from
    enqueue starts replies on_chain chain_start chain_reply begin accept_page track persist
    last_sequence is_tracked Dict.get Dict.has Dict.put text_eq on listeners_of has_listener
    add_listener on_outputs on_output on_messages emit_both emitting emitting_local emit emit_local
    call_each call_listener
chat-AllGood = (tt, (tt, (tt, (tt, ((omega arith, (refl, (refl, tt))), tt)))))

abbrev told_in : Option AirwayIm → List ChatMessage
told_in none = []
told_in (some s) = told_of room 7 s.log

test_chat :
    told_in (run calm 2 cast chat (new options)) ≡ message (text "a") 1 ∷ message (text "b") 2 ∷ []
unfolding made_conversation run new Sync.new Gateway.new Http.new step engine_step conversation_on
    ensure_tracked direct_arrived conversation_for remember_kind history Events.step fetch_from
    enqueue starts replies on_chain chain_start chain_reply begin accept_page track persist
    last_sequence is_tracked Dict.get Dict.has Dict.put text_eq on listeners_of has_listener
    add_listener on_outputs on_output on_messages emit_both emitting emitting_local emit emit_local
    call_each call_listener
test_chat = refl

delivered_in_order_example :
    (s : AirwayIm) × (run calm 2 cast chat (new options) ≡ some s)
    × Ascending (last_sequence room (new options).sync.engine) (told_of room 7 s.log)
delivered_in_order_example =
    delivered_in_order calm 0 cast options chat room 7 calm-IsCalm chat-AllGood

-- The session after a listener was added.
abbrev listening : AirwayIm
listening = record (new options) { listeners = on message_event 7 [] }

abbrev page : List Output
page = messages room (message (text "a") 1 ∷ []) ∷ resolved (message (text "a") 1 ∷ []) ∷ []

on_outputs_tells_example :
    (new_calls : List Delivery) × (on_outputs calm 2 page listening
      ≡ some (logged listening new_calls))
    × (of_conversation room (heard none message_event 7 new_calls) ≡ (
        if has_listener 7 (listeners_of message_event listening.listeners)
        then emitted room page
        else []))
on_outputs_tells_example =
    on_outputs_tells calm 0 page listening room 7 calm-IsCalm
      (unfold listeners_of on add_listener has_listener Dict.get Dict.put text_eq in (refl, tt))
      ((refl, tt), tt)

handle_event-Routes_example :
    (new_calls : List Delivery) × (handle_event calm 2 (created_event 2) listening
      ≡ some (logged (routed (created_event 2) listening) new_calls))
    × (heard none (text "event") 7 new_calls
        ≡ session_word listening.listeners
            (text "event")
            (frame (created_event 2))
            none
            (text "event")
            7
          ++ news_word listening.listeners listening.conversations
              (created_event 2)
              none
              (text "event")
              7)
handle_event-Routes_example =
    handle_event-Routes calm 0 (created_event 2) listening none (text "event") 7 calm-IsCalm
      (unfold text_eq in refl)
