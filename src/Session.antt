-- ===== src/Session.antt =====
-- AirwayIM (install/ignore/sdk/ts/dist/esm/session.js): its state, its registry of conversation
-- objects, and how it emits. The conversation objects (conversation.js) are entries of the registry,
-- told apart by their id, since the registry holds at most one for each. The children hold its
-- callbacks and its methods as steps.
pub mod Calm
pub mod Events
pub mod Steps
use airway_im_plugin.Base.{ℕ, Bool, false, Option, none, some, List, [], ◌∷◌, get_or, if◌then◌else◌}
use airway_im_plugin.Base.Int.{ℤ, pos}
use airway_im_plugin.Text.{Text, text, is_truthy}
use airway_im_plugin.Dict
use airway_im_plugin.Dict.{Dict}
use airway_im_plugin.Http.{ImHttpClient}
use airway_im_plugin.Http
use airway_im_plugin.Gateway
use airway_im_plugin.Gateway.{GatewaySocket, Status, closed}
use airway_im_plugin.Sync
use airway_im_plugin.Sync.{ChatMessage, Stored}
use airway_im_plugin.Sync.Queue.{Machine}
use airway_im_plugin.Emitter.{Payload, Delivery, Listeners, message, then_call, emit, emit_local}

pub data Kind : Type 0 where
  direct group : Kind

-- A DirectConversation or a GroupConversation; the title is the group's, or null.
pub record Conversation : Type 0 where
  pub id : Text
  pub kind : Kind
  pub title : Option Text
  pub listeners : Listeners

-- `log` holds the calls of listeners so far, and `effects` what the gateway did to the outside.
pub record AirwayIm : Type 0 where
  pub rest : ImHttpClient
  pub gateway : Option GatewaySocket
  pub sync : Machine
  pub listeners : Listeners
  pub status : Status
  pub want_connected : Bool
  pub conversation_kinds : Dict Kind
  pub conversations : Dict Conversation
  pub log : List Delivery
  pub effects : List Gateway.Effect

-- The options of the constructor. `storage` is what the adapter's storage holds under the engine's
-- key, `none` where the adapter has none.
pub record Options : Type 0 where
  pub api_url : Text
  pub ws_url : Option Text
  pub credential : Text
  pub timeout_ms : Option ℕ
  pub ping_interval_ms : Option ℤ
  pub has_get_credential : Bool
  pub persist_sequences : Option Bool
  pub storage : Option Stored
  pub auto_connect : Bool

gateway_of : Options → Option Text → Option GatewaySocket
gateway_of o none = none
gateway_of o (some url) =
    if is_truthy url
    then some
        (Gateway.new url o.credential (get_or o.ping_interval_ms (pos 25000)) o.has_get_credential)
    else none

-- `persistSequences === false ? undefined : adapter.storage`
storage_of : Option Bool → Option Stored → Option Stored
storage_of (some false) storage = none
storage_of _ storage = storage

-- The constructor up to `autoConnect`, for an adapter that is given.
unfoldable pub new : Options → AirwayIm
unfolding gateway_of storage_of
new o = record {
  rest = Http.new o.api_url o.credential o.timeout_ms;
  gateway = gateway_of o o.ws_url;
  sync = record {
    engine = Sync.new (storage_of o.persist_sequences o.storage);
    queues = [];
    chains = [];
  };
  listeners = [];
  status = closed;
  want_connected = false;
  conversation_kinds = [];
  conversations = [];
  log = [];
  effects = [];
}

-- rememberKind(conversationId, kind)
unfoldable pub remember_kind : Text → Kind → AirwayIm → AirwayIm
remember_kind id kind s = record s { conversation_kinds = Dict.put id kind s.conversation_kinds }

-- The object that the constructors make: only a group has the title.
unfoldable pub made_conversation : Text → Kind → Option Text → Conversation
made_conversation id direct title = record { id = id; kind = direct; title = none; listeners = [] }
made_conversation id group title = record { id = id; kind = group; title = title; listeners = [] }

-- conversationFor(id, kind, title): the object that is there, or else a new one.
unfoldable pub conversation_for : Text → Kind → Option Text → AirwayIm → Conversation × AirwayIm
unfolding made_conversation
conversation_for id kind title s = elim (Dict.get id s.conversations) [
  | some existing ↦ (existing, s)
  | none ↦
      let c = made_conversation id kind title in
      (c, record s { conversations = Dict.put id c s.conversations })
]

-- The SDK's events.
abbrev pub message_event : Text
message_event = text "message"

abbrev pub with_log : AirwayIm → Option (List Delivery) → Option AirwayIm
with_log s none = none
with_log s (some log) = some (record s { log = log })

-- What listeners do, and the fuel for the calls that they cause.
module _ (throws : List Delivery → Delivery → Bool) (fuel : ℕ) where
  -- emit(event, payload)
  unfoldable pub emitting : Text → Payload → AirwayIm → Option AirwayIm
  emitting event p s = with_log s (emit throws fuel s.listeners event p s.log)

  emitting_at : Option Conversation → Text → Payload → AirwayIm → Option AirwayIm
  emitting_at none event p s = some s
  emitting_at (some c) event p s =
      with_log s (emit_local throws fuel s.listeners c.id c.listeners event p s.log)

  -- this.conversations.get(id)?.emitLocal(event, payload)
  unfoldable pub emitting_local : Text → Text → Payload → AirwayIm → Option AirwayIm
  unfolding emitting_at
  emitting_local id event p s = emitting_at (Dict.get id s.conversations) event p s

  -- emit, and then emitLocal on the conversation's object.
  unfoldable pub emit_both : Text → Text → Payload → AirwayIm → Option AirwayIm
  unfolding emitting emitting_local
  emit_both id event p s = then_call (emitting event p s) (emitting_local id event p)

  -- onMessages(messages), the engine's handler.
  unfoldable pub on_messages : List ChatMessage → AirwayIm → Option AirwayIm
  unfolding emit_both
  on_messages [] s = some s
  on_messages (m ∷ ms) s =
      then_call (emit_both m.conversation_id message_event (message m) s) (on_messages ms)

  -- onMessageUpdated(message), the engine's handler.
  unfoldable pub on_message_updated : ChatMessage → AirwayIm → Option AirwayIm
  on_message_updated m s = emit_both m.conversation_id (text "message.updated") (message m) s
