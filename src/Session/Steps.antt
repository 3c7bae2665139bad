-- ===== src/Session/Steps.antt =====
-- AirwayIM's methods as steps (install/ignore/sdk/ts/dist/esm/session.js). A method that awaits the
-- REST client is the part before its request and the part after its answer, which come as moves of
-- their own; so do the steps of the gateway and of the engine's tasks.
pub mod Methods
pub mod Delivers
pub mod Order
pub mod Ends
pub mod Credentials
pub mod Registry
unfoldable pub use Methods.*
use airway_im_plugin.Base.{
  ℕ, Bool, true, false, Option, none, some, List, [], ◌∷◌, ◌++◌, if◌then◌else◌,
}
use airway_im_plugin.Base.Int.{ℤ}
use airway_im_plugin.Text.{Text}
use airway_im_plugin.Json.{Json}
use airway_im_plugin.Dict
use airway_im_plugin.Gateway
use airway_im_plugin.Gateway.{GatewaySocket, closed}
use airway_im_plugin.Sync.{ChatMessage, GatewayEvent}
use airway_im_plugin.Sync.Fetch.{FetchOptions}
use airway_im_plugin.Sync.Queue
use airway_im_plugin.Sync.Events
use airway_im_plugin.Emitter.{Delivery, then_call, on, off}
use airway_im_plugin.Session.{AirwayIm, Options, new, Kind}
use airway_im_plugin.Session.Events.{callbacks, report_error, on_outputs}

-- What may happen next.
pub data Move : Type 0 where
  -- connect and disconnect, and the adapter's onShow
  connects : Option ℕ → Move
  disconnects : Move
  shown : Option ℕ → Move
  sets_credential : Text → Move
  -- a callback of the gateway's socket or timers
  socket : Gateway.Move → Move
  -- what the host's getCredential brings: for the REST client, to the gateway and then to the client itself;
  -- for the gateway, to the REST client, before the gateway's own credential_came
  brought_to_rest : Text → Move
  taken_by_rest : Text → Move
  brought_to_gateway : Text → Move
  -- a task of the engine begins, or listMessages answers
  begins : ℕ → Move
  answers : ℕ → Option (List ChatMessage) → Move
  -- a promise of the session's own is refused
  refused : Move
  -- on and off, of the session and of a conversation object
  ons : Text → ℕ → Move
  offs : Text → ℕ → Move
  conversation_ons : Text → Text → ℕ → Move
  conversation_offs : Text → Text → ℕ → Move
  -- the answers to listGroups, createDirect and getDirect, createGroup, and getConversation
  groups_listed : List ConversationInfo → Move
  direct_came : Text → Move
  group_created : ConversationInfo → Move
  details_came : Text → Text → Kind → Move
  opens : Text → Move
  -- addMembers and removeMembers, and sendGroupMessage before its request
  members_change : Text → Move
  sends_to_group : Text → Move
  -- sendGroupMessage and sendDirectMessage after the answer to sendMessage
  message_sent : Text → ℤ → Move
  histories : Text → FetchOptions → Move
  forgets : Text → Move

module _ (throws : List Delivery → Delivery → Bool) (fuel : ℕ) (cast : Json → GatewayEvent) where
  pub on_gateway : Option GatewaySocket → Gateway.Move → AirwayIm → Option AirwayIm
  on_gateway none v s = some s
  on_gateway (some g) v s =
      let (g', out) = Gateway.step v g in
      callbacks throws fuel cast out (record s { gateway = some g'; effects = s.effects ++ out })

  -- A step of the gateway, with what the session does about its effects.
  unfoldable pub gateway_step : Gateway.Move → AirwayIm → Option AirwayIm
  unfolding on_gateway
  gateway_step v s = on_gateway s.gateway v s

  -- A step of the engine, with what the session does about its outputs.
  unfoldable pub engine_step : Events.Move → AirwayIm → Option AirwayIm
  engine_step v s =
      let (m, out) = Events.step v s.sync in on_outputs throws fuel out (record s { sync = m })

  connect_with : Option GatewaySocket → Option ℕ → AirwayIm → Option AirwayIm
  unfolding gateway_step
  connect_with none made s = report_error throws fuel s
  connect_with (some g) made s =
      gateway_step (Gateway.connects made) (record s { want_connected = true })

  -- connect()
  unfoldable pub connect : Option ℕ → AirwayIm → Option AirwayIm
  unfolding connect_with
  connect made s = connect_with s.gateway made s

  disconnect_with : Option GatewaySocket → AirwayIm → Option AirwayIm
  unfolding gateway_step
  disconnect_with none s = some (record s { want_connected = false })
  disconnect_with (some g) s =
      then_call (gateway_step Gateway.closes_by_user (record s { want_connected = false }))
        (λ s'. some (record s' { status = closed }))

  -- disconnect(): the cached status is "closed" where there is a gateway.
  unfoldable pub disconnect : AirwayIm → Option AirwayIm
  unfolding disconnect_with
  disconnect s = disconnect_with s.gateway s

  -- The callback of the adapter's onShow.
  unfoldable pub on_show : Option ℕ → AirwayIm → Option AirwayIm
  unfolding gateway_step
  on_show made s = if s.want_connected then gateway_step (Gateway.connects made) s else some s

  -- The constructor, with the socket that the adapter's factory makes where it connects at once.
  unfoldable pub create_client : Options → Option ℕ → Option AirwayIm
  unfolding connect
  create_client o made = if o.auto_connect then connect made (new o) else some (new o)

  unfoldable pub step : Move → AirwayIm → Option AirwayIm
  unfolding connect disconnect on_show set_credential rest_brought rest_taken gateway_brought
      remember_groups history forget_conversation change_members send_to_group after_send
  step (connects made) s = connect made s
  step disconnects s = disconnect s
  step (shown made) s = on_show made s
  step (sets_credential c) s = some (set_credential c s)
  step (socket v) s = gateway_step v s
  step (brought_to_rest fresh) s = some (rest_brought fresh s)
  step (taken_by_rest fresh) s = some (rest_taken fresh s)
  step (brought_to_gateway fresh) s = some (gateway_brought fresh s)
  step (begins i) s = engine_step (Events.begins i) s
  step (answers i reply) s = engine_step (Events.answers i reply) s
  step refused s = report_error throws fuel s
  step (ons event l) s = some (record s { listeners = on event l s.listeners })
  step (offs event l) s = some (record s { listeners = off event l s.listeners })
  step (conversation_ons id event l) s = some (conversation_on id event l s)
  step (conversation_offs id event l) s = some (conversation_off id event l s)
  step (groups_listed cs) s = some (remember_groups cs s)
  step (direct_came id) s = some (direct_arrived id s)
  step (group_created c) s = some (group_arrived c s)
  step (details_came id uuid kind) s = some (details_arrived id uuid kind s)
  step (opens id) s = some (open_conversation id s)
  step (members_change id) s = some (change_members id s)
  step (sends_to_group id) s = some (send_to_group id s)
  step (message_sent id seq) s = some (after_send id seq s)
  step (histories id o) s = some (history id o s)
  step (forgets id) s = some (forget_conversation id s)

  unfoldable pub run : List Move → AirwayIm → Option AirwayIm
  run [] s = some s
  run (v ∷ vs) s = then_call (step v s) (run vs)
