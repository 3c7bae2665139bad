-- ===== src/Session/Events.antt =====
-- The callbacks that AirwayIM gives to the gateway and the engine
-- (install/ignore/sdk/ts/dist/esm/session.js: handleEvent, and the callbacks in the constructor).
pub mod Routing
use airway_im_plugin.Base.{ℕ, Bool, Option, none, some, List, [], ◌∷◌, if◌then◌else◌}
use airway_im_plugin.Text.{Text, text, text_eq}
use airway_im_plugin.Json.{Json}
use airway_im_plugin.Gateway
use airway_im_plugin.Gateway.{Effect}
use airway_im_plugin.Sync.{GatewayEvent}
use airway_im_plugin.Sync.Queue.{Output, messages, updated}
use airway_im_plugin.Sync.Events
use airway_im_plugin.Sync.Events.{handle_message_event, handle_message_moderated_event, resync_all}
use airway_im_plugin.Emitter.{
  Delivery, frame, status, members_added, member_removed, raised, then_call, error_event,
}
use airway_im_plugin.Session.{
  AirwayIm, group, remember_kind, emitting, emit_both, on_messages, on_message_updated,
}

-- `event.added_user_uuids?.length`
some_added : Option (List Text) → List Text
some_added none = []
some_added (some ids) = ids

module _ (throws : List Delivery → Delivery → Bool) (fuel : ℕ) where
  announce_added : List Text → GatewayEvent → AirwayIm → Option AirwayIm
  announce_added [] ev s = some s
  announce_added (u ∷ us) ev s =
      emit_both throws fuel ev.conversation_id (text "members.added")
        (members_added ev.conversation_id (u ∷ us) ev) s

  announce_removed : Option Text → GatewayEvent → AirwayIm → Option AirwayIm
  announce_removed none ev s = some s
  announce_removed (some u) ev s =
      emit_both throws fuel ev.conversation_id (text "members.removed")
        (member_removed ev.conversation_id u ev) s

  -- The switch of handleEvent.
  unfoldable pub dispatch : GatewayEvent → AirwayIm → Option AirwayIm
  unfolding announce_added announce_removed some_added
  dispatch ev s =
      if text_eq ev.event (text "message.created")
      then some (record s { sync = handle_message_event ev s.sync })
      else if text_eq ev.event (text "message.moderated")
      then some (record s { sync = handle_message_moderated_event ev s.sync })
      else if text_eq ev.event (text "conversation.member_added")
      then announce_added (some_added ev.added_user_uuids) ev
          (remember_kind ev.conversation_id group s)
      else if text_eq ev.event (text "conversation.member_removed")
      then announce_removed ev.removed_user_uuid ev (remember_kind ev.conversation_id group s)
      else some s

  -- handleEvent(event). The refusal of a reload is reported later, by a promise.
  unfoldable pub handle_event : GatewayEvent → AirwayIm → Option AirwayIm
  unfolding dispatch
  handle_event ev s = then_call (emitting throws fuel (text "event") (frame ev) s) (dispatch ev)

  -- The catch of a promise, and reportError: this.emit("error", err)
  unfoldable pub report_error : AirwayIm → Option AirwayIm
  report_error s = emitting throws fuel error_event raised s

  -- What the session does about one effect of the gateway. `cast` reads a frame as a GatewayEvent,
  -- as TypeScript does.
  unfoldable pub callback : (Json → GatewayEvent) → Effect → AirwayIm → Option AirwayIm
  unfolding handle_event report_error
  callback cast (Effect.status st) s =
      emitting throws fuel (text "status") (status st) (record s { status = st })
  callback cast (Effect.event f) s = handle_event (cast f) s
  callback cast Effect.ready s = some (record s { sync = resync_all s.sync })
  callback cast Effect.auth_failed s = report_error s
  callback cast Effect.refresh_failed s = report_error s
  callback cast (Effect.opens _) s = some s
  callback cast (Effect.sends _ _) s = some s
  callback cast (Effect.closes _) s = some s
  callback cast (Effect.sets_timeout _ _) s = some s
  callback cast (Effect.sets_interval _ _) s = some s
  callback cast (Effect.clears _) s = some s
  callback cast Effect.asks_credential s = some s
  callback cast Effect.throws s = some s

  unfoldable pub callbacks : (Json → GatewayEvent) → List Effect → AirwayIm → Option AirwayIm
  callbacks cast [] s = some s
  callbacks cast (x ∷ xs) s = then_call (callback cast x s) (callbacks cast xs)

  -- What the session does about one output of the engine.
  unfoldable pub on_output : Output → AirwayIm → Option AirwayIm
  on_output (messages conv ms) s = on_messages throws fuel ms s
  on_output (updated m) s = on_message_updated throws fuel m s
  on_output _ s = some s

  unfoldable pub on_outputs : List Output → AirwayIm → Option AirwayIm
  on_outputs [] s = some s
  on_outputs (x ∷ xs) s = then_call (on_output x s) (on_outputs xs)
