-- ===== src/Client/Socket.antt =====
-- GatewayClient, the demo client's WebSocket (install/ignore/client/src/gateway.ts), as a state machine like
-- the SDK's (Gateway), with its effects and its frames.
pub mod Same
use airway_im_plugin.Base.{
  ℕ, ◌*◌, Bool, true, false, Option, none, some, List, [], ◌∷◌, ◌++◌, ltb, min, if◌then◌else◌,
}
use airway_im_plugin.Base.Int.{pos}
use airway_im_plugin.Text.{Text, text}
use airway_im_plugin.Json.{Json, read, truthy, is_zero}
use airway_im_plugin.Gateway.{
  Effect, status, event, ready, auth_failed, opens, sends, closes, sets_timeout, sets_interval,
  throws, connecting, authenticating, online, reconnecting, closed, clear_timer, has_seen, remember,
  property, is_reply, auth_frame, ping, max_reconnect_delay_ms,
}

pub record GatewayClient : Type 0 where
  pub url : Text
  pub credential : Text
  pub socket : Option ℕ
  pub seen : List Json
  pub reconnect_delay_ms : ℕ
  pub closed_by_user : Bool
  pub authenticated : Bool
  pub ping_timer : Option ℕ
  pub reconnect_timer : Option ℕ

abbrev pub Action : Type 0
Action = GatewayClient → GatewayClient × List Effect

infixl 10 ◌>>◌
abbrev ◌>>◌ : Action → Action → Action
◌>>◌ f g s = let (s', a) = f s in let (s'', b) = g s' in (s'', a ++ b)

-- The constructor.
unfoldable pub new : Text → Text → GatewayClient
new url credential = record {
  url = url;
  credential = credential;
  socket = none;
  seen = [];
  reconnect_delay_ms = 500;
  closed_by_user = false;
  authenticated = false;
  ping_timer = none;
  reconnect_timer = none;
}

unfoldable pub set_credential : Text → GatewayClient → GatewayClient
set_credential c s = record s { credential = c }

-- stopAppPing()
unfoldable pub stop_app_ping : Action
unfolding clear_timer
stop_app_ping s = (record s { ping_timer = none }, clear_timer s.ping_timer)

-- startAppPing(), with setInterval's handle.
unfoldable pub start_app_ping : ℕ → Action
unfolding stop_app_ping
start_app_ping timer =
    stop_app_ping
    >> (λ t. (record t { ping_timer = some timer }, sets_interval timer (pos 25000) ∷ []))

-- clearTimers()
unfoldable pub clear_timers : Action
unfolding stop_app_ping clear_timer
clear_timers =
    stop_app_ping >> (λ t. (record t { reconnect_timer = none }, clear_timer t.reconnect_timer))

-- The constructor of WebSocket throws where there is no socket.
attach : Option ℕ → Action
attach none s = (s, throws ∷ [])
attach (some ws) s = (record s { socket = some ws }, [])

-- open(), with the new socket.
unfoldable pub open_socket : Option ℕ → Action
unfolding attach
open_socket made =
    (λ t. (record t { authenticated = false }, []))
    >> (λ t. (
      t,
      status (if ltb 500 t.reconnect_delay_ms then reconnecting else connecting) ∷ opens t.url ∷ [],
    ))
    >> attach made

-- connect()
unfoldable pub connect : Option ℕ → Action
unfolding open_socket
connect made s = elim s.socket [
  | some ws ↦ (s, [])
  | none ↦ open_socket made (record s { closed_by_user = false })
]

close_effect : Option ℕ → List Effect
close_effect none = []
close_effect (some ws) = closes ws ∷ []

-- close()
unfoldable pub close : Action
unfolding clear_timers close_effect
close s =
    (clear_timers
        >> (λ t. (record t { socket = none }, close_effect t.socket ++ status closed ∷ [])))
      (record s { closed_by_user = true })

-- The "open" listener.
unfoldable pub on_open : ℕ → Action
on_open ws s = (s, status authenticating ∷ sends ws (auth_frame s.credential) ∷ [])

-- The first frame, on the socket `ws`.
unfoldable pub auth_reply : Bool → ℕ → ℕ → Action
unfolding start_app_ping
auth_reply true ws timer s =
    ((λ t. (record t { authenticated = true; reconnect_delay_ms = 500 }, status online ∷ []))
        >> start_app_ping timer
        >> (λ t. (t, ready ∷ [])))
      s
auth_reply false ws timer s = (s, auth_failed ∷ closes ws ∷ [])

-- The end of the "message" listener, by the event's id.
unfoldable pub dispatch_event : Option Json → Json → Action
dispatch_event none frame s = (s, [])
dispatch_event (some id) frame s =
    if truthy (some id)
    then (if has_seen id s.seen
        then (s, [])
        else (record s { seen = remember id s.seen }, event frame ∷ []))
    else (s, [])

unfoldable pub active_frame : Json → Action
unfolding dispatch_event
active_frame frame s =
    if is_reply (property (text "cmd") frame) (property (text "event") frame)
    then (s, [])
    else dispatch_event (property (text "event_id") frame) frame s

unfoldable pub on_frame : Json → ℕ → ℕ → Action
unfolding active_frame auth_reply
on_frame frame ws timer s = elim (read (text "code") frame) [
  | none ↦ (s, throws ∷ [])
  | some code ↦
      if s.authenticated then active_frame frame s else auth_reply (is_zero code) ws timer s
]

-- The "message" listener of the socket `ws`; `none` is a text that is not JSON.
unfoldable pub on_message : Option Json → ℕ → ℕ → Action
unfolding on_frame
on_message none ws timer s = (s, [])
on_message (some frame) ws timer s = on_frame frame ws timer s

-- scheduleReconnect(), with setTimeout's handle.
unfoldable pub schedule_reconnect : ℕ → Action
schedule_reconnect timer s = (
  record s {
    reconnect_delay_ms = min (s.reconnect_delay_ms * 2) max_reconnect_delay_ms;
    reconnect_timer = some timer;
  },
  status reconnecting ∷ sets_timeout timer s.reconnect_delay_ms ∷ [],
)

-- The "close" listener, whichever socket it belongs to.
unfoldable pub on_close : ℕ → Action
unfolding stop_app_ping schedule_reconnect
on_close timer =
    stop_app_ping
    >> (λ t. (record t { authenticated = false; socket = none }, []))
    >> (λ t. if t.closed_by_user then (t, []) else schedule_reconnect timer t)

-- The callback of the ping interval.
unfoldable pub on_ping_timer : Action
on_ping_timer s = (s, ping s.socket s.authenticated)

-- What may happen next. The reconnection timer's callback is open().
pub data Move : Type 0 where
  connects : Option ℕ → Move
  closes_by_user : Move
  sets_credential : Text → Move
  opened : ℕ → Move
  received : Option Json → ℕ → ℕ → Move
  socket_closed : ℕ → Move
  reconnect_fired : Option ℕ → Move
  ping_fired : Move

unfoldable pub step : Move → Action
step (connects made) s = connect made s
step closes_by_user s = close s
step (sets_credential c) s = (set_credential c s, [])
step (opened ws) s = on_open ws s
step (received frame ws timer) s = on_message frame ws timer s
step (socket_closed timer) s = on_close timer s
step (reconnect_fired made) s = open_socket made s
step ping_fired s = on_ping_timer s

unfoldable pub run : List Move → Action
run [] s = (s, [])
run (v ∷ vs) s = (step v >> run vs) s
