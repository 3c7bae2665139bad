-- ===== src/Tests/Sockets.antt =====
-- The gateway socket at concrete inputs.
use airway_im_plugin.Base.{ℕ, ◌≡◌, refl, true, false, none, some, List, [], ◌∷◌, ◌≤◌, arith, length}
use airway_im_plugin.Base.Int.{pos}
use airway_im_plugin.Text.{text, text_eq}
use airway_im_plugin.Json.{Json, num, str, obj, field, end, read, truthy, is_zero, same}
use airway_im_plugin.Gateway.{
  GatewaySocket, Move, connects, opened, received, socket_closed, reconnect_fired, credential_came,
  closes_by_user, run, step, close, failed, gave, property, has_seen, remember, auth_reply,
  start_ping, stop_ping, open_socket, on_close, on_message, schedule_reconnect, on_reconnect_timer,
  connect, on_open,
}
use airway_im_plugin.Gateway.Dedupe.{events, AllNew, run-AllNew}
use airway_im_plugin.Gateway.Bounds.{IsBounded, step-IsBounded}
use airway_im_plugin.Gateway.Closed.{openings, closings, close_is_final, late_close_leaks, collect}
use airway_im_plugin.Gateway.Rejection.{AllStale, asking, asks_at_most_once}

abbrev idle : GatewaySocket
idle = record {
  url = text "wss://host";
  credential = text "key";
  ping_interval_ms = pos 20000;
  has_get_credential = true;
  socket = none;
  seen = [];
  reconnect_delay_ms = 500;
  closed_by_user = false;
  authenticated = false;
  auth_rejected = false;
  refreshed_for = none;
  ping_timer = none;
  reconnect_timer = none;
}

-- A frame with a code, and an event with an id.
abbrev reply_frame : ℕ → Json
reply_frame code = obj (field (text "code") (num (pos code)) end)

abbrev event_frame : Json
event_frame = obj (
    field (text "event") (str (text "message.created"))
      (field (text "event_id") (str (text "e1")) end))

-- The same event comes before and after a reconnection.
abbrev redelivery : List Move
redelivery =
    connects (some 1)
    ∷ opened 1
    ∷ received (some (reply_frame 0)) 2
    ∷ received (some event_frame) 2
    ∷ socket_closed 3
    ∷ reconnect_fired (some 2)
    ∷ opened 2
    ∷ received (some (reply_frame 0)) 4
    ∷ received (some event_frame) 4
    ∷ []

test_redelivery : events (run redelivery idle).1 ≡ event_frame ∷ []
unfolding run step read property truthy is_zero same text_eq has_seen remember auth_reply start_ping
    stop_ping open_socket on_close on_message schedule_reconnect on_reconnect_timer connect on_open
test_redelivery = refl

run-AllNew_example : AllNew [] (events (run redelivery idle).1)
run-AllNew_example = run-AllNew redelivery idle (omega arith)

idle-IsBounded : IsBounded idle
idle-IsBounded = record {
  delay_low = omega arith;
  delay_high = omega arith;
  seen_few = omega arith;
}

step-IsBounded_example : IsBounded (step (socket_closed 1) idle).0
step-IsBounded_example = step-IsBounded (socket_closed 1) idle idle-IsBounded

-- What may still come after close().
abbrev stragglers : List Move
stragglers =
    socket_closed 5
    ∷ reconnect_fired (some 6)
    ∷ credential_came failed 7
    ∷ reconnect_fired (some 8)
    ∷ []

close_is_final_example : openings (run stragglers (close idle).0).1 ≡ []
close_is_final_example = close_is_final stragglers idle (omega arith)

-- A socket that is open.
abbrev open_one : GatewaySocket
open_one = record idle { socket = some 1; authenticated = true }

late_close_leaks_example :
    let vs = closes_by_user ∷ connects (some 2) ∷ socket_closed 9 ∷ reconnect_fired (some 3) ∷ [] in
    ((run vs open_one).0.socket ≡ some 3) × (closings (run vs open_one).1 ≡ 1 ∷ [])
late_close_leaks_example = late_close_leaks open_one 1 2 3 9 refl

-- The server refuses the credential twice, and the host has no other.
abbrev refused_twice : List Move
refused_twice =
    received (some (reply_frame 10001)) 1
    ∷ socket_closed 1
    ∷ credential_came (gave (text "key")) 2
    ∷ reconnect_fired (some 2)
    ∷ received (some (reply_frame 10001)) 3
    ∷ socket_closed 3
    ∷ []

refused_twice-AllStale : AllStale idle.credential refused_twice
unfolding text_eq
refused_twice-AllStale = (tt, (tt, (refl, (tt, (tt, (tt, tt))))))

asks_at_most_once_example : length (collect asking (run refused_twice idle).1) ≤ 1
asks_at_most_once_example = asks_at_most_once refused_twice idle refused_twice-AllStale
