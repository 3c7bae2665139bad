-- ===== src/Tests/Twins.antt =====
-- The demo client's socket at concrete inputs, beside the SDK's.
use airway_im_plugin.Base.{◌≡◌, refl, true, some, List, [], ◌∷◌, ◌++◌, arith}
use airway_im_plugin.Base.Int.{pos}
use airway_im_plugin.Text.{text, text_eq}
use airway_im_plugin.Json.{Json, num, str, obj, field, end, read, truthy, same, is_zero}
use airway_im_plugin.Url.{trim_end}
use airway_im_plugin.Gateway
use airway_im_plugin.Gateway.{property, has_seen, remember, is_reply}
use airway_im_plugin.Gateway.Dedupe.{events}
use airway_im_plugin.Client.Socket.{
  Move, connects, opened, received, socket_closed, reconnect_fired, run, step, new, connect,
  open_socket, on_open, on_message, on_frame, auth_reply, active_frame, dispatch_event,
  start_app_ping, stop_app_ping, on_close, schedule_reconnect,
}
use airway_im_plugin.Client.Socket.Same.{AllSmooth, sdk_moves, run_same}

abbrev accepted : Json
accepted = obj (field (text "code") (num (pos 0)) end)

abbrev pushed : Json
pushed = obj (field (text "event_id") (str (text "e1")) end)

-- A connection, an event twice, and a reconnection at which it comes again.
abbrev chat : List Move
chat =
    connects (some 1)
    ∷ opened 1
    ∷ received (some accepted) 1 7
    ∷ received (some pushed) 1 7
    ∷ received (some pushed) 1 7
    ∷ socket_closed 8
    ∷ reconnect_fired (some 2)
    ∷ opened 2
    ∷ received (some accepted) 2 9
    ∷ received (some pushed) 2 9
    ∷ []

test_chat : events (run chat (new (text "wss://host/ws") (text "key"))).1 ≡ pushed ∷ []
unfolding run step new connect open_socket on_open on_message on_frame auth_reply active_frame
    dispatch_event start_app_ping stop_app_ping on_close schedule_reconnect text_eq read truthy same
    is_zero property has_seen remember is_reply Gateway.clear_timer
test_chat = refl

chat-AllSmooth : AllSmooth (new (trim_end (text "wss://host") ++ text "/ws") (text "key")) chat
unfolding run step new connect open_socket on_open on_message on_frame auth_reply active_frame
    dispatch_event start_app_ping stop_app_ping on_close schedule_reconnect text_eq read truthy same
    is_zero property has_seen remember is_reply Gateway.clear_timer
chat-AllSmooth = (
  (1, refl),
  (
    tt,
    (
      (λ p code e. ground (arith, e)),
      (
        (λ p code e. cc),
        (
          (λ p code e. cc),
          (tt, ((refl, 2, refl), (tt, ((λ p code e. ground (arith, e)), ((λ p code e. cc), tt))))),
        ),
      ),
    ),
  ),
)

run_same_example :
    (run chat (new (trim_end (text "wss://host") ++ text "/ws") (text "key"))).1
    ≡ (Gateway.run
        (sdk_moves chat)
        (Gateway.new (text "wss://host") (text "key") (pos 25000) true)).1
run_same_example = run_same (text "wss://host") (text "key") true chat chat-AllSmooth
