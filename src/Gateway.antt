-- ===== src/Gateway.antt =====
-- GatewaySocket (install/ignore/sdk/ts/dist/esm/gateway.js): the WebSocket client as a state machine.
-- Each method and each callback is an action. The adapter's new sockets and the timers' handles are
-- arguments, as the platform gives them.
pub mod State
pub mod Frames
pub mod Cases
pub mod Credential
pub mod Bounds
pub mod Dedupe
pub mod Closed
pub mod Rejection
unfoldable pub use State.*
unfoldable pub use Frames.*
use airway_im_plugin.Base.{
  ℕ, zero, ◌*◌, Bool, true, false, not, ◌&&◌, ◌||◌, Option, none, some, List, [], ◌∷◌, ◌++◌, ltb,
  is_some, if◌then◌else◌,
}
use airway_im_plugin.Text.{Text, text, text_eq, is_truthy}
use airway_im_plugin.Json.{Json}

-- The part of open() after the adapter's factory: `none` where the factory throws.
attach : Option ℕ → Action
attach none s = (s, status offline ∷ throws ∷ [])
attach (some ws) s = (record s { socket = some ws }, [])

-- open(), with the socket that the adapter's factory makes.
unfoldable pub open_socket : Option ℕ → Action
unfolding attach
open_socket made s =
    (change (λ t. record t { authenticated = false; auth_rejected = false })
        >> (λ t.
            (t, status (if ltb 500 t.reconnect_delay_ms then reconnecting else connecting) ∷ []))
        >> (λ t. (t, opens (t.url ++ text "/ws") ∷ []))
        >> attach made)
      s

-- connect()
unfoldable pub connect : Option ℕ → Action
unfolding open_socket
connect made s = elim s.socket [
  | some ws ↦ (s, [])
  | none ↦ open_socket made (record s { closed_by_user = false; refreshed_for = none })
]

close_effect : Option ℕ → List Effect
close_effect none = []
close_effect (some ws) = closes ws ∷ []

-- close()
unfoldable pub close : Action
unfolding clear_timers close_effect
close s =
    (change (λ t. record t { closed_by_user = true })
        >> clear_timers
        >> (λ t. (record t { socket = none; authenticated = false }, close_effect t.socket))
        >> emit (status closed))
      s

-- The callback of ws.onOpen.
unfoldable pub on_open : ℕ → Action
on_open ws s = (s, status authenticating ∷ sends ws (auth_frame s.credential) ∷ [])

-- `this.refreshedFor !== this.credential`
not_refreshed : Option Text → Text → Bool
not_refreshed none c = true
not_refreshed (some r) c = not (text_eq r c)

-- The callback of ws.onClose, whichever socket it belongs to; `timer` is setTimeout's handle.
after_close : ℕ → Action
unfolding schedule_reconnect not_refreshed
after_close timer s =
    if s.closed_by_user
    then (s, status closed ∷ [])
    else if s.auth_rejected
    then (if s.has_get_credential && not_refreshed s.refreshed_for s.credential
        then (
          record s { auth_rejected = false; refreshed_for = some s.credential },
          asks_credential ∷ [],
        )
        else (record s { auth_rejected = false }, status offline ∷ []))
    else (emit (status reconnecting) >> schedule_reconnect timer) s

unfoldable pub on_close : ℕ → Action
unfolding stop_ping after_close
on_close timer s =
    (stop_ping
        >> change (λ t. record t { authenticated = false; socket = none })
        >> after_close timer)
      s

-- What getCredential's promise comes to.
pub data CredentialReply : Type 0 where
  gave : Text → CredentialReply
  failed : CredentialReply

take_credential : CredentialReply → Action
take_credential failed s = (s, refresh_failed ∷ [])
take_credential (gave fresh) s =
    if is_truthy fresh && not (text_eq fresh s.credential)
    then (record s { credential = fresh; refreshed_for = none }, [])
    else (s, [])

-- refreshCredential() after its await, with its `finally`.
unfoldable pub on_credential : CredentialReply → ℕ → Action
unfolding take_credential schedule_reconnect
on_credential reply timer s =
    (take_credential reply >> emit (status reconnecting) >> schedule_reconnect timer) s

-- The callback of the reconnection timer.
unfoldable pub on_reconnect_timer : Option ℕ → Action
unfolding open_socket
on_reconnect_timer made s =
    if not s.closed_by_user && not (is_some s.socket)
    then open_socket made (record s { reconnect_timer = none })
    else (record s { reconnect_timer = none }, [])

unfoldable pub ping : Option ℕ → Bool → List Effect
ping (some ws) true = sends ws ping_frame ∷ []
ping _ _ = []

-- The callback of the ping interval.
unfoldable pub on_ping_timer : Action
unfolding ping
on_ping_timer s = (s, ping s.socket s.authenticated)

-- What may happen next: a method, a callback of a socket, of a timer, or of getCredential.
pub data Move : Type 0 where
  connects : Option ℕ → Move
  closes_by_user : Move
  sets_credential : Text → Move
  sets_url : Text → Move
  opened : ℕ → Move
  received : Option Json → ℕ → Move
  socket_closed : ℕ → Move
  credential_came : CredentialReply → ℕ → Move
  reconnect_fired : Option ℕ → Move
  ping_fired : Move

unfoldable pub step : Move → Action
unfolding connect close set_credential set_ws_url on_open on_message on_close on_credential
    on_reconnect_timer on_ping_timer
step (connects made) s = connect made s
step closes_by_user s = close s
step (sets_credential c) s = (set_credential c s, [])
step (sets_url u) s = (set_ws_url u s, [])
step (opened ws) s = on_open ws s
step (received frame timer) s = on_message frame timer s
step (socket_closed timer) s = on_close timer s
step (credential_came reply timer) s = on_credential reply timer s
step (reconnect_fired made) s = on_reconnect_timer made s
step ping_fired s = on_ping_timer s

unfoldable pub run : List Move → Action
run [] s = (s, [])
run (v ∷ vs) s = (step v >> run vs) s
