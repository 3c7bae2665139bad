-- ===== src/Gateway/Frames.antt =====
-- The frames of GatewaySocket (install/ignore/sdk/ts/dist/esm/gateway.js): those that it sends, and onMessage.
use airway_im_plugin.Base.{
  ℕ, Bool, true, false, ◌||◌, Option, none, some, List, [], ◌∷◌, leb, length, if◌then◌else◌,
}
use airway_im_plugin.Text.{Text, text}
use airway_im_plugin.Json.{Json, nil, cons, end, field, str, arr, obj, read, truthy, same, is_zero}
use airway_im_plugin.Gateway.State.{
  max_seen_events, Action, ◌>>◌, change, emit, start_ping, online, status, event, ready,
  auth_failed, throws,
}

-- {"cmd": "auth", "opts": [credential]}
unfoldable pub auth_frame : Text → Json
auth_frame credential = obj (
    field (text "cmd") (str (text "auth"))
      (field (text "opts") (arr (cons (str credential) nil)) end))

-- {"cmd": "ping"}
unfoldable pub ping_frame : Json
ping_frame = obj (field (text "cmd") (str (text "ping")) end)

-- The first frame: the reply to `auth`. `timer` is setInterval's handle.
unfoldable pub auth_reply : Bool → ℕ → Action
unfolding start_ping
auth_reply true timer s =
    (change (λ t. record t { authenticated = true; reconnect_delay_ms = 500 })
        >> emit (status online)
        >> start_ping timer
        >> emit ready)
      s
auth_reply false timer s = (record s { auth_rejected = true }, auth_failed ∷ [])

-- this.seenEventIds.has(id)
unfoldable pub has_seen : Json → List Json → Bool
has_seen id [] = false
has_seen id (x ∷ xs) = same x id || has_seen id xs

-- The set is emptied when it is full.
unfoldable pub remember : Json → List Json → List Json
remember id seen = if leb max_seen_events (length seen) then id ∷ [] else id ∷ seen

-- The end of onMessage: an event's id, undefined (`none`) or a value, decides.
unfoldable pub dispatch_event : Option Json → Json → Action
dispatch_event none frame s = (s, [])
dispatch_event (some id) frame s =
    if truthy (some id)
    then (if has_seen id s.seen
        then (s, [])
        else (record s { seen = remember id s.seen }, event frame ∷ []))
    else (s, [])

-- A reply to a command carries `cmd` and no `event`.
unfoldable pub is_reply : Option Json → Option Json → Bool
is_reply (some cmd) none = true
is_reply _ _ = false

-- A property of a frame that is an object, or undefined.
unfoldable pub property : Text → Json → Option Json
property k frame = elim (read k frame) [ none ↦ none | some v ↦ v ]

unfoldable pub active_frame : Json → Action
unfolding dispatch_event is_reply
active_frame frame s =
    if is_reply (property (text "cmd") frame) (property (text "event") frame)
    then (s, [])
    else dispatch_event (property (text "event_id") frame) frame s

-- A parsed frame: reading a property of null throws.
unfoldable pub on_frame : Json → ℕ → Action
unfolding active_frame auth_reply
on_frame frame timer s = elim (read (text "code") frame) [
  | none ↦ (s, throws ∷ [])
  | some code ↦ if s.authenticated then active_frame frame s else auth_reply (is_zero code) timer s
]

-- The callback of ws.onMessage; `none` is a text that is not JSON.
unfoldable pub on_message : Option Json → ℕ → Action
unfolding on_frame
on_message none timer s = (s, [])
on_message (some frame) timer s = on_frame frame timer s
