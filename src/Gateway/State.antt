-- ===== src/Gateway/State.antt =====
-- The state of GatewaySocket (install/ignore/sdk/ts/dist/esm/gateway.js), what it does to the outside, and its
-- timers. A method or a callback is an action: the new state and what it does.
use airway_im_plugin.Base.{
  ℕ, zero, suc, ◌*◌, Bool, false, Option, none, some, List, [], ◌∷◌, ◌++◌, min, if◌then◌else◌,
}
use airway_im_plugin.Base.Int.{ℤ, pos, leb_ℤ}
use airway_im_plugin.Text.{Text}
use airway_im_plugin.Json.{Json}
use airway_im_plugin.Url.{trim_end}

pub data Status : Type 0 where
  connecting authenticating online reconnecting offline closed : Status

-- What goes out: a callback of the session, a call of the adapter or of the timers, the call of
-- getCredential, or an exception that leaves the method or callback.
pub data Effect : Type 0 where
  status : Status → Effect
  event : Json → Effect
  ready : Effect
  auth_failed : Effect
  refresh_failed : Effect
  opens : Text → Effect
  sends : ℕ → Json → Effect
  closes : ℕ → Effect
  sets_timeout : ℕ → ℕ → Effect
  sets_interval : ℕ → ℤ → Effect
  clears : ℕ → Effect
  asks_credential : Effect
  throws : Effect

pub record GatewaySocket : Type 0 where
  pub url : Text
  pub credential : Text
  pub ping_interval_ms : ℤ
  pub has_get_credential : Bool
  pub socket : Option ℕ
  pub seen : List Json
  pub reconnect_delay_ms : ℕ
  pub closed_by_user : Bool
  pub authenticated : Bool
  pub auth_rejected : Bool
  pub refreshed_for : Option Text
  pub ping_timer : Option ℕ
  pub reconnect_timer : Option ℕ

abbrev pub max_seen_events : ℕ
max_seen_events = 10000

abbrev pub max_reconnect_delay_ms : ℕ
max_reconnect_delay_ms = 10000

-- The constructor.
unfoldable pub new : Text → Text → ℤ → Bool → GatewaySocket
unfolding trim_end
new ws_url credential ping has = record {
  url = trim_end ws_url;
  credential = credential;
  ping_interval_ms = ping;
  has_get_credential = has;
  socket = none;
  seen = [];
  reconnect_delay_ms = 500;
  closed_by_user = false;
  authenticated = false;
  auth_rejected = false;
  refreshed_for = none;
  ping_timer = none;
  reconnect_timer = none;
}

abbrev pub Action : Type 0
Action = GatewaySocket → GatewaySocket × List Effect

infixl 10 ◌>>◌
abbrev pub ◌>>◌ : Action → Action → Action
◌>>◌ f g s = let (s', a) = f s in let (s'', b) = g s' in (s'', a ++ b)

abbrev pub change : (GatewaySocket → GatewaySocket) → Action
change f s = (f s, [])

abbrev pub emit : Effect → Action
emit x s = (s, x ∷ [])

abbrev pub skip : Action
skip s = (s, [])

-- A timer's handle counts as true unless it is 0.
unfoldable pub clear_timer : Option ℕ → List Effect
clear_timer none = []
clear_timer (some zero) = []
clear_timer (some (suc h)) = clears (suc h) ∷ []

unfoldable pub set_credential : Text → GatewaySocket → GatewaySocket
set_credential c s = record s { credential = c }

unfoldable pub set_ws_url : Text → GatewaySocket → GatewaySocket
set_ws_url u s = record s { url = trim_end u }

unfoldable pub is_online : GatewaySocket → Bool
is_online s = s.authenticated

-- stopPing()
unfoldable pub stop_ping : Action
unfolding clear_timer
stop_ping s = (record s { ping_timer = none }, clear_timer s.ping_timer)

-- startPing(), with the handle that setInterval returns.
unfoldable pub start_ping : ℕ → Action
unfolding stop_ping
start_ping timer s =
    (stop_ping >> λ t.
    if leb_ℤ t.ping_interval_ms (pos 0)
    then (t, [])
    else (record t { ping_timer = some timer }, sets_interval timer t.ping_interval_ms ∷ []))
      s

-- clearTimers()
unfoldable pub clear_timers : Action
unfolding stop_ping
clear_timers s =
    (stop_ping >> λ t. (record t { reconnect_timer = none }, clear_timer t.reconnect_timer)) s

-- scheduleReconnect(), with the handle that setTimeout returns. A timer that is set stays set.
unfoldable pub schedule_reconnect : ℕ → Action
schedule_reconnect timer s = (
  record s {
    reconnect_delay_ms = min (s.reconnect_delay_ms * 2) max_reconnect_delay_ms;
    reconnect_timer = some timer;
  },
  sets_timeout timer s.reconnect_delay_ms ∷ [],
)
