-- ===== src/Client/Socket/Same.antt =====
-- The demo client's socket and the SDK's do the same, as long as no credential is refused.
use airway_im_plugin.Base.{
  ℕ, ◌≡◌, refl, sym, ◌∙◌, ap, Bool, true, false, Option, none, some, List, [], ◌∷◌, ◌++◌, arith,
  Bool-cases, Option-cases, inl, inr,
}
use airway_im_plugin.Base.Int.{pos}
use airway_im_plugin.Text.{Text, text}
use airway_im_plugin.Json.{Json, read, is_zero}
use airway_im_plugin.Url.{trim_end}
use airway_im_plugin.Gateway
use airway_im_plugin.Gateway.{GatewaySocket, Effect}
use airway_im_plugin.Client.Socket
use airway_im_plugin.Client.Socket.{
  GatewayClient, Move, connects, closes_by_user, sets_credential, opened, received, socket_closed,
  reconnect_fired, ping_fired, step, run, new,
}

-- The SDK's socket in the same state, which was not refused.
abbrev pub twin : Text → Bool → Option Text → Option ℕ → GatewayClient → GatewaySocket
twin url has refreshed timer c = record {
  url = url;
  credential = c.credential;
  ping_interval_ms = pos 25000;
  has_get_credential = has;
  socket = c.socket;
  seen = c.seen;
  reconnect_delay_ms = c.reconnect_delay_ms;
  closed_by_user = c.closed_by_user;
  authenticated = c.authenticated;
  auth_rejected = false;
  refreshed_for = refreshed;
  ping_timer = c.ping_timer;
  reconnect_timer = timer;
}

-- The SDK's move at the same occasion.
unfoldable pub sdk_move : Move → Gateway.Move
sdk_move (connects made) = Gateway.connects made
sdk_move closes_by_user = Gateway.closes_by_user
sdk_move (sets_credential c) = Gateway.sets_credential c
sdk_move (opened ws) = Gateway.opened ws
sdk_move (received frame ws timer) = Gateway.received frame timer
sdk_move (socket_closed timer) = Gateway.socket_closed timer
sdk_move (reconnect_fired made) = Gateway.reconnect_fired made
sdk_move ping_fired = Gateway.ping_fired

abbrev pub sdk_moves : List Move → List Gateway.Move
sdk_moves [] = []
sdk_moves (v ∷ vs) = sdk_move v ∷ sdk_moves vs

-- Sockets are made, a socket that is not authenticated is sent a frame with the code 0, a reconnection timer
-- fires where there is no socket, and close() is not called.
abbrev pub IsSmooth : GatewayClient → Move → Type 0
IsSmooth c (connects made) = (ws : ℕ) × (made ≡ some ws)
IsSmooth c closes_by_user = ⊥
IsSmooth c (received (some frame) ws timer) =
    c.authenticated ≡ false
    → (code : Option Json) → read (text "code") frame ≡ some code
    → is_zero code ≡ true
IsSmooth c (reconnect_fired made) = (c.socket ≡ none) × (ws : ℕ) × (made ≡ some ws)
IsSmooth c _ = Unit

abbrev pub AllSmooth : GatewayClient → List Move → Type 0
AllSmooth c [] = Unit
AllSmooth c (v ∷ vs) = IsSmooth c v × AllSmooth (step v c).0 vs

module _ (url : Text) (has : Bool) where
  -- The SDK's socket does what the client's does, and is its twin again.
  record Agrees (v : Move) (c : GatewayClient) (g : GatewaySocket) : Type 0 where
    pub refreshed : Option Text
    pub timer : Option ℕ
    pub agrees :
        Gateway.step (sdk_move v) g ≡ (twin url has refreshed timer (step v c).0, (step v c).1)
    pub stays : (step v c).0.url ≡ c.url
    pub unclosed : (step v c).0.closed_by_user ≡ false

  active-Agrees :
      (frame : Json) (c : GatewayClient) (r : Option Text) (t : Option ℕ)
      → Gateway.active_frame frame (twin url has r t c)
        ≡ (twin url has r t (Socket.active_frame frame c).0, (Socket.active_frame frame c).1)
  unfolding Gateway.active_frame Socket.active_frame Gateway.dispatch_event Socket.dispatch_event
  active-Agrees frame c r t = elim (Option-cases (Gateway.property (text "event_id") frame)) [
    | inl e ↦ ground (arith, e)
    | inr (id, e) ↦ ground (arith, e)
  ]

  active-stays :
      (frame : Json) (c : GatewayClient)
      → ((Socket.active_frame frame c).0.url ≡ c.url)
        × ((Socket.active_frame frame c).0.closed_by_user ≡ c.closed_by_user)
  unfolding Socket.active_frame Socket.dispatch_event
  active-stays frame c = elim (Option-cases (Gateway.property (text "event_id") frame)) [
    | inl e ↦ ground (arith, e)
    | inr (id, e) ↦ ground (arith, e)
  ]

  received-Agrees :
      (frame : Json) (ws timer : ℕ) (c : GatewayClient) (r : Option Text) (t : Option ℕ)
      → c.closed_by_user ≡ false
      → IsSmooth c (received (some frame) ws timer)
      → Agrees (received (some frame) ws timer) c (twin url has r t c)
  unfolding step sdk_move Gateway.step Gateway.on_message Socket.on_message Gateway.on_frame
      Socket.on_frame Gateway.auth_reply Socket.auth_reply Gateway.start_ping Socket.start_app_ping
  received-Agrees frame ws timer c r t o k = elim (Option-cases (read (text "code") frame)) [
    | inl e ↦ record {
      refreshed = r;
      timer = t;
      agrees = ground (arith, e);
      stays = ground (arith, e);
      unclosed = ground (arith, e, o);
    }
    | inr (code, e) ↦ elim (Bool-cases c.authenticated) [
      | inl p ↦ record {
        refreshed = r;
        timer = t;
        agrees = ground (arith, e, p, active-Agrees frame c r t);
        stays = ground (arith, e, p, active-stays frame c);
        unclosed = ground (arith, e, p, o, active-stays frame c);
      }
      | inr p ↦
          let z = k p code e in
          record {
            refreshed = r;
            timer = t;
            agrees = ground (arith, e, p, z);
            stays = ground (arith, e, p, z);
            unclosed = ground (arith, e, p, o, z);
          }
    ]
  ]

  connect-Agrees :
      (ws : ℕ) (c : GatewayClient) (r : Option Text) (t : Option ℕ)
      → c.url ≡ url ++ text "/ws"
      → c.closed_by_user ≡ false
      → Agrees (connects (some ws)) c (twin url has r t c)
  unfolding step sdk_move Gateway.step Socket.connect Gateway.connect Socket.open_socket
      Gateway.open_socket
  connect-Agrees ws c r t u o = elim (Option-cases c.socket) [
    | inl p ↦ record {
      refreshed = none;
      timer = t;
      agrees = ground (arith, u, o, p);
      stays = ground (arith, p);
      unclosed = ground (arith, p, o);
    }
    | inr (s, p) ↦ record {
      refreshed = r;
      timer = t;
      agrees = ground (arith, u, o, p);
      stays = ground (arith, p);
      unclosed = ground (arith, p, o);
    }
  ]

  step-Agrees :
      (v : Move) (c : GatewayClient) (r : Option Text) (t : Option ℕ)
      → c.url ≡ url ++ text "/ws"
      → c.closed_by_user ≡ false
      → IsSmooth c v
      → Agrees v c (twin url has r t c)
  unfolding step sdk_move Gateway.step Socket.set_credential Gateway.set_credential Socket.on_open
      Gateway.on_open Socket.open_socket Gateway.open_socket Socket.on_ping_timer
      Gateway.on_ping_timer Socket.on_close Gateway.on_close Gateway.on_reconnect_timer
      Gateway.stop_ping Socket.stop_app_ping Gateway.schedule_reconnect Socket.schedule_reconnect
  step-Agrees (connects made) c r t u o (ws, e) = rw e (connect-Agrees ws c r t u o)
  step-Agrees closes_by_user c r t u o k = absurd k
  step-Agrees (sets_credential d) c r t u o k = record {
    refreshed = r;
    timer = t;
    agrees = refl;
    stays = refl;
    unclosed = o;
  }
  step-Agrees (opened ws) c r t u o k = record {
    refreshed = r;
    timer = t;
    agrees = refl;
    stays = refl;
    unclosed = o;
  }
  step-Agrees (received none ws timer) c r t u o k =
      unfold Gateway.on_message Socket.on_message in
      record { refreshed = r; timer = t; agrees = refl; stays = refl; unclosed = o }
  step-Agrees (received (some frame) ws timer) c r t u o k =
      received-Agrees frame ws timer c r t o k
  step-Agrees (socket_closed timer) c r t u o k = record {
    refreshed = r;
    timer = some timer;
    agrees = ground (arith, o);
    stays = ground (arith, o);
    unclosed = ground (arith, o);
  }
  step-Agrees (reconnect_fired made) c r t u o (p, ws, e) = record {
    refreshed = r;
    timer = none;
    agrees = ground (arith, u, o, p, e);
    stays = ground (arith, e);
    unclosed = ground (arith, e, o);
  }
  step-Agrees ping_fired c r t u o k = record {
    refreshed = r;
    timer = t;
    agrees = refl;
    stays = refl;
    unclosed = o;
  }

  run-Agrees :
      (vs : List Move) (c : GatewayClient) (r : Option Text) (t : Option ℕ)
      → c.url ≡ url ++ text "/ws"
      → c.closed_by_user ≡ false
      → AllSmooth c vs
      → (r' : Option Text) × (t' : Option ℕ) × (Gateway.run (sdk_moves vs) (twin url has r t c)
          ≡ (twin url has r' t' (run vs c).0, (run vs c).1))
  unfolding run Gateway.run
  run-Agrees [] c r t u o k = (r, t, refl)
  run-Agrees (v ∷ vs) c r t u o (k, ks) =
      let h = step-Agrees v c r t u o k in
      let (r', t', e) =
        run-Agrees vs (step v c).0 h.refreshed h.timer (h.stays ∙ u) h.unclosed ks in
      (r', t', rw h.agrees (rw e refl))

-- From new ones, with the same credential and the same server: as long as sockets are made, frames of the
-- code 0 answer the authentications, close() is not called and timers fire where there is no socket, the
-- demo client's socket and the SDK's do the same to the outside, in the same order: the frames handed on,
-- the sockets opened, the frames sent, the statuses and the timers.
pub run_same :
    (url credential : Text) (has : Bool) (vs : List Move)
    → AllSmooth (new (trim_end url ++ text "/ws") credential) vs
    → (run vs (new (trim_end url ++ text "/ws") credential)).1
      ≡ (Gateway.run (sdk_moves vs) (Gateway.new url credential (pos 25000) has)).1
unfolding new Gateway.new
run_same url credential has vs k =
    let c = new (trim_end url ++ text "/ws") credential in
    let (r, t, e) = run-Agrees (trim_end url) has vs c none none refl refl k in
    sym (ap (λ (p : GatewaySocket × List Effect). p.1) e)
