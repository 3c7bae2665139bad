-- ===== src/Gateway/Closed.antt =====
-- close() and the close events of sockets: what a closed client does, and what a late close event
-- does to a client that has been connected again.
use airway_im_plugin.Base.{
  ℕ, ◌≡◌, refl, Bool, true, Option, none, some, List, [], ◌∷◌, ◌++◌, arith, append_assoc, sym, zero,
  suc,
}
use airway_im_plugin.Text.{Text}
use airway_im_plugin.Gateway.Cases.{on_message_cases}
use airway_im_plugin.Gateway.{
  GatewaySocket, Effect, opens, closes, Move, connects, closes_by_user, sets_credential, sets_url,
  opened, received, socket_closed, credential_came, reconnect_fired, ping_fired, clear_timer,
  close_effect, step, run, close, auth_reply, start_ping,
}

-- What one effect opens, and what it tells to close.
abbrev pub opening : Effect → List Text
opening (opens url) = url ∷ []
opening _ = []

abbrev pub closing : Effect → List ℕ
closing (closes ws) = ws ∷ []
closing _ = []

-- The values that a list of effects has for one of these.
abbrev pub collect : {A : Type 0} → (Effect → List A) → List Effect → List A
collect f [] = []
collect f (x ∷ xs) = f x ++ collect f xs

pub collect-append :
    {A : Type 0} (f : Effect → List A) (xs ys : List Effect)
    → collect f (xs ++ ys) ≡ collect f xs ++ collect f ys
collect-append f [] ys = refl
collect-append f (x ∷ xs) ys =
    rw (collect-append f xs ys) (sym (append_assoc (f x) (collect f xs) (collect f ys)))

-- The urls at which sockets are opened, and the sockets that are told to close.
abbrev pub openings : List Effect → List Text
openings xs = collect opening xs

abbrev pub closings : List Effect → List ℕ
closings xs = collect closing xs

-- The move is no call of connect().
abbrev pub IsNoConnect : Move → Type 0
IsNoConnect (connects made) = ⊥
IsNoConnect _ = Unit

abbrev pub NoConnect : List Move → Type 0
NoConnect [] = Unit
NoConnect (v ∷ vs) = IsNoConnect v × NoConnect vs

-- The step opens no socket and the client stays closed.
abbrev StaysClosed : GatewaySocket × List Effect → Type 0
StaysClosed r = (r.0.closed_by_user ≡ true) × (openings r.1 ≡ [])

auth_reply-StaysClosed :
    (accepted : Bool) (timer : ℕ) (s : GatewaySocket)
    → s.closed_by_user ≡ true
    → StaysClosed (auth_reply accepted timer s)
unfolding auth_reply start_ping
auth_reply-StaysClosed accepted timer s h = ground arith

step-StaysClosed :
    (v : Move) (s : GatewaySocket)
    → IsNoConnect v
    → s.closed_by_user ≡ true
    → StaysClosed (step v s)
unfolding step
step-StaysClosed (connects made) s k h = absurd k
step-StaysClosed closes_by_user s k h = ground arith
step-StaysClosed (sets_credential c) s k h = ground arith
step-StaysClosed (sets_url u) s k h = ground arith
step-StaysClosed (opened ws) s k h = ground arith
step-StaysClosed (received none timer) s k h = ground arith
step-StaysClosed (received (some frame) timer) s k h =
    on_message_cases StaysClosed frame timer s (h, refl) (h, refl)
      (λ accepted q. auth_reply-StaysClosed accepted timer s h) (λ id q e t n. (h, refl))
step-StaysClosed (socket_closed timer) s k h = ground arith
step-StaysClosed (credential_came reply timer) s k h = ground arith
step-StaysClosed (reconnect_fired made) s k h = ground arith
step-StaysClosed ping_fired s k h = ground arith

run-StaysClosed :
    (vs : List Move) (s : GatewaySocket)
    → NoConnect vs
    → s.closed_by_user ≡ true
    → StaysClosed (run vs s)
unfolding run
run-StaysClosed [] s k h = (h, refl)
run-StaysClosed (v ∷ vs) s k h =
    let (still, none_open) = step-StaysClosed v s k.0 h in
    let (end, rest) = run-StaysClosed vs (step v s).0 k.1 still in
    (end, rw (collect-append opening (step v s).1 (run vs (step v s).0).1, none_open) rest)

closes_it : (s : GatewaySocket) → (close s).0.closed_by_user ≡ true
unfolding close
closes_it s = ground arith

-- After close(), until connect() is called again, nothing that may happen opens a socket: no close
-- event, no timer that was already set, no frame, and no credential that arrives late.
pub close_is_final :
    (vs : List Move) (s : GatewaySocket) → NoConnect vs → openings (run vs (close s).0).1 ≡ []
close_is_final vs s k = (run-StaysClosed vs (close s).0 k (closes_it s)).1

clear_timer-closings : (o : Option ℕ) → closings (clear_timer o) ≡ []
unfolding clear_timer
clear_timer-closings none = refl
clear_timer-closings (some zero) = refl
clear_timer-closings (some (suc h)) = refl

-- A late close event drops the new socket. Where a client with the socket `old` is closed and
-- connected again before the close event of `old` comes, that event makes the client forget its new
-- socket, which nothing closes, and the reconnection timer that it sets opens a third one.
pub late_close_leaks :
    (s : GatewaySocket) (old new third timer : ℕ)
    → s.socket ≡ some old
    → let vs =
        closes_by_user
        ∷ connects (some new)
        ∷ socket_closed timer
        ∷ reconnect_fired (some third)
        ∷ [] in
      ((run vs s).0.socket ≡ some third) × (closings (run vs s).1 ≡ old ∷ [])
unfolding run step
late_close_leaks s old new third timer h =
    let closes_old : closings (close_effect s.socket) ≡ old ∷ [] = rw (h, close_effect) refl in
    (refl, simp (collect-append, clear_timer-closings, closes_old))
