-- ===== src/Gateway/Bounds.antt =====
-- The bounds of the socket's state: the backoff delay and the set of seen events.
use airway_im_plugin.Base.{
  ℕ, zero, suc, ◌*◌, ◌^◌, ◌≤◌, ◌≡◌, Bool, false, none, some, List, arith, length, min, sym, ◌∙◌, ap,
  Bool-cases, ltb, ltb→lt, ltb→le, inl, inr,
}
use native.Mathlib.Nat.{pow-succ'}
use airway_im_plugin.Json.{Json}
use airway_im_plugin.Gateway.Cases.{on_message_cases}
use airway_im_plugin.Gateway.{
  GatewaySocket, Move, connects, closes_by_user, sets_credential, sets_url, opened, received,
  socket_closed, credential_came, reconnect_fired, ping_fired, step, auth_reply, start_ping,
  remember, max_seen_events, max_reconnect_delay_ms,
}

pub record IsBounded (s : GatewaySocket) : Type 0 where
  pub delay_low : 500 ≤ s.reconnect_delay_ms
  pub delay_high : s.reconnect_delay_ms ≤ max_reconnect_delay_ms
  pub seen_few : length s.seen ≤ max_seen_events

length-remember :
    (id : Json) (seen : List Json)
    → length seen ≤ max_seen_events
    → length (remember id seen) ≤ max_seen_events
unfolding remember
length-remember id seen h = ground arith

auth_reply-IsBounded :
    (accepted : Bool) (timer : ℕ) (s : GatewaySocket)
    → IsBounded s
    → IsBounded (auth_reply accepted timer s).0
unfolding auth_reply start_ping
auth_reply-IsBounded accepted timer s h = ground arith

-- Whatever happens next, the delay stays from 500 ms to 10 s and the set within its 10000 events.
pub step-IsBounded : (v : Move) (s : GatewaySocket) → IsBounded s → IsBounded (step v s).0
unfolding step
step-IsBounded (connects none) s h = ground arith
step-IsBounded (connects (some ws)) s h = ground arith
step-IsBounded closes_by_user s h = ground arith
step-IsBounded (sets_credential c) s h = ground arith
step-IsBounded (sets_url u) s h = ground arith
step-IsBounded (opened ws) s h = ground arith
step-IsBounded (received none timer) s h = ground arith
step-IsBounded (received (some frame) timer) s h =
    on_message_cases (λ r. IsBounded r.0) frame timer s h h
      (λ accepted q. auth_reply-IsBounded accepted timer s h)
      (λ id q e t n. record {
        delay_low = h.delay_low;
        delay_high = h.delay_high;
        seen_few = length-remember id s.seen h.seen_few;
      })
step-IsBounded (socket_closed timer) s h = ground arith
step-IsBounded (credential_came reply timer) s h = ground arith
step-IsBounded (reconnect_fired none) s h = ground arith
step-IsBounded (reconnect_fired (some ws)) s h = ground arith
step-IsBounded ping_fired s h = ground arith

-- One failed attempt to reconnect: the timer makes a new socket, which closes before it is
-- authenticated.
abbrev pub fails : ℕ → ℕ → GatewaySocket → GatewaySocket
fails ws timer s = (step (socket_closed timer) (step (reconnect_fired (some ws)) s).0).0

pub fails_times : ℕ → ℕ → ℕ → GatewaySocket → GatewaySocket
fails_times zero ws timer s = s
fails_times (suc n) ws timer s = fails_times n (suc ws) (suc timer) (fails ws timer s)

-- The socket waits for its reconnection timer.
pub record IsWaiting (s : GatewaySocket) : Type 0 where
  pub wanted : s.closed_by_user ≡ false
  pub no_socket : s.socket ≡ none
  pub not_rejected : s.auth_rejected ≡ false

fails-IsWaiting : (ws timer : ℕ) (s : GatewaySocket) → IsWaiting s → IsWaiting (fails ws timer s)
unfolding step
fails-IsWaiting ws timer s h = ground arith

fails-delay :
    (ws timer : ℕ) (s : GatewaySocket)
    → IsWaiting s
    → (fails ws timer s).reconnect_delay_ms ≡ min (s.reconnect_delay_ms * 2) 10000
unfolding step
fails-delay ws timer s h = ground arith

le_mul : (d p : ℕ) → 1 ≤ p → d ≤ d * p
le_mul d p h = grind arith

double_capped : (d p : ℕ) → 1 ≤ p → min (min (d * 2) 10000 * p) 10000 ≡ min (d * (2 * p)) 10000
double_capped d p h =
    let more : d ≤ d * p = le_mul d p h in
    elim (Bool-cases (ltb 10000 (d * 2))) [
      | inl q ↦
          let big = ltb→lt 10000 (d * 2) q in
          let e : min (d * 2) 10000 ≡ 10000 = omega arith in rw e (omega arith)
      | inr q ↦
          let small = ltb→le 10000 (d * 2) q in
          let e : min (d * 2) 10000 ≡ d * 2 = omega arith in rw e (omega arith)
    ]

pow_pos : (n : ℕ) → 1 ≤ 2 ^ n
pow_pos zero = omega arith
pow_pos (suc n) = omega (arith, pow-succ' 2 n, pow_pos n)

-- After `n` failed attempts in a row the delay is the first one doubled `n` times, up to 10 s.
fails_times-delay :
    (n ws timer : ℕ) (s : GatewaySocket)
    → IsWaiting s
    → s.reconnect_delay_ms ≤ 10000
    → (fails_times n ws timer s).reconnect_delay_ms ≡ min (s.reconnect_delay_ms * 2 ^ n) 10000
unfolding fails_times
fails_times-delay zero ws timer s h b = omega arith
fails_times-delay (suc n) ws timer s h b =
    fails_times-delay n (suc ws) (suc timer) (fails ws timer s) (fails-IsWaiting ws timer s h)
      (omega (arith, fails-delay ws timer s h))
    ∙ ap (λ d. min (d * 2 ^ n) 10000) (fails-delay ws timer s h)
    ∙ double_capped s.reconnect_delay_ms (2 ^ n) (pow_pos n)
    ∙ ap (λ p. min (s.reconnect_delay_ms * p) 10000) (sym (pow-succ' 2 n))
