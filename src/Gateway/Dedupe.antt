-- ===== src/Gateway/Dedupe.antt =====
-- At-least-once events made at-most-once: which events the socket hands on, and that it hands on
-- none twice while its set of seen events has room.
use airway_im_plugin.Base.{
  ℕ, ◌+◌, ◌≤◌, ◌<◌, ◌≡◌, refl, Bool, true, false, none, some, List, [], ◌∷◌, ◌++◌, arith, length,
  ◌∙◌,
}
use airway_im_plugin.Text.{text}
use airway_im_plugin.Json.{Json, truthy}
use airway_im_plugin.Gateway.Cases.{on_message_cases}
use airway_im_plugin.Gateway.{
  GatewaySocket, Effect, status, event, ready, auth_failed, refresh_failed, opens, sends, closes,
  sets_timeout, sets_interval, clears, asks_credential, throws, Move, connects, closes_by_user,
  sets_credential, sets_url, opened, received, socket_closed, credential_came, reconnect_fired,
  ping_fired, step, run, auth_reply, start_ping, has_seen, remember, property,
}

-- The frames that are handed to onEvent, in order.
abbrev pub events : List Effect → List Json
events [] = []
events (event frame ∷ xs) = frame ∷ events xs
events (status _ ∷ xs) = events xs
events (ready ∷ xs) = events xs
events (auth_failed ∷ xs) = events xs
events (refresh_failed ∷ xs) = events xs
events (opens _ ∷ xs) = events xs
events (sends _ _ ∷ xs) = events xs
events (closes _ ∷ xs) = events xs
events (sets_timeout _ _ ∷ xs) = events xs
events (sets_interval _ _ ∷ xs) = events xs
events (clears _ ∷ xs) = events xs
events (asks_credential ∷ xs) = events xs
events (throws ∷ xs) = events xs

-- A step hands on nothing and keeps the set, or it hands on the one frame that came, whose id is
-- new and true in a condition, to a socket that is authenticated, and puts the id into the set.
pub data Delivers (s s' : GatewaySocket) (out : List Json) : Type 0 where
  nothing : out ≡ [] → s'.seen ≡ s.seen → Delivers s s' out
  one :
      (frame id : Json)
      → out ≡ frame ∷ []
      → property (text "event_id") frame ≡ some id
      → truthy (some id) ≡ true
      → s.authenticated ≡ true
      → has_seen id s.seen ≡ false
      → s'.seen ≡ remember id s.seen
      → Delivers s s' out

auth_reply-Delivers :
    (accepted : Bool) (timer : ℕ) (s : GatewaySocket)
    → Delivers s (auth_reply accepted timer s).0 (events (auth_reply accepted timer s).1)
unfolding auth_reply start_ping
auth_reply-Delivers accepted timer s = nothing (ground arith) (ground arith)

-- Every method and callback delivers so: an event is handed on only while the socket is
-- authenticated, and only if its id has not been seen.
step-Delivers : (v : Move) (s : GatewaySocket) → Delivers s (step v s).0 (events (step v s).1)
unfolding step
step-Delivers (connects none) s = nothing (ground arith) (ground arith)
step-Delivers (connects (some ws)) s = nothing (ground arith) (ground arith)
step-Delivers closes_by_user s = nothing (ground arith) (ground arith)
step-Delivers (sets_credential c) s = nothing refl refl
step-Delivers (sets_url u) s = nothing refl refl
step-Delivers (opened ws) s = nothing refl refl
step-Delivers (received none timer) s = nothing refl refl
step-Delivers (received (some frame) timer) s =
    on_message_cases (λ r. Delivers s r.0 (events r.1)) frame timer s (nothing refl refl)
      (nothing refl refl) (λ accepted q. auth_reply-Delivers accepted timer s)
      (λ id q e t n. one frame id refl e t q n refl)
step-Delivers (socket_closed timer) s = nothing (ground arith) (ground arith)
step-Delivers (credential_came reply timer) s = nothing (ground arith) (ground arith)
step-Delivers (reconnect_fired none) s = nothing (ground arith) (ground arith)
step-Delivers (reconnect_fired (some ws)) s = nothing (ground arith) (ground arith)
step-Delivers ping_fired s = nothing (ground arith) (ground arith)

events-append : (xs ys : List Effect) → events (xs ++ ys) ≡ events xs ++ events ys
events-append [] ys = refl
events-append (event frame ∷ xs) ys = rw (events-append xs ys)
events-append (status _ ∷ xs) ys = events-append xs ys
events-append (ready ∷ xs) ys = events-append xs ys
events-append (auth_failed ∷ xs) ys = events-append xs ys
events-append (refresh_failed ∷ xs) ys = events-append xs ys
events-append (opens _ ∷ xs) ys = events-append xs ys
events-append (sends _ _ ∷ xs) ys = events-append xs ys
events-append (closes _ ∷ xs) ys = events-append xs ys
events-append (sets_timeout _ _ ∷ xs) ys = events-append xs ys
events-append (sets_interval _ _ ∷ xs) ys = events-append xs ys
events-append (clears _ ∷ xs) ys = events-append xs ys
events-append (asks_credential ∷ xs) ys = events-append xs ys
events-append (throws ∷ xs) ys = events-append xs ys

-- Each frame has an id that is not in the set, and not that of a frame before it.
abbrev pub AllNew : List Json → List Json → Type 0
AllNew seen [] = Unit
AllNew seen (frame ∷ frames) =
    (id : Json) × (property (text "event_id") frame ≡ some id)
    × (has_seen id seen ≡ false)
    × AllNew (id ∷ seen) frames

remember-room : (id : Json) (seen : List Json) → length seen < 10000 → remember id seen ≡ id ∷ seen
unfolding remember
remember-room id seen h = ground arith

-- As long as the set of seen events has room for as many more as there are steps, no event is
-- handed on whose id had been seen or that was handed on before; through closes, reconnections and
-- everything else that may happen.
pub run-AllNew :
    (vs : List Move) (s : GatewaySocket)
    → length s.seen + length vs ≤ 10000
    → AllNew s.seen (events (run vs s).1)
unfolding run
run-AllNew [] s h = tt
run-AllNew (v ∷ vs) s h = elim (step-Delivers v s) [
  | nothing e q ↦
      rw (events-append (step v s).1 (run vs (step v s).0).1)
        (rw e (rw q at (run-AllNew vs (step v s).0 (rw q (omega arith)))))
  | one frame id e p t a n q ↦
      let grown : (step v s).0.seen ≡ id ∷ s.seen = q ∙ remember-room id s.seen (omega arith) in
      rw (events-append (step v s).1 (run vs (step v s).0).1)
        (rw e ((id, p, n, rw grown at (run-AllNew vs (step v s).0 (rw grown (omega arith))))))
]
