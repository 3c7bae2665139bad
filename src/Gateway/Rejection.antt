-- ===== src/Gateway/Rejection.antt =====
-- A rejected credential: when the client asks the host for another, and when it gives up.
use airway_im_plugin.Gateway.Cases.{on_message_cases}
use airway_im_plugin.Gateway.Closed.{collect, collect-append}
use airway_im_plugin.Base.{
  length, length-append, if◌then◌else◌, ◌+◌, ◌≤◌, zero, suc, ℕ, ◌≡◌, refl, ◌∙◌, Bool, true, false,
  not, ◌&&◌, Option, none, some, List, [], ◌∷◌, arith,
}
use airway_im_plugin.Text.{Text, text_eq, is_truthy, text_eq_refl}
use airway_im_plugin.Gateway.{
  GatewaySocket, Effect, asks_credential, Move, received, socket_closed, credential_came,
  reconnect_fired, CredentialReply, gave, failed, step, run, auth_reply, on_close, start_ping,
  stop_ping, clear_timer, close_effect, connects, sets_credential, closes_by_user, sets_url, opened,
  ping_fired, schedule_reconnect, after_close, not_refreshed, take_credential,
}

-- getCredential brings nothing new: it fails, or gives an empty text or the same credential.
abbrev pub is_stale : Text → CredentialReply → Bool
is_stale credential failed = true
is_stale credential (gave fresh) = not (is_truthy fresh && not (text_eq fresh credential))

-- The calls of getCredential.
abbrev pub asking : Effect → List Effect
asking asks_credential = asks_credential ∷ []
asking _ = []

-- How often the credential that is in use may still be refreshed.
abbrev left_to_ask : GatewaySocket → ℕ
left_to_ask s = if not_refreshed s.refreshed_for s.credential then 1 else 0

-- The move brings no other credential: the host's answer is stale, and neither connect() nor
-- setCredential() is called.
abbrev pub IsStale : Text → Move → Type 0
IsStale c (connects made) = ⊥
IsStale c (sets_credential d) = ⊥
IsStale c (credential_came reply timer) = is_stale c reply ≡ true
IsStale c _ = Unit

abbrev pub AllStale : Text → List Move → Type 0
AllStale c [] = Unit
AllStale c (v ∷ vs) = IsStale c v × AllStale c vs

-- A step keeps the credential and pays for each call of getCredential.
abbrev Pays : GatewaySocket → GatewaySocket × List Effect → Type 0
Pays s r =
    (r.0.credential ≡ s.credential)
    × (length (collect asking r.1) + left_to_ask r.0 ≤ left_to_ask s)

not_refreshed_refl : (c : Text) → not_refreshed (some c) c ≡ false
unfolding not_refreshed
not_refreshed_refl c = rw (text_eq_refl c) refl

auth_reply-Pays :
    (accepted : Bool) (timer : ℕ) (s : GatewaySocket) → Pays s (auth_reply accepted timer s)
unfolding auth_reply start_ping stop_ping clear_timer
auth_reply-Pays accepted timer s = ground arith

clear_timer-asking : (o : Option ℕ) → collect asking (clear_timer o) ≡ []
unfolding clear_timer
clear_timer-asking none = refl
clear_timer-asking (some zero) = refl
clear_timer-asking (some (suc h)) = refl

after_close-Pays : (timer : ℕ) (s : GatewaySocket) → Pays s (after_close timer s)
unfolding after_close schedule_reconnect
after_close-Pays timer s = ground (arith, not_refreshed_refl s.credential)

take_credential-stale :
    (reply : CredentialReply) (s : GatewaySocket)
    → is_stale s.credential reply ≡ true
    → (take_credential reply s).0 ≡ s
unfolding take_credential
take_credential-stale failed s h = refl
take_credential-stale (gave fresh) s h = ground arith

on_close-Pays : (timer : ℕ) (s : GatewaySocket) → Pays s (on_close timer s)
unfolding on_close stop_ping
on_close-Pays timer s =
    let t = record s { ping_timer = none; authenticated = false; socket = none } in
    let paid = after_close-Pays timer t in
    (paid.0, simp (collect-append, clear_timer-asking) (paid.1))

close_effect-asking : (o : Option ℕ) → collect asking (close_effect o) ≡ []
unfolding close_effect
close_effect-asking none = refl
close_effect-asking (some ws) = refl

take_credential-asking :
    (reply : CredentialReply) (s : GatewaySocket) → collect asking (take_credential reply s).1 ≡ []
unfolding take_credential
take_credential-asking failed s = refl
take_credential-asking (gave fresh) s = ground arith

step-Pays : (v : Move) (s : GatewaySocket) → IsStale s.credential v → Pays s (step v s)
unfolding step
step-Pays (connects made) s h = absurd h
step-Pays closes_by_user s h =
    (refl, simp (collect-append, clear_timer-asking, close_effect-asking) (omega arith))
step-Pays (sets_credential c) s h = absurd h
step-Pays (sets_url u) s h = ground arith
step-Pays (opened ws) s h = ground arith
step-Pays (received none timer) s h = ground arith
step-Pays (received (some frame) timer) s h =
    on_message_cases (Pays s) frame timer s (refl, omega arith) (refl, omega arith)
      (λ accepted q. auth_reply-Pays accepted timer s) (λ id q e t n. (refl, omega arith))
step-Pays (socket_closed timer) s h = on_close-Pays timer s
step-Pays (credential_came reply timer) s h =
    rw (take_credential-stale reply s h)
      (refl, simp (collect-append, take_credential-asking) (omega arith))
step-Pays (reconnect_fired made) s h = ground arith
step-Pays ping_fired s h = ground arith

run-Pays : (vs : List Move) (s : GatewaySocket) → AllStale s.credential vs → Pays s (run vs s)
unfolding run
run-Pays [] s h = (refl, omega arith)
run-Pays (v ∷ vs) s h =
    let (same_credential, paid) = step-Pays v s h.0 in
    let t = (step v s).0 in
    let (still, rest) = run-Pays vs t (rw same_credential h.1) in
    (
      still ∙ same_credential,
      rw
          (
            collect-append asking (step v s).1 (run vs t).1,
            length-append (collect asking (step v s).1) (collect asking (run vs t).1),
          )
          (omega (arith, paid, rest)),
    )

one_left : (s : GatewaySocket) → left_to_ask s ≤ 1
one_left s = ground arith

-- However often the server refuses the credential, and whatever else happens, the host is asked for
-- a new credential at most once, as long as its answers bring nothing new and neither connect() nor
-- setCredential() is called.
pub asks_at_most_once :
    (vs : List Move) (s : GatewaySocket)
    → AllStale s.credential vs
    → length (collect asking (run vs s).1) ≤ 1
asks_at_most_once vs s h = omega (arith, (run-Pays vs s h).1, one_left s)
