-- ===== src/Gateway/Credential.antt =====
-- What each step of the socket does to the credential.
use airway_im_plugin.Base.{
  ℕ, ◌≡◌, refl, Bool, true, false, not, ◌&&◌, Option, none, some, arith, if◌then◌else◌,
}
use airway_im_plugin.Text.{Text, text_eq, is_truthy}
use airway_im_plugin.Gateway.Cases.{on_message_cases}
use airway_im_plugin.Gateway.{
  GatewaySocket, Move, connects, closes_by_user, sets_credential, sets_url, opened, received,
  socket_closed, credential_came, reconnect_fired, ping_fired, gave, failed, step, connect, close,
  clear_timers, stop_ping, start_ping, open_socket, attach, on_open, on_close, on_message,
  auth_reply, on_credential, take_credential, on_reconnect_timer, schedule_reconnect,
  set_credential, set_ws_url, on_ping_timer, after_close,
}

-- Only setCredential and a new credential from getCredential change it.
abbrev pub credential_after : Move → Text → Text
credential_after (sets_credential fresh) c = fresh
credential_after (credential_came (gave fresh) timer) c =
    if is_truthy fresh && not (text_eq fresh c) then fresh else c
credential_after _ c = c

open_socket-credential :
    (made : Option ℕ) (s : GatewaySocket) → (open_socket made s).0.credential ≡ s.credential
unfolding open_socket attach
open_socket-credential none s = refl
open_socket-credential (some ws) s = refl

auth_reply-credential :
    (b : Bool) (timer : ℕ) (s : GatewaySocket) → (auth_reply b timer s).0.credential ≡ s.credential
unfolding auth_reply start_ping stop_ping
auth_reply-credential true timer s = ground arith
auth_reply-credential false timer s = refl

pub step-credential :
    (v : Move) (s : GatewaySocket) → (step v s).0.credential ≡ credential_after v s.credential
unfolding step connect close clear_timers stop_ping on_close after_close on_reconnect_timer
    on_credential take_credential schedule_reconnect set_credential set_ws_url on_open on_ping_timer
step-credential (connects made) s =
    ground (
      arith,
      open_socket-credential made (record s { closed_by_user = false; refreshed_for = none }),
    )
step-credential closes_by_user s = refl
step-credential (sets_credential c) s = refl
step-credential (sets_url u) s = refl
step-credential (opened ws) s = refl
step-credential (received none timer) s = unfold on_message in refl
step-credential (received (some frame) timer) s =
    on_message_cases (λ x. x.0.credential ≡ s.credential) frame timer s refl refl
      (λ b e. auth_reply-credential b timer s) (λ id a b c d. refl)
step-credential (socket_closed timer) s = ground arith
step-credential (credential_came failed timer) s = refl
step-credential (credential_came (gave fresh) timer) s = ground arith
step-credential (reconnect_fired made) s =
    ground (arith, open_socket-credential made (record s { reconnect_timer = none }))
step-credential ping_fired s = refl
