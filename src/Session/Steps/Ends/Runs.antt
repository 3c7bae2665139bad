-- ===== src/Session/Steps/Ends/Runs.antt =====
-- A property that outlasts a whole history of the session, where the "error" listeners do not throw.
use airway_im_plugin.Base.{
  ℕ, suc, ◌≡◌, refl, Bool, true, false, Option, none, some, List, [], ◌∷◌, ◌++◌, All, if_cases,
}
use airway_im_plugin.Text.{Text}
use airway_im_plugin.Json.{Json}
use airway_im_plugin.Gateway
use airway_im_plugin.Gateway.{GatewaySocket, closed}
use airway_im_plugin.Sync.{GatewayEvent}
use airway_im_plugin.Sync.Events
use airway_im_plugin.Emitter.{Delivery}
use airway_im_plugin.Emitter.Calm.{IsCalm}
use airway_im_plugin.Session.{AirwayIm, group, direct, remember_kind}
use airway_im_plugin.Session.Steps.{
  Move, connects, disconnects, shown, sets_credential, socket, brought_to_rest, taken_by_rest,
  brought_to_gateway, begins, answers, refused, ons, offs, conversation_ons, conversation_offs,
  groups_listed, direct_came, group_created, details_came, opens, members_change, sends_to_group,
  message_sent, histories, forgets, change_members, send_to_group, after_send, on_gateway,
  connect_with, disconnect_with, set_credential, rest_brought, rest_taken, gateway_brought, step,
  run, gateway_step, engine_step, connect, disconnect, on_show, history, forget_conversation,
  details_arrived, direct_arrived, group_arrived,
}
use airway_im_plugin.Session.Steps.Ends.{
  EndsIn, EndsIn-then, report_error-EndsIn, callbacks-EndsIn, on_outputs-EndsIn,
}
use airway_im_plugin.Session.Steps.Ends.Loose.{
  IsLoose, conversation_on-keeps, conversation_off-keeps, remember_groups-keeps, arrived-keeps,
  open_conversation-keeps,
}

-- The state that a step of the gateway leaves to the callbacks.
abbrev pub after_socket : Option GatewaySocket → Gateway.Move → AirwayIm → AirwayIm
after_socket none v s = s
after_socket (some g) v s = record s {
  gateway = some (Gateway.step v g).0;
  effects = s.effects ++ (Gateway.step v g).1;
}

-- Beside that, a property must outlast the steps of the gateway that are allowed, and the changes of
-- the credential that are.
pub record Lasts (P : AirwayIm → Type 0) (Allowed : Gateway.Move → Type 0)
    (Accepted : Text → Type 0) : Type 0 where
  pub loose : IsLoose P
  pub calls : (made : Option ℕ) → Allowed (Gateway.connects made)
  pub leaves : Allowed Gateway.closes_by_user
  pub socket :
      (o : Option GatewaySocket) (v : Gateway.Move) (s : AirwayIm)
      → Allowed v
      → s.gateway ≡ o
      → P s
      → P (after_socket o v s)
  pub replaced : (c : Text) (s : AirwayIm) → Accepted c → P s → P (set_credential c s)
  pub brought : (c : Text) (s : AirwayIm) → Accepted c → P s → P (rest_brought c s)
  pub taken : (c : Text) (s : AirwayIm) → Accepted c → P s → P (rest_taken c s)
  pub shared : (c : Text) (s : AirwayIm) → Accepted c → P s → P (gateway_brought c s)

-- A history with the gateway's steps and the credentials that are allowed.
abbrev pub IsAllowed : (Gateway.Move → Type 0) → (Text → Type 0) → Move → Type 0
IsAllowed Allowed Accepted (socket v) = Allowed v
IsAllowed Allowed Accepted (sets_credential c) = Accepted c
IsAllowed Allowed Accepted (brought_to_rest c) = Accepted c
IsAllowed Allowed Accepted (taken_by_rest c) = Accepted c
IsAllowed Allowed Accepted (brought_to_gateway c) = Accepted c
IsAllowed Allowed Accepted _ = Unit

module _ (throws : List Delivery → Delivery → Bool) (fuel : ℕ) (cast : Json → GatewayEvent)
    (calm : IsCalm throws) (P : AirwayIm → Type 0) (Allowed : Gateway.Move → Type 0)
    (Accepted : Text → Type 0) (lasts : Lasts P Allowed Accepted) where
  pub on_gateway-EndsIn :
      (o : Option GatewaySocket) (v : Gateway.Move) (s : AirwayIm)
      → P (after_socket o v s)
      → EndsIn P (on_gateway throws (suc (suc fuel)) cast o v s)
  unfolding on_gateway
  on_gateway-EndsIn none v s h = (s, refl, h)
  on_gateway-EndsIn (some g) v s h =
      callbacks-EndsIn throws fuel calm P lasts.loose.free cast (Gateway.step v g).1
        (after_socket (some g) v s) h

  gateway_step-EndsIn :
      (v : Gateway.Move) (s : AirwayIm)
      → Allowed v
      → P s
      → EndsIn P (gateway_step throws (suc (suc fuel)) cast v s)
  unfolding gateway_step
  gateway_step-EndsIn v s a h =
      on_gateway-EndsIn s.gateway v s (lasts.socket s.gateway v s a refl h)

  connect_with-EndsIn :
      (g : Option GatewaySocket) (made : Option ℕ) (s : AirwayIm)
      → P s
      → EndsIn P (connect_with throws (suc (suc fuel)) cast g made s)
  unfolding connect_with
  connect_with-EndsIn none made s h = report_error-EndsIn throws fuel calm P lasts.loose.free s h
  connect_with-EndsIn (some g) made s h =
      gateway_step-EndsIn (Gateway.connects made) _ (lasts.calls made) (lasts.loose.wanted s true h)

  disconnect_with-EndsIn :
      (g : Option GatewaySocket) (s : AirwayIm)
      → P s
      → EndsIn P (disconnect_with throws (suc (suc fuel)) cast g s)
  unfolding disconnect_with
  disconnect_with-EndsIn none s h = (_, refl, lasts.loose.wanted s false h)
  disconnect_with-EndsIn (some g) s h =
      EndsIn-then P
        (gateway_step throws (suc (suc fuel)) cast Gateway.closes_by_user
          (record s { want_connected = false }))
        (λ t. some (record t { status = closed }))
        (gateway_step-EndsIn Gateway.closes_by_user _ lasts.leaves (lasts.loose.wanted s false h))
        (λ t k. (record t { status = closed }, refl, lasts.loose.free.status t closed k))

  engine_step-EndsIn :
      (v : Events.Move) (s : AirwayIm)
      → P s
      → EndsIn P (engine_step throws (suc (suc fuel)) cast v s)
  unfolding engine_step
  engine_step-EndsIn v s h =
      on_outputs-EndsIn throws fuel calm P lasts.loose.free (Events.step v s.sync).1
        (record s { sync = (Events.step v s.sync).0 })
        (lasts.loose.free.sync s (Events.step v s.sync).0 h)

  pub step-EndsIn :
      (v : Move) (s : AirwayIm)
      → IsAllowed Allowed Accepted v
      → P s
      → EndsIn P (step throws (suc (suc fuel)) cast v s)
  unfolding step connect disconnect on_show direct_arrived group_arrived details_arrived
      change_members send_to_group after_send remember_kind history forget_conversation
  step-EndsIn (connects made) s a h = connect_with-EndsIn s.gateway made s h
  step-EndsIn disconnects s a h = disconnect_with-EndsIn s.gateway s h
  step-EndsIn (shown made) s a h =
      if_cases (EndsIn P) s.want_connected _ _
        (λ p. gateway_step-EndsIn (Gateway.connects made) s (lasts.calls made) h)
        (λ p. (s, refl, h))
  step-EndsIn (sets_credential c) s a h = (_, refl, lasts.replaced c s a h)
  step-EndsIn (socket v) s a h = gateway_step-EndsIn v s a h
  step-EndsIn (brought_to_rest c) s a h = (_, refl, lasts.brought c s a h)
  step-EndsIn (taken_by_rest c) s a h = (_, refl, lasts.taken c s a h)
  step-EndsIn (brought_to_gateway c) s a h = (_, refl, lasts.shared c s a h)
  step-EndsIn (begins i) s a h = engine_step-EndsIn (Events.begins i) s h
  step-EndsIn (answers i reply) s a h = engine_step-EndsIn (Events.answers i reply) s h
  step-EndsIn refused s a h = report_error-EndsIn throws fuel calm P lasts.loose.free s h
  step-EndsIn (ons event k) s a h = (_, refl, lasts.loose.listeners s _ h)
  step-EndsIn (offs event k) s a h = (_, refl, lasts.loose.listeners s _ h)
  step-EndsIn (conversation_ons id event k) s a h =
      (_, refl, conversation_on-keeps P lasts.loose id event k s h)
  step-EndsIn (conversation_offs id event k) s a h =
      (_, refl, conversation_off-keeps P lasts.loose id event k s h)
  step-EndsIn (groups_listed cs) s a h = (_, refl, remember_groups-keeps P lasts.loose cs s h)
  step-EndsIn (direct_came id) s a h =
      (_, refl, arrived-keeps P lasts.loose id id direct direct none s h)
  step-EndsIn (group_created c) s a h =
      (_, refl, arrived-keeps P lasts.loose c.id c.id group group c.title s h)
  step-EndsIn (details_came id uuid kind) s a h =
      (_, refl, arrived-keeps P lasts.loose uuid id kind kind none s h)
  step-EndsIn (opens id) s a h = (_, refl, open_conversation-keeps P lasts.loose id s h)
  step-EndsIn (members_change id) s a h = (_, refl, lasts.loose.free.kinds s _ h)
  step-EndsIn (sends_to_group id) s a h = (_, refl, lasts.loose.free.kinds s _ h)
  step-EndsIn (message_sent id seq) s a h = (_, refl, lasts.loose.free.sync s _ h)
  step-EndsIn (histories id o) s a h = (_, refl, lasts.loose.free.sync s _ h)
  step-EndsIn (forgets id) s a h =
      (_, refl, lasts.loose.free.kinds _ _ (lasts.loose.free.sync s _ h))

  pub run-EndsIn :
      (vs : List Move) (s : AirwayIm)
      → All (IsAllowed Allowed Accepted) vs
      → P s
      → EndsIn P (run throws (suc (suc fuel)) cast vs s)
  unfolding run
  run-EndsIn [] s a h = (s, refl, h)
  run-EndsIn (v ∷ vs) s a h =
      EndsIn-then P (step throws (suc (suc fuel)) cast v s) (run throws (suc (suc fuel)) cast vs)
        (step-EndsIn v s a.0 h) (λ s' h'. run-EndsIn vs s' a.1 h')
