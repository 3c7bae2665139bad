-- ===== src/Session/Steps/Order/History.antt =====
-- A history of the session: its methods, the gateway's callbacks, the engine's tasks and the answers
-- of the server, in any order.
use airway_im_plugin.Base.{
  ℕ, suc, ◌≡◌, refl, ◌∙◌, Bool, true, false, Option, none, some, List, [], ◌∷◌, ◌++◌, arith,
  Bool-cases, inl, inr, get_elem?, if_cases,
}
use airway_im_plugin.Text.{Text}
use airway_im_plugin.Json.{Json}
use airway_im_plugin.Dict
use airway_im_plugin.Dict.{Dict}
use airway_im_plugin.Gateway
use airway_im_plugin.Gateway.{GatewaySocket, closed}
use airway_im_plugin.Sync.{GatewayEvent, last_sequence}
use airway_im_plugin.Sync.Fetch.Order.{Ascending, last_of-ge}
use airway_im_plugin.Sync.Queue.{tracks}
use airway_im_plugin.Sync.Queue.Cursor.{emitted}
use airway_im_plugin.Sync.Queue.Belong.{AllBelong, AnswersOf, starts-AllBelong, replies-AllBelong}
use airway_im_plugin.Sync.Events
use airway_im_plugin.Sync.Events.Serial.{fresh}
use airway_im_plugin.Sync.Events.Cursor.{cursor, IsGoodAt}
use airway_im_plugin.Sync.Events.Cursor.Once.{
  IsGoodMove, step-Advances, cursor-fresh, fresh-IsOrderly,
}
use airway_im_plugin.Emitter.{Delivery, has_listener, listeners_of, on, off}
use airway_im_plugin.Emitter.Calm.{IsCalm}
use airway_im_plugin.Emitter.Sets.{on-NoRepeat, off-NoRepeat}
use airway_im_plugin.Session.{AirwayIm, group, direct, Options, new, message_event, remember_kind}
use airway_im_plugin.Session.Steps.{
  Move, connects, disconnects, shown, sets_credential, socket, brought_to_rest, taken_by_rest,
  brought_to_gateway, begins, answers, refused, ons, offs, conversation_ons, conversation_offs,
  groups_listed, direct_came, group_created, details_came, opens, members_change, sends_to_group,
  message_sent, histories, forgets, change_members, send_to_group, after_send, on_gateway,
  connect_with, disconnect_with, set_credential, rest_brought, rest_taken, gateway_brought, step,
  run, gateway_step, engine_step, connect, disconnect, on_show, details_arrived, direct_arrived,
  group_arrived,
}
use airway_im_plugin.Session.Steps.Delivers.{outputs_told, on_outputs-Adds}
use airway_im_plugin.Session.Steps.Order.{
  IsFit, Goes, Same, Same-IsFit, Goes-then, Adds-Goes, stays, same-Goes, same-stays, engine-stays,
  told_of, keeps,
}
use airway_im_plugin.Session.Steps.Order.Callbacks.{report_error-Goes, callbacks-Goes}
use airway_im_plugin.Session.Steps.Order.Moves.{
  arrived-Same, remember_groups-Same, open_conversation-Same, conversation_off-Same, history-Goes,
  conversation_on-Goes,
}

-- The moves of a healthy history: history() begins where the tracker stands, nothing is forgotten, no
-- fetch is refused a page, and each page has messages of the conversation asked for, in order above
-- the sequence asked for. What the other answers are, and what the gateway brings, is free.
abbrev pub IsGood : AirwayIm → Move → Type 0
IsGood s (histories id o) = o.from_sequence ≡ none
IsGood s (forgets id) = ⊥
IsGood s (answers i reply) =
    IsGoodAt (get_elem? s.sync.chains i) reply × AnswersOf (get_elem? s.sync.chains i) reply
IsGood s _ = Unit

module _ (throws : List Delivery → Delivery → Bool) (fuel : ℕ) (cast : Json → GatewayEvent) where
  abbrev pub GoesOn : (AirwayIm → Type 0) → Option AirwayIm → Type 0
  GoesOn next none = Unit
  GoesOn next (some s) = next s

  abbrev pub AllGood : List Move → AirwayIm → Type 0
  AllGood [] s = Unit
  AllGood (v ∷ vs) s = IsGood s v × GoesOn (AllGood vs) (step throws (suc (suc fuel)) cast v s)

module _ (throws : List Delivery → Delivery → Bool) (fuel : ℕ) (cast : Json → GatewayEvent)
    (calm : IsCalm throws) (conv : Text) (l : ℕ) where
  on_gateway-Goes :
      (g : Option GatewaySocket) (v : Gateway.Move) (s : AirwayIm)
      → IsFit s
      → Goes conv l s (on_gateway throws (suc (suc fuel)) cast g v s)
  unfolding on_gateway
  on_gateway-Goes none v s fit = keeps conv l s fit
  on_gateway-Goes (some g) v s fit =
      let (g', out) = Gateway.step v g in
      let s' = record s { gateway = some g'; effects = s.effects ++ out } in
      let same : Same s s' = record { log = refl; sync = refl; listeners = refl } in
      same-Goes conv l s s' _ same
        (callbacks-Goes throws fuel calm conv l cast out s' (Same-IsFit s s' same fit))

  gateway_step-Goes :
      (v : Gateway.Move) (s : AirwayIm)
      → IsFit s
      → Goes conv l s (gateway_step throws (suc (suc fuel)) cast v s)
  unfolding gateway_step
  gateway_step-Goes v s fit = on_gateway-Goes s.gateway v s fit

  -- What the engine put out at a step that keeps it orderly.
  engine_step-Goes :
      (v : Events.Move) (s : AirwayIm)
      → IsGoodMove s.sync v
      → AllBelong (Events.step v s.sync).1
      → IsFit s
      → Goes conv l s (engine_step throws (suc (suc fuel)) cast v s)
  unfolding engine_step
  engine_step-Goes v s g own fit =
      let (m, out) = Events.step v s.sync in
      let (orderly, far) = step-Advances v s.sync g fit.orderly in
      let s' = record s { sync = m } in
      let heard_all = outputs_told conv l s.listeners s.conversations fit.set out own in
      elim (Bool-cases (has_listener l (listeners_of message_event s.listeners))) [
        | inl p ↦
            Adds-Goes conv l s s' _ _ (emitted conv out) refl
              (record { orderly = orderly; set = fit.set }) (heard_all ∙ rw p refl) (far conv).rises
              (far conv).reaches (on_outputs-Adds throws fuel calm out s')
        | inr p ↦
            Adds-Goes conv l s s' _ _ [] refl (record { orderly = orderly; set = fit.set })
              (heard_all ∙ rw p refl) tt
              (omega (
                arith,
                last_of-ge (cursor conv s.sync) (emitted conv out) (far conv).rises,
                (far conv).reaches,
              ))
              (on_outputs-Adds throws fuel calm out s')
      ]

  connect_with-Goes :
      (g : Option GatewaySocket) (made : Option ℕ) (s : AirwayIm)
      → IsFit s
      → Goes conv l s (connect_with throws (suc (suc fuel)) cast g made s)
  unfolding connect_with
  connect_with-Goes none made s fit = report_error-Goes throws fuel calm conv l s fit
  connect_with-Goes (some g) made s fit =
      let s' = record s { want_connected = true } in
      let same : Same s s' = record { log = refl; sync = refl; listeners = refl } in
      same-Goes conv l s s' _ same
        (gateway_step-Goes (Gateway.connects made) s' (Same-IsFit s s' same fit))

  disconnect_with-Goes :
      (g : Option GatewaySocket) (s : AirwayIm)
      → IsFit s
      → Goes conv l s (disconnect_with throws (suc (suc fuel)) cast g s)
  unfolding disconnect_with
  disconnect_with-Goes none s fit =
      same-stays conv l s (record s { want_connected = false })
        (record { log = refl; sync = refl; listeners = refl }) fit
  disconnect_with-Goes (some g) s fit =
      let s' = record s { want_connected = false } in
      let same : Same s s' = record { log = refl; sync = refl; listeners = refl } in
      Goes-then conv l s (gateway_step throws (suc (suc fuel)) cast Gateway.closes_by_user s')
        (λ t. some (record t { status = closed }))
        (same-Goes conv l s s' _ same
          (gateway_step-Goes Gateway.closes_by_user s' (Same-IsFit s s' same fit)))
        (λ t q fit'.
          same-stays conv l t (record t { status = closed })
            (record { log = refl; sync = refl; listeners = refl }) fit')

  step-Goes :
      (v : Move) (s : AirwayIm)
      → IsGood s v
      → IsFit s
      → Goes conv l s (step throws (suc (suc fuel)) cast v s)
  unfolding change_members send_to_group after_send step connect disconnect on_show set_credential
      rest_brought rest_taken gateway_brought direct_arrived group_arrived details_arrived
      remember_kind Events.step
  step-Goes (connects made) s g fit = connect_with-Goes s.gateway made s fit
  step-Goes disconnects s g fit = disconnect_with-Goes s.gateway s fit
  step-Goes (shown made) s g fit =
      if_cases (λ o. Goes conv l s o) s.want_connected _ _
        (λ p. gateway_step-Goes (Gateway.connects made) s fit) (λ p. keeps conv l s fit)
  step-Goes (sets_credential c) s g fit =
      same-stays conv l s (set_credential c s)
        (record { log = refl; sync = refl; listeners = refl }) fit
  step-Goes (socket v) s g fit = gateway_step-Goes v s fit
  step-Goes (brought_to_rest fresh) s g fit =
      same-stays conv l s (rest_brought fresh s)
        (record { log = refl; sync = refl; listeners = refl }) fit
  step-Goes (taken_by_rest fresh) s g fit =
      same-stays conv l s (rest_taken fresh s)
        (record { log = refl; sync = refl; listeners = refl }) fit
  step-Goes (brought_to_gateway fresh) s g fit =
      same-stays conv l s (gateway_brought fresh s)
        (record { log = refl; sync = refl; listeners = refl }) fit
  step-Goes (begins i) s g fit =
      engine_step-Goes (Events.begins i) s tt (starts-AllBelong i s.sync) fit
  step-Goes (answers i reply) s g fit =
      engine_step-Goes (Events.answers i reply) s g.0 (replies-AllBelong i reply s.sync g.1) fit
  step-Goes refused s g fit = report_error-Goes throws fuel calm conv l s fit
  step-Goes (ons event k) s g fit =
      stays conv l s (record s { listeners = on event k s.listeners }) refl
        (record {
          orderly = fit.orderly;
          set = on-NoRepeat event message_event k s.listeners fit.set;
        })
        (omega arith)
  step-Goes (offs event k) s g fit =
      stays conv l s (record s { listeners = off event k s.listeners }) refl
        (record {
          orderly = fit.orderly;
          set = off-NoRepeat event message_event k s.listeners fit.set;
        })
        (omega arith)
  step-Goes (conversation_ons id event k) s g fit = conversation_on-Goes conv l id event k s fit
  step-Goes (conversation_offs id event k) s g fit =
      same-stays conv l s _ (conversation_off-Same id event k s) fit
  step-Goes (groups_listed cs) s g fit = same-stays conv l s _ (remember_groups-Same cs s) fit
  step-Goes (direct_came id) s g fit =
      same-stays conv l s _ (arrived-Same id id direct direct none s) fit
  step-Goes (group_created c) s g fit =
      same-stays conv l s _ (arrived-Same c.id c.id group group c.title s) fit
  step-Goes (details_came id uuid kind) s g fit =
      same-stays conv l s _ (arrived-Same uuid id kind kind none s) fit
  step-Goes (opens id) s g fit = same-stays conv l s _ (open_conversation-Same id s) fit
  step-Goes (members_change id) s g fit =
      same-stays conv l s (record s { conversation_kinds = Dict.put id group s.conversation_kinds })
        (record { log = refl; sync = refl; listeners = refl }) fit
  step-Goes (sends_to_group id) s g fit =
      same-stays conv l s (record s { conversation_kinds = Dict.put id group s.conversation_kinds })
        (record { log = refl; sync = refl; listeners = refl }) fit
  step-Goes (message_sent id seq) s g fit =
      engine-stays conv l (Events.sent id seq) s (tracks id seq s.sync) tt refl fit
  step-Goes (histories id o) s g fit = history-Goes conv l id o s g fit
  step-Goes (forgets id) s g fit = absurd g

  run-Goes :
      (vs : List Move) (s : AirwayIm)
      → AllGood throws fuel cast vs s
      → IsFit s
      → Goes conv l s (run throws (suc (suc fuel)) cast vs s)
  unfolding run
  run-Goes [] s g fit = keeps conv l s fit
  run-Goes (v ∷ vs) s g fit =
      Goes-then conv l s (step throws (suc (suc fuel)) cast v s)
        (run throws (suc (suc fuel)) cast vs) (step-Goes v s g.0 fit)
        (λ s' e fit'. run-Goes vs s' (rw e at g.1) fit')

new-IsFit : (o : Options) → IsFit (new o)
unfolding new fresh listeners_of Dict.get
new-IsFit o = record { orderly = fresh-IsOrderly (new o).sync.engine; set = tt }

-- From a new session, over any history of its methods, the gateway's callbacks, the engine's tasks
-- and the server's answers, in which the "error" listeners do not throw, history() begins where the
-- tracker stands, nothing is forgotten, no fetch is refused a page, and each page has messages of the
-- conversation asked for in order above the sequence asked for: the history comes to its end, and the
-- messages of a conversation that a listener of the session's "message" was called with have strictly
-- rising sequences, all above the sequence that the storage held. So no listener is told a message
-- twice, or out of order, also where it comes and goes.
pub delivered_in_order :
    (throws : List Delivery → Delivery → Bool) (fuel : ℕ) (cast : Json → GatewayEvent) (o : Options)
    (vs : List Move) (conv : Text) (l : ℕ)
    → IsCalm throws
    → AllGood throws fuel cast vs (new o)
    → (s : AirwayIm) × (run throws (suc (suc fuel)) cast vs (new o) ≡ some s)
      × Ascending (last_sequence conv (new o).sync.engine) (told_of conv l s.log)
unfolding new fresh
delivered_in_order throws fuel cast o vs conv l calm g =
    let r = run-Goes throws fuel cast calm conv l vs (new o) g (new-IsFit o) in
    (r.after, r.comes, rw (r.logs) (rw (cursor-fresh conv (new o).sync.engine) at r.rises))
