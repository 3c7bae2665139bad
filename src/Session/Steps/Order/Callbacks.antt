-- ===== src/Session/Steps/Order/Callbacks.antt =====
-- The callbacks of the session keep the order: those of the gateway tell no message, and those of the
-- engine tell what it emits.
use airway_im_plugin.Base.{
  ℕ, suc, ◌≡◌, refl, ap, Bool, Option, none, some, List, [], ◌∷◌, arith, if◌then◌else◌, Bool-cases,
  inl, inr,
}
use airway_im_plugin.Base.Int.{◌≤ℤ◌}
use airway_im_plugin.Text.{Text, text, text_eq}
use airway_im_plugin.Json.{Json}
use airway_im_plugin.Dict
use airway_im_plugin.Dict.{Dict}
use airway_im_plugin.Gateway
use airway_im_plugin.Sync.{GatewayEvent}
use airway_im_plugin.Sync.Queue.{Machine}
use airway_im_plugin.Sync.Events
use airway_im_plugin.Sync.Events.{handle_message_event, handle_message_moderated_event, resync_all}
use airway_im_plugin.Sync.Events.Cursor.{cursor, IsOrderly}
use airway_im_plugin.Sync.Events.Cursor.Once.{step-Advances}
use airway_im_plugin.Emitter.{
  Delivery, Listeners, Payload, error_event, frame, status, raised, members_added, member_removed,
}
use airway_im_plugin.Emitter.Calm.{IsCalm}
use airway_im_plugin.Session.{AirwayIm, Conversation, emitting}
use airway_im_plugin.Session.Calm.{session_word, both_words, emitting-Adds}
use airway_im_plugin.Session.Events.{callback, callbacks, report_error, handle_event}
use airway_im_plugin.Session.Events.Routing.{
  routed, engine_after, news_word, added_word, removed_word, is_created, is_moderated, is_added,
  is_removed, handle_event-Adds,
}
use airway_im_plugin.Session.Steps.Delivers.{of_conversation, tells, object_silent}
use airway_im_plugin.Session.Steps.Order.{
  IsFit, Goes, Same, Goes-then, Adds-Goes, same-Goes, same-stays, engine-stays,
}

if_silent : (b : Bool) (x y : List Payload) → x ≡ [] → y ≡ [] → (if b then x else y) ≡ []
if_silent b x y p q = ground arith

module _ (l : ℕ) (ls : Listeners) (cs : Dict Conversation) (ev : GatewayEvent) where
  added_silent : (o : Option (List Text)) → tells l (added_word ls cs ev o) ≡ []
  unfolding text_eq
  added_silent none = refl
  added_silent (some []) = refl
  added_silent (some (u ∷ us)) =
      object_silent (Dict.get ev.conversation_id cs) (text "members.added")
        (members_added ev.conversation_id (u ∷ us) ev) l

  removed_silent : (o : Option Text) → tells l (removed_word ls cs ev o) ≡ []
  unfolding text_eq
  removed_silent none = refl
  removed_silent (some u) =
      object_silent (Dict.get ev.conversation_id cs) (text "members.removed")
        (member_removed ev.conversation_id u ev) l

  news_silent : tells l (news_word ls cs ev) ≡ []
  news_silent = if_silent (is_created ev) _ _ refl (
      if_silent (is_moderated ev) _ _ refl (
        if_silent (is_added ev) _ _ (added_silent ev.added_user_uuids)
          (if_silent (is_removed ev) _ _ (removed_silent ev.removed_user_uuid) refl)))

  event_silent :
      tells l (both_words (session_word ls (text "event") (frame ev)) (news_word ls cs ev)) ≡ []
  unfolding text_eq
  event_silent = news_silent

-- What a gateway event leaves of the engine.
module _ (conv : Text) (ev : GatewayEvent) (m : Machine) (h : IsOrderly m) where
  abbrev Later : Machine → Type 0
  Later m' = IsOrderly m' × (cursor conv m ≤ℤ cursor conv m')

  created-Later : Later (handle_message_event ev m)
  unfolding Events.step
  created-Later = let (o, far) = step-Advances (Events.created ev) m tt h in (o, (far conv).reaches)

  moderated-Later : Later (handle_message_moderated_event ev m)
  unfolding Events.step
  moderated-Later =
      let (o, far) = step-Advances (Events.moderated ev) m tt h in (o, (far conv).reaches)

  engine_after-Later : Later (engine_after ev m)
  engine_after-Later = elim (Bool-cases (is_created ev)) [
    | inl p ↦ rw p created-Later
    | inr p ↦ elim (Bool-cases (is_moderated ev)) [
      | inl q ↦ rw (p, q) moderated-Later
      | inr q ↦ rw (p, q) (h, omega arith)
    ]
  ]

module _ (throws : List Delivery → Delivery → Bool) (fuel : ℕ) (calm : IsCalm throws) (conv : Text)
    (l : ℕ) where
  -- An emit of an event that is not "message".
  emitting-Goes :
      (event : Text) (p : Payload) (s s' : AirwayIm)
      → tells l (session_word s'.listeners event p) ≡ []
      → Same s s'
      → IsFit s'
      → Goes conv l s (emitting throws (suc (suc fuel)) event p s')
  emitting-Goes event p s s' e h fit = same-Goes conv l s s' _ h (
      Adds-Goes conv l s' s' _ _ [] refl fit (ap (of_conversation conv) e) tt (omega arith)
        (emitting-Adds throws fuel calm event p s'))

  pub report_error-Goes :
      (s : AirwayIm) → IsFit s → Goes conv l s (report_error throws (suc (suc fuel)) s)
  unfolding report_error text_eq
  report_error-Goes s fit =
      emitting-Goes error_event raised s s refl
        ((record { log = refl; sync = refl; listeners = refl })) fit

  handle_event-Goes :
      (ev : GatewayEvent) (s : AirwayIm)
      → IsFit s
      → Goes conv l s (handle_event throws (suc (suc fuel)) ev s)
  handle_event-Goes ev s fit =
      let (orderly, far) = engine_after-Later conv ev s.sync fit.orderly in
      Adds-Goes conv l s (routed ev s) _ _ [] refl (record { orderly = orderly; set = fit.set })
        (ap (of_conversation conv) (event_silent l s.listeners s.conversations ev)) tt far
        (handle_event-Adds throws fuel calm ev s)

  callback-Goes :
      (cast : Json → GatewayEvent) (x : Gateway.Effect) (s : AirwayIm)
      → IsFit s
      → Goes conv l s (callback throws (suc (suc fuel)) cast x s)
  unfolding callback text_eq
  callback-Goes cast (Gateway.status st) s fit =
      emitting-Goes (text "status") (status st) s (record s { status = st }) refl
        ((record { log = refl; sync = refl; listeners = refl }))
        (record { orderly = fit.orderly; set = fit.set })
  callback-Goes cast (Gateway.event f) s fit = handle_event-Goes (cast f) s fit
  callback-Goes cast Gateway.ready s fit =
      engine-stays conv l Events.resyncs s (resync_all s.sync) tt (unfold Events.step in refl) fit
  callback-Goes cast Gateway.auth_failed s fit = report_error-Goes s fit
  callback-Goes cast Gateway.refresh_failed s fit = report_error-Goes s fit
  callback-Goes cast (Gateway.opens _) s fit =
      same-stays conv l s s ((record { log = refl; sync = refl; listeners = refl })) fit
  callback-Goes cast (Gateway.sends _ _) s fit =
      same-stays conv l s s ((record { log = refl; sync = refl; listeners = refl })) fit
  callback-Goes cast (Gateway.closes _) s fit =
      same-stays conv l s s ((record { log = refl; sync = refl; listeners = refl })) fit
  callback-Goes cast (Gateway.sets_timeout _ _) s fit =
      same-stays conv l s s ((record { log = refl; sync = refl; listeners = refl })) fit
  callback-Goes cast (Gateway.sets_interval _ _) s fit =
      same-stays conv l s s ((record { log = refl; sync = refl; listeners = refl })) fit
  callback-Goes cast (Gateway.clears _) s fit =
      same-stays conv l s s ((record { log = refl; sync = refl; listeners = refl })) fit
  callback-Goes cast Gateway.asks_credential s fit =
      same-stays conv l s s ((record { log = refl; sync = refl; listeners = refl })) fit
  callback-Goes cast Gateway.throws s fit =
      same-stays conv l s s ((record { log = refl; sync = refl; listeners = refl })) fit

  pub callbacks-Goes :
      (cast : Json → GatewayEvent) (xs : List Gateway.Effect) (s : AirwayIm)
      → IsFit s
      → Goes conv l s (callbacks throws (suc (suc fuel)) cast xs s)
  unfolding callbacks
  callbacks-Goes cast [] s fit =
      same-stays conv l s s ((record { log = refl; sync = refl; listeners = refl })) fit
  callbacks-Goes cast (x ∷ xs) s fit =
      Goes-then conv l s (callback throws (suc (suc fuel)) cast x s)
        (callbacks throws (suc (suc fuel)) cast xs) (callback-Goes cast x s fit)
        (λ s' e fit'. callbacks-Goes cast xs s' fit')
