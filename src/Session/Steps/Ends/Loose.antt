-- ===== src/Session/Steps/Ends/Loose.antt =====
-- The methods that keep to the registry, the listeners and the engine.
use airway_im_plugin.Base.{
  ℕ, ◌≡◌, Bool, ◌&&◌, Option, none, some, List, [], ◌∷◌, if_cases, Option-cases, inl, inr,
}
use airway_im_plugin.Text.{Text, text_eq}
use airway_im_plugin.Dict
use airway_im_plugin.Dict.{Dict}
use airway_im_plugin.Sync.{is_tracked}
use airway_im_plugin.Emitter.{Listeners, listeners_of}
use airway_im_plugin.Session.{
  AirwayIm, Conversation, Kind, group, conversation_for, made_conversation, remember_kind,
  message_event,
}
use airway_im_plugin.Session.Steps.{
  ConversationInfo, history, ensure_tracked, open_known, is_empty, set_listeners, conversation_on,
  conversation_off, remember_groups, open_conversation,
}
use airway_im_plugin.Session.Steps.Ends.{IsFree}

-- What the methods change besides may be anything as well.
pub record IsLoose (P : AirwayIm → Type 0) : Type 0 where
  pub free : IsFree P
  pub opened :
      (id : Text) (kind : Kind) (title : Option Text) (s : AirwayIm)
      → Dict.get id s.conversations ≡ none
      → P s
      → P (record s {
        conversations = Dict.put id (made_conversation id kind title) s.conversations;
      })
  pub heeded :
      (id : Text) (c : Conversation) (ls : Listeners) (s : AirwayIm)
      → Dict.get id s.conversations ≡ some c
      → P s
      → P (record s { conversations = Dict.put id (record c { listeners = ls }) s.conversations })
  pub listeners : (s : AirwayIm) (ls : Listeners) → P s → P (record s { listeners = ls })
  pub wanted : (s : AirwayIm) (b : Bool) → P s → P (record s { want_connected = b })

module _ (P : AirwayIm → Type 0) (loose : IsLoose P) where
  conversation_for-keeps :
      (id : Text) (kind : Kind) (title : Option Text) (s : AirwayIm)
      → P s
      → P (conversation_for id kind title s).1
  unfolding conversation_for
  conversation_for-keeps id kind title s h = elim (Option-cases (Dict.get id s.conversations)) [
    | inl e ↦ rw (e, conversation_for) (loose.opened id kind title s e h)
    | inr (c, e) ↦ rw (e, conversation_for) h
  ]

  pub arrived-keeps :
      (key id : Text) (known kind : Kind) (title : Option Text) (s : AirwayIm)
      → P s
      → P (conversation_for id kind title (remember_kind key known s)).1
  unfolding remember_kind
  arrived-keeps key id known kind title s h =
      conversation_for-keeps id kind title (remember_kind key known s) (loose.free.kinds s _ h)

  pub remember_groups-keeps :
      (cs : List ConversationInfo) (s : AirwayIm) → P s → P (remember_groups cs s)
  unfolding remember_groups remember_kind
  remember_groups-keeps [] s h = h
  remember_groups-keeps (c ∷ cs) s h =
      remember_groups-keeps cs (remember_kind c.id group s) (loose.free.kinds s _ h)

  open_known-keeps : (k : Option Kind) (id : Text) (s : AirwayIm) → P s → P (open_known k id s)
  unfolding open_known
  open_known-keeps none id s h = h
  open_known-keeps (some kind) id s h = conversation_for-keeps id kind none s h

  pub open_conversation-keeps : (id : Text) (s : AirwayIm) → P s → P (open_conversation id s)
  unfolding open_conversation
  open_conversation-keeps id s h = elim (Option-cases (Dict.get id s.conversations)) [
    | inl e ↦ rw (e, open_conversation) (open_known-keeps (Dict.get id s.conversation_kinds) id s h)
    | inr (c, e) ↦ rw (e, open_conversation) h
  ]

  ensure_tracked-keeps : (id : Text) (s : AirwayIm) → P s → P (ensure_tracked id s)
  unfolding ensure_tracked history
  ensure_tracked-keeps id s h =
      if_cases P (is_tracked id s.sync.engine) _ _ (λ p. h) (λ p. loose.free.sync s _ h)

  pub conversation_on-keeps :
      (id event : Text) (k : ℕ) (s : AirwayIm) → P s → P (conversation_on id event k s)
  unfolding conversation_on set_listeners
  conversation_on-keeps id event k s h = elim (Option-cases (Dict.get id s.conversations)) [
    | inl e ↦ rw (e, conversation_on) h
    | inr (c, e) ↦
        rw (e, conversation_on)
          (if_cases P (is_empty (listeners_of event c.listeners) && text_eq event message_event) _ _
            (λ p. ensure_tracked-keeps c.id _ (loose.heeded id c _ s e h))
            (λ p. loose.heeded id c _ s e h))
  ]

  pub conversation_off-keeps :
      (id event : Text) (k : ℕ) (s : AirwayIm) → P s → P (conversation_off id event k s)
  unfolding conversation_off set_listeners
  conversation_off-keeps id event k s h = elim (Option-cases (Dict.get id s.conversations)) [
    | inl e ↦ rw (e, conversation_off) h
    | inr (c, e) ↦ rw (e, conversation_off) (loose.heeded id c _ s e h)
  ]
