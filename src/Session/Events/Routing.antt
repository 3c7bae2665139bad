-- ===== src/Session/Events/Routing.antt =====
-- Where a gateway event goes: to the raw "event" listeners, to the engine, or to the registry of kinds
-- and the listeners of member changes.
use airway_im_plugin.Base.{
  ℕ, suc, ◌≡◌, refl, ◌∙◌, ap, Bool, false, Option, none, some, List, [], ◌∷◌, ◌++◌, if◌then◌else◌,
  Bool-cases, inl, inr, append_assoc,
}
use airway_im_plugin.Text.{Text, text, text_eq}
use airway_im_plugin.Dict
use airway_im_plugin.Dict.{Dict}
use airway_im_plugin.Sync.{GatewayEvent}
use airway_im_plugin.Sync.Queue.{Machine}
use airway_im_plugin.Sync.Events.{handle_message_event, handle_message_moderated_event}
use airway_im_plugin.Emitter.{
  Delivery, Listeners, frame, members_added, member_removed, error_event,
}
use airway_im_plugin.Emitter.Calm.{IsCalm, heard, heard-append}
use airway_im_plugin.Session.{AirwayIm, Conversation, Kind, group, remember_kind}
use airway_im_plugin.Session.Calm.{
  Word, Adds, Adds-nothing, silence, both_words, session_word, both_word, logged, emitting-Adds,
  emit_both-Adds,
}
use airway_im_plugin.Session.Events.{
  handle_event, dispatch, announce_added, announce_removed, some_added,
}

abbrev pub is_created : GatewayEvent → Bool
is_created ev = text_eq ev.event (text "message.created")

abbrev pub is_moderated : GatewayEvent → Bool
is_moderated ev = text_eq ev.event (text "message.moderated")

abbrev pub is_added : GatewayEvent → Bool
is_added ev = text_eq ev.event (text "conversation.member_added")

abbrev pub is_removed : GatewayEvent → Bool
is_removed ev = text_eq ev.event (text "conversation.member_removed")

-- What the listeners are told of the users added and of the user removed, if any.
abbrev pub added_word : Listeners → Dict Conversation → GatewayEvent → Option (List Text) → Word
added_word ls cs ev none = silence
added_word ls cs ev (some []) = silence
added_word ls cs ev (some (u ∷ us)) =
    both_word ls cs ev.conversation_id (text "members.added")
      (members_added ev.conversation_id (u ∷ us) ev)

abbrev pub removed_word : Listeners → Dict Conversation → GatewayEvent → Option Text → Word
removed_word ls cs ev none = silence
removed_word ls cs ev (some u) =
    both_word ls cs ev.conversation_id (text "members.removed")
      (member_removed ev.conversation_id u ev)

-- What an event tells besides the raw "event".
abbrev pub news_word : Listeners → Dict Conversation → GatewayEvent → Word
news_word ls cs ev t event l =
    if is_created ev
    then []
    else if is_moderated ev
    then []
    else if is_added ev
    then added_word ls cs ev ev.added_user_uuids t event l
    else if is_removed ev
    then removed_word ls cs ev ev.removed_user_uuid t event l
    else []

-- What an event does to the engine, and to the registry of kinds.
abbrev pub engine_after : GatewayEvent → Machine → Machine
engine_after ev m =
    if is_created ev
    then handle_message_event ev m
    else if is_moderated ev
    then handle_message_moderated_event ev m
    else m

abbrev pub kinds_after : GatewayEvent → Dict Kind → Dict Kind
kinds_after ev kinds =
    if is_created ev
    then kinds
    else if is_moderated ev
    then kinds
    else if is_added ev
    then Dict.put ev.conversation_id group kinds
    else if is_removed ev
    then Dict.put ev.conversation_id group kinds
    else kinds

-- The state that an event leaves, but for the log.
abbrev pub routed : GatewayEvent → AirwayIm → AirwayIm
routed ev s = record s {
  sync = engine_after ev s.sync;
  conversation_kinds = kinds_after ev s.conversation_kinds;
}

module _ (throws : List Delivery → Delivery → Bool) (fuel : ℕ) (calm : IsCalm throws) where
  announce_added-Adds :
      (o : Option (List Text)) (ev : GatewayEvent) (s : AirwayIm)
      → Adds s
          (added_word s.listeners s.conversations ev o)
          (announce_added throws (suc (suc fuel)) (some_added o) ev s)
  unfolding announce_added some_added
  announce_added-Adds none ev s = Adds-nothing s
  announce_added-Adds (some []) ev s = Adds-nothing s
  announce_added-Adds (some (u ∷ us)) ev s = emit_both-Adds throws fuel calm _ _ _ s

  announce_removed-Adds :
      (o : Option Text) (ev : GatewayEvent) (s : AirwayIm)
      → Adds s
          (removed_word s.listeners s.conversations ev o)
          (announce_removed throws (suc (suc fuel)) o ev s)
  unfolding announce_removed
  announce_removed-Adds none ev s = Adds-nothing s
  announce_removed-Adds (some u) ev s = emit_both-Adds throws fuel calm _ _ _ s

  dispatch-Adds :
      (ev : GatewayEvent) (s : AirwayIm)
      → Adds
          (routed ev s)
          (news_word s.listeners s.conversations ev)
          (dispatch throws (suc (suc fuel)) ev s)
  unfolding remember_kind dispatch
  dispatch-Adds ev s = elim (Bool-cases (is_created ev)) [
    | inl p ↦ rw (p, dispatch) (Adds-nothing (record s { sync = handle_message_event ev s.sync }))
    | inr p ↦ elim (Bool-cases (is_moderated ev)) [
      | inl q ↦
          rw (p, q, dispatch)
            (Adds-nothing (record s { sync = handle_message_moderated_event ev s.sync }))
      | inr q ↦ elim (Bool-cases (is_added ev)) [
        | inl r ↦
            rw (p, q, r, dispatch)
              (announce_added-Adds ev.added_user_uuids ev
                (remember_kind ev.conversation_id group s))
        | inr r ↦ elim (Bool-cases (is_removed ev)) [
          | inl t ↦
              rw (p, q, r, t, dispatch)
                (announce_removed-Adds ev.removed_user_uuid ev
                  (remember_kind ev.conversation_id group s))
          | inr t ↦ rw (p, q, r, t, dispatch) (Adds-nothing s)
        ]
      ]
    ]
  ]

  pub handle_event-Adds :
      (ev : GatewayEvent) (s : AirwayIm)
      → Adds
          (routed ev s)
          (both_words
            (session_word s.listeners (text "event") (frame ev))
            (news_word s.listeners s.conversations ev))
          (handle_event throws (suc (suc fuel)) ev s)
  unfolding handle_event
  handle_event-Adds ev s =
      let (new, e, h) = emitting-Adds throws fuel calm (text "event") (frame ev) s in
      let (more, e', h') = dispatch-Adds ev (logged s new) in
      (
        new ++ more,
        rw e (
            e'
            ∙ ap (λ (log : List Delivery). some (record (routed ev s) { log = log }))
                (append_assoc s.log new more)),
        λ t event l ne. heard-append t event l new more ∙ rw (h t event l ne, h' t event l ne) refl,
      )

-- Where the "error" listeners do not throw, the session takes every gateway event to its end. A
-- "message.created" goes to the engine's handler for it and a "message.moderated" to the other; a
-- change of members makes the conversation a group in the registry of kinds; nothing else of the
-- session changes, but for the log. Each listener of "event" is told the event once for each time
-- that it is registered, then the listeners of "members.added" or "members.removed", of the session
-- and of the conversation's object, where users were added or one was removed, and no others.
pub handle_event-Routes :
    (throws : List Delivery → Delivery → Bool) (fuel : ℕ) (ev : GatewayEvent) (s : AirwayIm)
    (t : Option Text) (event : Text) (l : ℕ)
    → IsCalm throws
    → text_eq error_event event ≡ false
    → (new : List Delivery) × (handle_event throws (suc (suc fuel)) ev s
        ≡ some (logged (routed ev s) new))
      × (heard t event l new
          ≡ session_word s.listeners (text "event") (frame ev) t event l
            ++ news_word s.listeners s.conversations ev t event l)
handle_event-Routes throws fuel ev s t event l calm ne =
    let (new, e, h) = handle_event-Adds throws fuel calm ev s in (new, e, h t event l ne)
