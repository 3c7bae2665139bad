-- ===== src/Session/Steps/Delivers.antt =====
-- From the server to the listener: the messages of a conversation that a listener of the session is
-- called with, over a whole history of the session, its gateway and its engine.
use airway_im_plugin.Base.{
  ℕ, suc, ◌≡◌, refl, ◌∙◌, ap, Bool, true, false, Option, none, some, List, [], ◌∷◌, ◌++◌, arith,
  if◌then◌else◌, Bool-cases, inl, inr, append-nil,
}
use airway_im_plugin.Text.{Text, text, text_eq, text_eq_refl, text_eq_iff}
use mathlib.Core.Path.{subst}
use airway_im_plugin.Dict
use airway_im_plugin.Dict.{Dict}
use airway_im_plugin.Sync.{ChatMessage}
use airway_im_plugin.Sync.Queue.{Output, request, messages, updated, resolved, reloaded, rejected}
use airway_im_plugin.Sync.Queue.Cursor.{emitted}
use airway_im_plugin.Sync.Queue.Belong.{AllBelong, AreOf}
use airway_im_plugin.Emitter.{
  Delivery, Listeners, Payload, message, frame, status, members_added, member_removed, raised,
  listeners_of, has_listener,
}
use airway_im_plugin.Emitter.Calm.{IsCalm, heard}
use airway_im_plugin.Emitter.Sets.{NoRepeat, told_once}
use airway_im_plugin.Session.{AirwayIm, Conversation, message_event, on_message_updated}
use airway_im_plugin.Session.Calm.{
  Word, Adds, Adds-then, Adds-nothing, silence, both_words, object_word, both_word, messages_word,
  logged, emit_both-Adds, on_messages-Adds,
}
use airway_im_plugin.Session.Events.{on_output, on_outputs}

-- The messages of a conversation among payloads.
abbrev pub of_conversation : Text → List Payload → List ChatMessage
of_conversation conv [] = []
of_conversation conv (message m ∷ ps) =
    if text_eq m.conversation_id conv then m ∷ of_conversation conv ps else of_conversation conv ps
of_conversation conv (frame _ ∷ ps) = of_conversation conv ps
of_conversation conv (status _ ∷ ps) = of_conversation conv ps
of_conversation conv (members_added _ _ _ ∷ ps) = of_conversation conv ps
of_conversation conv (member_removed _ _ _ ∷ ps) = of_conversation conv ps
of_conversation conv (raised ∷ ps) = of_conversation conv ps

pub of_conversation-append :
    (conv : Text) (ps qs : List Payload)
    → of_conversation conv (ps ++ qs) ≡ of_conversation conv ps ++ of_conversation conv qs
of_conversation-append conv [] qs = refl
of_conversation-append conv (message m ∷ ps) qs = ground (arith, of_conversation-append conv ps qs)
of_conversation-append conv (frame _ ∷ ps) qs = of_conversation-append conv ps qs
of_conversation-append conv (status _ ∷ ps) qs = of_conversation-append conv ps qs
of_conversation-append conv (members_added _ _ _ ∷ ps) qs = of_conversation-append conv ps qs
of_conversation-append conv (member_removed _ _ _ ∷ ps) qs = of_conversation-append conv ps qs
of_conversation-append conv (raised ∷ ps) qs = of_conversation-append conv ps qs

-- What a word tells a listener of the session's "message".
abbrev pub tells : ℕ → Word → List Payload
tells l w = w none message_event l

pub object_silent :
    (c : Option Conversation) (event : Text) (p : Payload) (l : ℕ)
    → tells l (object_word c event p) ≡ []
object_silent none event p l = refl
object_silent (some c) event p l = refl

same_text : (a b : Text) → a ≡ b → text_eq a b ≡ true
same_text a b e = rw e (text_eq_refl b)

own_told :
    (conv : Text) (m : ChatMessage) (ms : List ChatMessage) (b : Bool)
    → text_eq m.conversation_id conv ≡ true
    → of_conversation conv (if b then message m ∷ [] else []) ++ (if b then ms else [])
      ≡ (if b then m ∷ ms else [])
own_told conv m ms true e = rw e refl
own_told conv m ms false e = refl

other_told :
    (conv : Text) (m : ChatMessage) (b : Bool)
    → text_eq m.conversation_id conv ≡ false
    → of_conversation conv (if b then message m ∷ [] else []) ++ [] ≡ []
other_told conv m true e = rw e refl
other_told conv m false e = refl

-- What the outputs of the engine tell.
abbrev pub outputs_word : Listeners → Dict Conversation → List Output → Word
outputs_word ls cs [] = silence
outputs_word ls cs (messages c ms ∷ os) =
    both_words (messages_word ms ls cs) (outputs_word ls cs os)
outputs_word ls cs (updated m ∷ os) =
    both_words (both_word ls cs m.conversation_id (text "message.updated") (message m))
      (outputs_word ls cs os)
outputs_word ls cs (request _ _ _ ∷ os) = both_words silence (outputs_word ls cs os)
outputs_word ls cs (resolved _ ∷ os) = both_words silence (outputs_word ls cs os)
outputs_word ls cs (reloaded _ ∷ os) = both_words silence (outputs_word ls cs os)
outputs_word ls cs (rejected ∷ os) = both_words silence (outputs_word ls cs os)

both_told :
    (b : Bool) (ms ns : List ChatMessage)
    → (if b then ms else []) ++ (if b then ns else []) ≡ (if b then ms ++ ns else [])
both_told true ms ns = refl
both_told false ms ns = refl

module _ (conv : Text) (l : ℕ) (ls : Listeners) (cs : Dict Conversation)
    (set : NoRepeat (listeners_of message_event ls)) where
  abbrev pub hears : Bool
  hears = has_listener l (listeners_of message_event ls)

  message_told :
      (id : Text) (m : ChatMessage)
      → tells l (both_word ls cs id message_event (message m))
        ≡ (if hears then message m ∷ [] else [])
  unfolding text_eq
  message_told id m =
      rw
        (
          object_silent (Dict.get id cs) message_event (message m) l,
          told_once l (message m) (listeners_of message_event ls) set,
        )
        (append-nil _)

  page_told :
      (ms : List ChatMessage)
      → AreOf conv ms
      → of_conversation conv (tells l (messages_word ms ls cs)) ≡ (if hears then ms else [])
  page_told [] h = ground arith
  page_told (m ∷ ms) h =
      of_conversation-append conv
        (tells l (both_word ls cs m.conversation_id message_event (message m))) _
      ∙ rw (message_told m.conversation_id m, page_told ms h.1)
          (own_told conv m ms hears (same_text m.conversation_id conv h.0))

  other_page :
      (c : Text) (ms : List ChatMessage)
      → AreOf c ms
      → text_eq c conv ≡ false
      → of_conversation conv (tells l (messages_word ms ls cs)) ≡ []
  other_page c [] h ne = refl
  other_page c (m ∷ ms) h ne =
      of_conversation-append conv
        (tells l (both_word ls cs m.conversation_id message_event (message m))) _
      ∙ rw (message_told m.conversation_id m, other_page c ms h.1 ne)
          (other_told conv m hears (ap (λ (t : Text). text_eq t conv) h.0 ∙ ne))

  pub outputs_told :
      (os : List Output)
      → AllBelong os
      → of_conversation conv (tells l (outputs_word ls cs os))
        ≡ (if hears then emitted conv os else [])
  unfolding text_eq
  outputs_told [] h = ground arith
  outputs_told (request _ _ _ ∷ os) h = outputs_told os h
  outputs_told (resolved _ ∷ os) h = outputs_told os h
  outputs_told (reloaded _ ∷ os) h = outputs_told os h
  outputs_told (rejected ∷ os) h = outputs_told os h
  outputs_told (updated m ∷ os) h =
      rw (object_silent (Dict.get m.conversation_id cs) (text "message.updated") (message m) l)
        (outputs_told os h)
  outputs_told (messages c ms ∷ os) h =
      of_conversation-append conv (tells l (messages_word ms ls cs)) _
      ∙ elim (Bool-cases (text_eq c conv)) [
        | inl q ↦
            let own = subst (λ d. AreOf d ms) ((text_eq_iff c conv).0 q) h.0 in
            rw (page_told ms own, outputs_told os h.1, q) (both_told hears ms (emitted conv os))
        | inr q ↦ rw (other_page c ms h.0 q, outputs_told os h.1, q) refl
      ]

module _ (throws : List Delivery → Delivery → Bool) (fuel : ℕ) (calm : IsCalm throws) where
  pub on_outputs-Adds :
      (os : List Output) (s : AirwayIm)
      → Adds s
          (outputs_word s.listeners s.conversations os)
          (on_outputs throws (suc (suc fuel)) os s)
  unfolding on_outputs on_output on_message_updated
  on_outputs-Adds [] s = Adds-nothing s
  on_outputs-Adds (messages c ms ∷ os) s =
      Adds-then s _ _ _ _ (on_messages-Adds throws fuel calm ms s)
        (λ new. on_outputs-Adds os (logged s new))
  on_outputs-Adds (updated m ∷ os) s =
      Adds-then s _ _ _ _
        (emit_both-Adds throws fuel calm m.conversation_id (text "message.updated") (message m) s)
        (λ new. on_outputs-Adds os (logged s new))
  on_outputs-Adds (request _ _ _ ∷ os) s =
      Adds-then s _ _ _ (on_outputs throws (suc (suc fuel)) os) (Adds-nothing s)
        (λ new. on_outputs-Adds os (logged s new))
  on_outputs-Adds (resolved _ ∷ os) s =
      Adds-then s _ _ _ (on_outputs throws (suc (suc fuel)) os) (Adds-nothing s)
        (λ new. on_outputs-Adds os (logged s new))
  on_outputs-Adds (reloaded _ ∷ os) s =
      Adds-then s _ _ _ (on_outputs throws (suc (suc fuel)) os) (Adds-nothing s)
        (λ new. on_outputs-Adds os (logged s new))
  on_outputs-Adds (rejected ∷ os) s =
      Adds-then s _ _ _ (on_outputs throws (suc (suc fuel)) os) (Adds-nothing s)
        (λ new. on_outputs-Adds os (logged s new))

-- Where the "error" listeners do not throw, the session's "message" listeners stand once each, and
-- the engine calls onMessages for a conversation with messages of that conversation only, the session
-- takes what the engine puts out to its end, and changes nothing but the log. A listener of "message"
-- is then told exactly the messages of a conversation that the engine emitted of it, in their order,
-- if it is registered, and none if it is not.
pub on_outputs_tells :
    (throws : List Delivery → Delivery → Bool) (fuel : ℕ) (os : List Output) (s : AirwayIm)
    (conv : Text) (l : ℕ)
    → IsCalm throws
    → NoRepeat (listeners_of message_event s.listeners)
    → AllBelong os
    → (new : List Delivery) × (on_outputs throws (suc (suc fuel)) os s ≡ some (logged s new))
      × (of_conversation conv (heard none message_event l new) ≡ (
          if has_listener l (listeners_of message_event s.listeners) then emitted conv os else []))
unfolding text_eq
on_outputs_tells throws fuel os s conv l calm set own =
    let (new, e, h) = on_outputs-Adds throws fuel calm os s in
    (
      new,
      e,
      ap (of_conversation conv) (h none message_event l refl)
          ∙ outputs_told conv l s.listeners s.conversations set os own,
    )
