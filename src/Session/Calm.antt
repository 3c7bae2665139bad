-- ===== src/Session/Calm.antt =====
-- What the session's emitters add to the log where the "error" listeners do not throw.
use airway_im_plugin.Base.{
  ℕ, suc, ◌≡◌, refl, sym, ◌∙◌, ap, Bool, false, ◌&&◌, Option, none, some, List, [], ◌∷◌, ◌++◌,
  append_assoc, append-nil, if◌then◌else◌,
}
use airway_im_plugin.Text.{Text, text_eq}
use airway_im_plugin.Dict
use airway_im_plugin.Dict.{Dict}
use airway_im_plugin.Sync.{ChatMessage}
use airway_im_plugin.Emitter.{
  Payload, Listeners, Delivery, message, raised, then_call, error_event, emit, emit_local,
  listeners_of,
}
use airway_im_plugin.Emitter.Calm.{
  IsCalm, heard, heard-append, told, same_target, call_each-Calls, emit-IsQuiet,
}
use airway_im_plugin.Session.{
  AirwayIm, Conversation, with_log, emitting, emitting_at, emitting_local, emit_both, on_messages,
  message_event,
}

-- What a listener is told, by its target, its event and its number.
abbrev pub Word : Type 0
Word = Option Text → Text → ℕ → List Payload

abbrev pub logged : AirwayIm → List Delivery → AirwayIm
logged s new = record s { log = s.log ++ new }

-- The outcome is `s` with calls added to its log, which tell the listeners of all events but "error"
-- what `w` says.
abbrev pub Adds : AirwayIm → Word → Option AirwayIm → Type 0
Adds s w out =
    (new : List Delivery) × (out ≡ some (logged s new))
    × ((t : Option Text) (event : Text) (l : ℕ)
        → text_eq error_event event ≡ false
        → heard t event l new ≡ w t event l)

abbrev pub silence : Word
silence t event l = []

abbrev pub both_words : Word → Word → Word
both_words v w t event l = v t event l ++ w t event l

-- What an emit of the session tells, and what emitLocal of a conversation object tells.
abbrev pub session_word : Listeners → Text → Payload → Word
session_word ls event p t event' l =
    if same_target none t && text_eq event event' then told l p (listeners_of event ls) else []

abbrev pub object_word : Option Conversation → Text → Payload → Word
object_word none event p t event' l = []
object_word (some c) event p t event' l =
    if same_target (some c.id) t && text_eq event event'
    then told l p (listeners_of event c.listeners)
    else []

abbrev pub both_word : Listeners → Dict Conversation → Text → Text → Payload → Word
both_word ls cs id event p =
    both_words (session_word ls event p) (object_word (Dict.get id cs) event p)

pub Adds-then :
    (s : AirwayIm) (v w : Word) (out : Option AirwayIm) (f : AirwayIm → Option AirwayIm)
    → Adds s v out
    → ((new : List Delivery) → Adds (logged s new) w (f (logged s new)))
    → Adds s (both_words v w) (then_call out f)
Adds-then s v w out f (new, e, h) k =
    let (more, e', h') = k new in
    (
      new ++ more,
      rw e (
          e'
          ∙ ap (λ (l : List Delivery). some (record s { log = l })) (append_assoc s.log new more)),
      λ t event l ne. heard-append t event l new more ∙ rw (h t event l ne, h' t event l ne) refl,
    )

pub Adds-nothing : (s : AirwayIm) → Adds s silence (some s)
Adds-nothing s = (
  [],
  ap (λ (l : List Delivery). some (record s { log = l })) (sym (append-nil s.log)),
  λ t event l ne. refl,
)

-- What the messages of a page tell.
abbrev pub messages_word : List ChatMessage → Listeners → Dict Conversation → Word
messages_word [] ls cs = silence
messages_word (m ∷ ms) ls cs =
    both_words (both_word ls cs m.conversation_id message_event (message m))
      (messages_word ms ls cs)

module _ (throws : List Delivery → Delivery → Bool) (fuel : ℕ) (calm : IsCalm throws) where
  pub emitting-Adds :
      (event : Text) (p : Payload) (s : AirwayIm)
      → Adds s (session_word s.listeners event p) (emitting throws (suc (suc fuel)) event p s)
  unfolding emitting emit
  emitting-Adds event p s =
      let (new, e, h) =
        call_each-Calls throws (emit throws (suc fuel) s.listeners error_event raised) none event p
          (listeners_of event s.listeners) s.log (emit-IsQuiet throws fuel s.listeners calm) in
      (new, ap (with_log s) e, h)

  emitting_at-Adds :
      (c : Option Conversation) (event : Text) (p : Payload) (s : AirwayIm)
      → Adds s (object_word c event p) (emitting_at throws (suc (suc fuel)) c event p s)
  unfolding emitting_at emit_local
  emitting_at-Adds none event p s = Adds-nothing s
  emitting_at-Adds (some c) event p s =
      let (new, e, h) =
        call_each-Calls throws (emit throws (suc (suc fuel)) s.listeners error_event raised)
          (some c.id) event p (listeners_of event c.listeners) s.log
          (emit-IsQuiet throws (suc fuel) s.listeners calm) in
      (new, ap (with_log s) e, h)

  pub emit_both-Adds :
      (id event : Text) (p : Payload) (s : AirwayIm)
      → Adds s
          (both_word s.listeners s.conversations id event p)
          (emit_both throws (suc (suc fuel)) id event p s)
  unfolding emit_both emitting_local
  emit_both-Adds id event p s =
      Adds-then s _ _ _ _ (emitting-Adds event p s)
        (λ new. emitting_at-Adds (Dict.get id s.conversations) event p (logged s new))

  pub on_messages-Adds :
      (ms : List ChatMessage) (s : AirwayIm)
      → Adds s
          (messages_word ms s.listeners s.conversations)
          (on_messages throws (suc (suc fuel)) ms s)
  unfolding on_messages
  on_messages-Adds [] s = Adds-nothing s
  on_messages-Adds (m ∷ ms) s =
      Adds-then s _ _ _ _ (emit_both-Adds m.conversation_id message_event (message m) s)
        (λ new. on_messages-Adds ms (logged s new))
