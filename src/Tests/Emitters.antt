-- ===== src/Tests/Emitters.antt =====
-- The emitters at concrete inputs.
use airway_im_plugin.Base.{
  ◌≡◌, refl, Bool, true, false, none, some, List, [], ◌∷◌, ◌==◌, if◌then◌else◌,
}
use airway_im_plugin.Text.{text, text_eq}
use airway_im_plugin.Dict
use airway_im_plugin.Emitter.{
  Payload, Delivery, Listeners, message, raised, error_event, listeners_of, has_listener, emit,
  call_each, call_listener, on, off, add_listener, delete_listener,
}
use airway_im_plugin.Emitter.Calm.{IsCalm, heard}
use airway_im_plugin.Emitter.Sets.{Op, ons, offs, apply, registered, emit-apply}
use airway_im_plugin.Emitter.Diverges.{AlwaysThrows, emit_diverges}
use airway_im_plugin.Tests.Fixtures

abbrev hello : Payload
hello = message (Fixtures.message (text "a") 1)

-- Listener 1 throws on everything but an error, the others do not.
abbrev moody : List Delivery → Delivery → Bool
moody log d = if text_eq d.event error_event then false else d.listener == 1

moody-IsCalm : IsCalm moody
unfolding text_eq
moody-IsCalm log d e = rw e refl

abbrev both : Listeners
both = (text "message", 1 ∷ 2 ∷ []) ∷ (error_event, 3 ∷ []) ∷ []

-- The error of the first listener is told before the second listener's turn.
test_emit :
    emit moody 2 both (text "message") hello []
    ≡ some (
        record { target = none; event = text "message"; listener = 1; payload = hello }
        ∷ record { target = none; event = error_event; listener = 3; payload = raised }
        ∷ record { target = none; event = text "message"; listener = 2; payload = hello }
        ∷ [])
unfolding emit call_each call_listener listeners_of Dict.get text_eq
test_emit = refl

abbrev calls : List Op
calls =
    ons (text "message") 1
    ∷ ons (text "message") 2
    ∷ offs (text "message") 1
    ∷ ons (text "message") 2
    ∷ []

test_calls : listeners_of (text "message") (apply calls []) ≡ 2 ∷ []
unfolding apply on off add_listener delete_listener has_listener listeners_of Dict.get Dict.put
    text_eq
test_calls = refl

emit-apply_example :
    (new : List Delivery) × (emit moody 2 (apply calls []) (text "message") hello [] ≡ some new)
    × (heard none (text "message") 2 new
        ≡ (if registered calls (text "message") 2 false then hello ∷ [] else []))
unfolding text_eq
emit-apply_example = emit-apply moody 0 calls (text "message") 2 hello [] moody-IsCalm refl

abbrev furious : List Delivery → Delivery → Bool
furious log d = d.listener == 3

furious-AlwaysThrows : AlwaysThrows furious 3
furious-AlwaysThrows log d e same = rw same refl

three_listens : has_listener 3 (listeners_of error_event both) ≡ true
unfolding has_listener listeners_of Dict.get text_eq
three_listens = refl

emit_diverges_example : emit furious 100 both error_event raised [] ≡ none
emit_diverges_example = emit_diverges furious 3 100 both [] furious-AlwaysThrows three_listens
