-- ===== src/Emitter.antt =====
-- The event emitters of the session and of the conversation objects
-- (install/ignore/sdk/ts/dist/esm/session.js: on, off, emit; conversation.js: on, off, emitLocal).
-- A listener is a number, as one function is told from another. What it does when it is called is an
-- argument, a function of the calls before: whether it throws.
pub mod Calm
pub mod Sets
pub mod Diverges
use airway_im_plugin.Base.{
  ℕ, zero, suc, Bool, false, ◌||◌, Option, none, some, List, [], ◌∷◌, ◌++◌, ◌==◌, get_or,
  if◌then◌else◌,
}
use airway_im_plugin.Text.{Text, text}
use airway_im_plugin.Dict
use airway_im_plugin.Dict.{Dict}
use airway_im_plugin.Sync.{ChatMessage, GatewayEvent}
use airway_im_plugin.Gateway.{Status}

-- What a listener is called with. `raised` is an error: what a listener threw, or a refusal.
pub data Payload : Type 0 where
  message : ChatMessage → Payload
  frame : GatewayEvent → Payload
  status : Status → Payload
  members_added : Text → List Text → GatewayEvent → Payload
  member_removed : Text → Text → GatewayEvent → Payload
  raised : Payload

-- One call of a listener, of the session (`none`) or of the conversation object with an id.
pub record Delivery : Type 0 where
  pub target : Option Text
  pub event : Text
  pub listener : ℕ
  pub payload : Payload

-- A `Set` of listeners, in the order in which they were added.
unfoldable pub has_listener : ℕ → List ℕ → Bool
has_listener l [] = false
has_listener l (k ∷ ks) = k == l || has_listener l ks

unfoldable pub add_listener : ℕ → List ℕ → List ℕ
add_listener l ks = if has_listener l ks then ks else ks ++ l ∷ []

unfoldable pub delete_listener : ℕ → List ℕ → List ℕ
delete_listener l [] = []
delete_listener l (k ∷ ks) = let rest = delete_listener l ks in if k == l then rest else k ∷ rest

abbrev pub Listeners : Type 0
Listeners = Dict (List ℕ)

-- The listeners of an event, in their order.
unfoldable pub listeners_of : Text → Listeners → List ℕ
listeners_of event ls = get_or (Dict.get event ls) []

-- on(event, listener)
unfoldable pub on : Text → ℕ → Listeners → Listeners
unfolding listeners_of
on event l ls = Dict.put event (add_listener l (listeners_of event ls)) ls

-- off(event, listener)
unfoldable pub off : Text → ℕ → Listeners → Listeners
off event l ls = elim (Dict.get event ls) [
  | none ↦ ls
  | some set ↦ Dict.put event (delete_listener l set) ls
]

abbrev pub then_call : {A : Type 0} → Option A → (A → Option A) → Option A
then_call none f = none
then_call (some a) f = f a

abbrev pub error_event : Text
error_event = text "error"

-- `none` where the calls do not come to an end within the fuel.
module _ (throws : List Delivery → Delivery → Bool) where
  -- One call: what is reported where the listener throws comes before the next listener's turn.
  unfoldable pub call_listener :
      (List Delivery → Option (List Delivery)) → Delivery → List Delivery → Option (List Delivery)
  call_listener report d log = if throws log d then report (log ++ d ∷ []) else some (log ++ d ∷ [])

  unfoldable pub call_each :
      (List Delivery → Option (List Delivery))
      → Option Text
      → Text
      → Payload
      → List ℕ
      → List Delivery
      → Option (List Delivery)
  call_each report t event p [] log = some log
  call_each report t event p (l ∷ ls) log =
      then_call
        (call_listener report (record { target = t; event = event; listener = l; payload = p }) log)
        (call_each report t event p ls)

  -- emit(event, payload) of the session: a listener that throws makes it emit "error".
  unfoldable pub emit : ℕ → Listeners → Text → Payload → List Delivery → Option (List Delivery)
  emit zero ls event p log = none
  emit (suc fuel) ls event p log =
      call_each (emit fuel ls error_event raised) none event p (listeners_of event ls) log

  -- emitLocal(event, payload) of the conversation object with an id: what its listeners throw goes
  -- to the session's reportError.
  unfoldable pub emit_local :
      ℕ → Listeners → Text → Listeners → Text → Payload → List Delivery → Option (List Delivery)
  emit_local fuel session_ls id ls event p log =
      call_each (emit fuel session_ls error_event raised) (some id) event p (listeners_of event ls)
        log
