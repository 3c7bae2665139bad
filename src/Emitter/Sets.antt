-- ===== src/Emitter/Sets.antt =====
-- The sets of listeners as a specification: who is registered after a history of on and off.
use airway_im_plugin.Base.{
  ℕ, suc, ◌≡◌, refl, ◌∙◌, ap, Bool, true, false, not, ◌&&◌, ◌||◌, none, some, List, [], ◌∷◌, ◌++◌,
  ◌==◌, arith, get_or, Bool-cases, Option-cases, inl, inr, if_cases, if◌then◌else◌,
}
use airway_im_plugin.Text.{Text, text_eq, text_eq_iff, text_eq_refl}
use airway_im_plugin.Dict
use airway_im_plugin.Dict.Laws.{get-put}
use airway_im_plugin.Emitter.{
  Payload, Delivery, Listeners, error_event, emit, listeners_of, has_listener, add_listener,
  delete_listener, on, off,
}
use airway_im_plugin.Emitter.Calm.{IsCalm, heard, told, emit-Calls}

-- No listener stands twice.
abbrev pub NoRepeat : List ℕ → Type 0
NoRepeat [] = Unit
NoRepeat (k ∷ ks) = (has_listener k ks ≡ false) × NoRepeat ks

has_listener-append :
    (l k : ℕ) (ks : List ℕ) → has_listener l (ks ++ k ∷ []) ≡ has_listener l ks || k == l
unfolding has_listener
has_listener-append l k [] = ground arith
has_listener-append l k (j ∷ ks) = ground (arith, has_listener-append l k ks)

has_listener-add :
    (l k : ℕ) (ks : List ℕ) → has_listener l (add_listener k ks) ≡ k == l || has_listener l ks
unfolding add_listener
has_listener-add l k ks = ground (arith, has_listener-append l k ks)

has_listener-delete :
    (l k : ℕ) (ks : List ℕ)
    → has_listener l (delete_listener k ks) ≡ not (k == l) && has_listener l ks
unfolding has_listener delete_listener
has_listener-delete l k [] = ground arith
has_listener-delete l k (j ∷ ks) = ground (arith, has_listener-delete l k ks)

append-NoRepeat :
    (k : ℕ) (ks : List ℕ) → NoRepeat ks → has_listener k ks ≡ false → NoRepeat (ks ++ k ∷ [])
unfolding has_listener
append-NoRepeat k [] h ne = (refl, tt)
append-NoRepeat k (j ∷ ks) h ne = ground (arith, append-NoRepeat k ks, has_listener-append j k ks)

add-NoRepeat : (k : ℕ) (ks : List ℕ) → NoRepeat ks → NoRepeat (add_listener k ks)
unfolding add_listener
add-NoRepeat k ks h = elim (Bool-cases (has_listener k ks)) [
  | inl e ↦ rw e h
  | inr e ↦ rw e (append-NoRepeat k ks h e)
]

delete-NoRepeat : (k : ℕ) (ks : List ℕ) → NoRepeat ks → NoRepeat (delete_listener k ks)
unfolding delete_listener
delete-NoRepeat k [] h = h
delete-NoRepeat k (j ∷ ks) h = ground (arith, delete-NoRepeat k ks, has_listener-delete j k ks)

-- In such a set a listener is called once or not at all.
pub told_once :
    (l : ℕ) (p : Payload) (ks : List ℕ)
    → NoRepeat ks
    → told l p ks ≡ (if has_listener l ks then p ∷ [] else [])
unfolding has_listener
told_once l p [] h = refl
told_once l p (k ∷ ks) h = ground (arith, told_once l p ks h.1)

listeners_of-on :
    (event event' : Text) (l : ℕ) (ls : Listeners)
    → listeners_of event' (on event l ls) ≡ (
        if text_eq event event'
        then add_listener l (listeners_of event' ls)
        else listeners_of event' ls)
unfolding listeners_of on
listeners_of-on event event' l ls = ground (
  arith,
  get-put event event' (add_listener l (get_or (Dict.get event ls) [])) ls,
  text_eq_iff event event',
)

listeners_of-off :
    (event event' : Text) (l : ℕ) (ls : Listeners)
    → listeners_of event' (off event l ls) ≡ (
        if text_eq event event'
        then delete_listener l (listeners_of event' ls)
        else listeners_of event' ls)
unfolding listeners_of off delete_listener
listeners_of-off event event' l ls = elim (Option-cases (Dict.get event ls)) [
  | inl e ↦ rw (e, off) (ground (arith, e, text_eq_iff event event'))
  | inr (set, e) ↦
      rw (e, off)
        (ground
          (arith, e, get-put event event' (delete_listener l set) ls, text_eq_iff event event'))
]

pub on-NoRepeat :
    (event event' : Text) (l : ℕ) (ls : Listeners)
    → NoRepeat (listeners_of event' ls)
    → NoRepeat (listeners_of event' (on event l ls))
on-NoRepeat event event' l ls h = rw (listeners_of-on event event' l ls) (
    if_cases NoRepeat (text_eq event event') _ _ (λ p. add-NoRepeat l (listeners_of event' ls) h)
      (λ p. h))

pub off-NoRepeat :
    (event event' : Text) (l : ℕ) (ls : Listeners)
    → NoRepeat (listeners_of event' ls)
    → NoRepeat (listeners_of event' (off event l ls))
off-NoRepeat event event' l ls h = rw (listeners_of-off event event' l ls) (
    if_cases NoRepeat (text_eq event event') _ _ (λ p. delete-NoRepeat l (listeners_of event' ls) h)
      (λ p. h))

has_listener-on :
    (event event' : Text) (k l : ℕ) (ls : Listeners)
    → has_listener l (listeners_of event' (on event k ls))
      ≡ (if text_eq event event' && k == l then true else has_listener l (listeners_of event' ls))
has_listener-on event event' k l ls =
    ground (arith, listeners_of-on event event' k ls, has_listener-add l k (listeners_of event' ls))

has_listener-off :
    (event event' : Text) (k l : ℕ) (ls : Listeners)
    → has_listener l (listeners_of event' (off event k ls))
      ≡ (if text_eq event event' && k == l then false else has_listener l (listeners_of event' ls))
has_listener-off event event' k l ls =
    ground
      (arith, listeners_of-off event event' k ls, has_listener-delete l k (listeners_of event' ls))

-- A call of on or off.
pub data Op : Type 0 where
  ons : Text → ℕ → Op
  offs : Text → ℕ → Op

unfoldable pub apply : List Op → Listeners → Listeners
apply [] ls = ls
apply (ons event l ∷ ops) ls = apply ops (on event l ls)
apply (offs event l ∷ ops) ls = apply ops (off event l ls)

-- Who is registered: the last call about an event and a listener decides.
abbrev pub registered : List Op → Text → ℕ → Bool → Bool
registered [] event l b = b
registered (ons e k ∷ ops) event l b =
    registered ops event l (if text_eq e event && k == l then true else b)
registered (offs e k ∷ ops) event l b =
    registered ops event l (if text_eq e event && k == l then false else b)

-- From a map of sets, the calls leave a map of sets that holds who was registered last.
apply-registered :
    (ops : List Op) (ls : Listeners) (event : Text) (l : ℕ)
    → NoRepeat (listeners_of event ls)
    → NoRepeat (listeners_of event (apply ops ls))
      × (has_listener l (listeners_of event (apply ops ls))
          ≡ registered ops event l (has_listener l (listeners_of event ls)))
unfolding apply
apply-registered [] ls event l h = (h, refl)
apply-registered (ons e k ∷ ops) ls event l h =
    let (sets, r) = apply-registered ops (on e k ls) event l (on-NoRepeat e event k ls h) in
    (sets, r ∙ ap (registered ops event l) (has_listener-on e event k l ls))
apply-registered (offs e k ∷ ops) ls event l h =
    let (sets, r) = apply-registered ops (off e k ls) event l (off-NoRepeat e event k ls h) in
    (sets, r ∙ ap (registered ops event l) (has_listener-off e event k l ls))

none_yet : (event : Text) (l : ℕ) → has_listener l (listeners_of event []) ≡ false
unfolding listeners_of Dict.get has_listener
none_yet event l = refl

told-apply :
    (ops : List Op) (event : Text) (l : ℕ) (p : Payload)
    → told l p (listeners_of event (apply ops []))
      ≡ (if registered ops event l false then p ∷ [] else [])
told-apply ops event l p =
    let (sets, r) = apply-registered ops [] event l (unfold listeners_of Dict.get in tt) in
    rw (told_once l p (listeners_of event (apply ops [])) sets, r, none_yet event l) refl

-- After any calls of on and off on a new emitter, and where the "error" listeners do not throw: an emit of an
-- event other than "error" comes to its end with fuel of 2 or more, and adds calls to those made before, in
-- which a listener is told the event once with its payload if the last of the calls of on and off about the
-- two was an `on`, and else not at all, whatever the other listeners throw.
pub emit-apply :
    (throws : List Delivery → Delivery → Bool) (fuel : ℕ) (ops : List Op) (event : Text) (l : ℕ)
    (p : Payload) (log : List Delivery)
    → IsCalm throws
    → text_eq error_event event ≡ false
    → (new : List Delivery) × (emit throws (suc (suc fuel)) (apply ops []) event p log
        ≡ some (log ++ new))
      × (heard none event l new ≡ (if registered ops event l false then p ∷ [] else []))
emit-apply throws fuel ops event l p log calm ne =
    let (new, e, h) = emit-Calls throws fuel (apply ops []) event event p none l log calm ne in
    (new, e, h ∙ rw (text_eq_refl event) (told-apply ops event l p))
