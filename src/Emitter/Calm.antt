-- ===== src/Emitter/Calm.antt =====
-- What an emitter promises where the "error" listeners do not throw: every call of `emit` ends, and
-- each listener of the event is called once, in order, whatever the others throw.
use airway_im_plugin.Base.{
  ℕ, suc, ◌≡◌, refl, sym, ◌∙◌, ap, Bool, true, false, ◌&&◌, Option, none, some, List, [], ◌∷◌, ◌++◌,
  ◌==◌, arith, append_assoc, append-nil, Bool-cases, inl, inr, if◌then◌else◌, if_cases,
}
use airway_im_plugin.Text.{Text, text_eq}
use airway_im_plugin.Emitter.{
  Payload, raised, Delivery, Listeners, listeners_of, error_event, call_listener, call_each, emit,
  emit_local,
}

abbrev pub same_target : Option Text → Option Text → Bool
same_target none none = true
same_target (some a) (some b) = text_eq a b
same_target _ _ = false

-- What a listener of a target was called with on an event, in order.
abbrev pub heard : Option Text → Text → ℕ → List Delivery → List Payload
heard t event l [] = []
heard t event l (d ∷ ds) =
    if same_target d.target t && text_eq d.event event && d.listener == l
    then d.payload ∷ heard t event l ds
    else heard t event l ds

pub heard-append :
    (t : Option Text) (event : Text) (l : ℕ) (xs ys : List Delivery)
    → heard t event l (xs ++ ys) ≡ heard t event l xs ++ heard t event l ys
heard-append t event l [] ys = refl
heard-append t event l (d ∷ xs) ys =
    elim (Bool-cases (same_target d.target t && text_eq d.event event && d.listener == l)) [
      | inl p ↦ rw (p, heard-append t event l xs ys) refl
      | inr p ↦ rw (p, heard-append t event l xs ys) refl
    ]

-- One payload for each time that a listener stands among those that are called.
abbrev pub told : ℕ → Payload → List ℕ → List Payload
told l p [] = []
told l p (k ∷ ks) = if k == l then p ∷ told l p ks else told l p ks

-- The "error" listeners never throw.
abbrev pub IsCalm : (List Delivery → Delivery → Bool) → Type 0
IsCalm throws = (log : List Delivery) (d : Delivery) → d.event ≡ error_event → throws log d ≡ false

-- The outcome adds calls to the log, among which those of `event` on the target `t` hand on `p` to
-- the listeners `ls`, each in its turn, and all others are of "error".
abbrev pub Calls :
    Option Text → Text → Payload → List ℕ → List Delivery → Option (List Delivery) → Type 0
Calls t event p ls log out =
    (new : List Delivery) × (out ≡ some (log ++ new))
    × ((t' : Option Text) (event' : Text) (l : ℕ)
        → text_eq error_event event' ≡ false
        → heard t' event' l new
          ≡ (if same_target t t' && text_eq event event' then told l p ls else []))

-- What is called is of "error" only.
abbrev pub IsQuiet : (List Delivery → Option (List Delivery)) → Type 0
IsQuiet report =
    (log : List Delivery)
    → (new : List Delivery) × (report log ≡ some (log ++ new))
      × ((t : Option Text) (event : Text) (l : ℕ)
          → text_eq error_event event ≡ false
          → heard t event l new ≡ [])

picked :
    (a b : Bool) (p : Payload)
    → (if a && b then p ∷ [] else []) ≡ (if a then (if b then p ∷ [] else []) else [])
picked true b p = refl
picked false b p = refl

unpicked : (a b : Bool) (p : Payload) → (if a && false && b then p ∷ [] else []) ≡ []
unpicked true b p = refl
unpicked false b p = refl

joined :
    (b : Bool) (l k : ℕ) (p : Payload) (ks : List ℕ)
    → (if b then told l p (k ∷ []) else []) ++ (if b then told l p ks else [])
      ≡ (if b then told l p (k ∷ ks) else [])
joined true l k p ks = ground arith
joined false l k p ks = refl

module _ (throws : List Delivery → Delivery → Bool) where
  one_call :
      (report : List Delivery → Option (List Delivery)) (t : Option Text) (event : Text)
      (p : Payload) (l : ℕ) (log : List Delivery)
      → IsQuiet report
      → Calls t event p (l ∷ []) log (
          call_listener throws report
            (record { target = t; event = event; listener = l; payload = p })
            log)
  unfolding call_listener
  one_call report t event p l log q =
      let d : Delivery = record { target = t; event = event; listener = l; payload = p } in
      if_cases (Calls t event p (l ∷ []) log) (throws log d) _ _
        (λ h.
          let (new, e, silent) = q (log ++ d ∷ []) in
          (
            d ∷ new,
            e ∙ ap some (append_assoc log (d ∷ []) new),
            λ t' event' k ne.
                rw (silent t' event' k ne)
                  (picked (same_target t t' && text_eq event event') (l == k) p),
          ))
        (λ h. (
          d ∷ [],
          refl,
          λ t' event' k ne. picked (same_target t t' && text_eq event event') (l == k) p,
        ))

  pub call_each-Calls :
      (report : List Delivery → Option (List Delivery)) (t : Option Text) (event : Text)
      (p : Payload) (ls : List ℕ) (log : List Delivery)
      → IsQuiet report
      → Calls t event p ls log (call_each throws report t event p ls log)
  unfolding call_each
  call_each-Calls report t event p [] log q =
      ([], ap some (sym (append-nil log)), λ t' event' l ne. ground arith)
  call_each-Calls report t event p (k ∷ ks) log q =
      let (one, e, first) = one_call report t event p k log q in
      let (more, e', rest) = call_each-Calls report t event p ks (log ++ one) q in
      (
        one ++ more,
        rw e (e' ∙ ap some (append_assoc log one more)),
        λ t' event' l ne.
            heard-append t' event' l one more
            ∙ rw (first t' event' l ne, rest t' event' l ne)
                (joined (same_target t t' && text_eq event event') l k p ks),
      )

  -- A call of the "error" listeners, which do not throw, needs no further report.
  calm_each :
      (report : List Delivery → Option (List Delivery)) (p : Payload) (ls : List ℕ)
      (log : List Delivery)
      → IsCalm throws
      → (new : List Delivery) × (call_each throws report none error_event p ls log
          ≡ some (log ++ new))
        × ((t : Option Text) (event : Text) (l : ℕ)
            → text_eq error_event event ≡ false
            → heard t event l new ≡ [])
  unfolding call_each call_listener
  calm_each report p [] log calm = ([], ap some (sym (append-nil log)), λ t event l ne. refl)
  calm_each report p (k ∷ ks) log calm =
      let d : Delivery = record { target = none; event = error_event; listener = k; payload = p } in
      let (more, e, silent) = calm_each report p ks (log ++ d ∷ []) calm in
      (
        d ∷ more,
        rw (calm log d refl) (e ∙ ap some (append_assoc log (d ∷ []) more)),
        λ t event l ne. rw (ne, silent t event l ne) (unpicked (same_target none t) (k == l) p),
      )

  pub emit-IsQuiet :
      (fuel : ℕ) (ls : Listeners)
      → IsCalm throws
      → IsQuiet (emit throws (suc fuel) ls error_event raised)
  unfolding emit
  emit-IsQuiet fuel ls calm log =
      calm_each (emit throws fuel ls error_event raised) raised (listeners_of error_event ls) log
        calm

-- Where the "error" listeners do not throw, an `emit` comes to its end with fuel of 2 or more, and
-- it calls each listener of the event once for each time that it stands in the event's set, whatever
-- the others throw. Of all events but "error", nothing else is called.
pub emit-Calls :
    (throws : List Delivery → Delivery → Bool) (fuel : ℕ) (ls : Listeners) (event event' : Text)
    (p : Payload) (t : Option Text) (l : ℕ) (log : List Delivery)
    → IsCalm throws
    → text_eq error_event event' ≡ false
    → (new : List Delivery) × (emit throws (suc (suc fuel)) ls event p log ≡ some (log ++ new))
      × (heard t event' l new ≡ (
          if same_target none t && text_eq event event'
          then told l p (listeners_of event ls)
          else []))
unfolding emit
emit-Calls throws fuel ls event event' p t l log calm ne =
    let (new, e, h) =
      call_each-Calls throws (emit throws (suc fuel) ls error_event raised) none event p
        (listeners_of event ls) log (emit-IsQuiet throws fuel ls calm) in
    (new, e, h t event' l ne)

-- Where the "error" listeners do not throw, an `emitLocal` of a conversation object comes to its end
-- with fuel of 1 or more, and it calls each of the object's listeners of the event once for each time
-- that it stands in the event's set, whatever the others throw. Of all events but "error", nothing
-- else is called.
emit_local-Calls :
    (throws : List Delivery → Delivery → Bool) (fuel : ℕ) (session_ls ls : Listeners)
    (id event event' : Text) (p : Payload) (t : Option Text) (l : ℕ) (log : List Delivery)
    → IsCalm throws
    → text_eq error_event event' ≡ false
    → (new : List Delivery) × (emit_local throws (suc fuel) session_ls id ls event p log
        ≡ some (log ++ new))
      × (heard t event' l new ≡ (
          if same_target (some id) t && text_eq event event'
          then told l p (listeners_of event ls)
          else []))
unfolding emit_local
emit_local-Calls throws fuel session_ls ls id event event' p t l log calm ne =
    let (new, e, h) =
      call_each-Calls throws (emit throws (suc fuel) session_ls error_event raised) (some id) event
        p (listeners_of event ls) log (emit-IsQuiet throws fuel session_ls calm) in
    (new, e, h t event' l ne)
