-- ===== src/Emitter/Diverges.antt =====
-- What happens where an "error" listener throws each time that it is called.
use airway_im_plugin.Base.{
  ℕ, zero, suc, ◌≡◌, refl, Bool, true, Option, none, List, [], ◌∷◌, ◌++◌, ◌==◌, arith, Bool-cases,
  Option-cases, inl, inr,
}
use airway_im_plugin.Emitter.{
  Payload, raised, Delivery, Listeners, listeners_of, has_listener, error_event, call_listener,
  call_each, emit,
}

-- The "error" listener `k` of the session throws at every call.
abbrev pub AlwaysThrows : (List Delivery → Delivery → Bool) → ℕ → Type 0
AlwaysThrows throws k =
    (log : List Delivery) (d : Delivery)
    → d.event ≡ error_event
    → d.listener ≡ k
    → throws log d ≡ true

module _ (throws : List Delivery → Delivery → Bool) (k : ℕ) where
  call_each-none :
      (report : List Delivery → Option (List Delivery)) (p : Payload) (ls : List ℕ)
      (log : List Delivery)
      → AlwaysThrows throws k
      → ((log' : List Delivery) → report log' ≡ none)
      → has_listener k ls ≡ true
      → call_each throws report none error_event p ls log ≡ none
  unfolding call_each has_listener
  call_each-none report p [] log always never h = cc
  call_each-none report p (l ∷ ls) log always never h =
      let d : Delivery = record { target = none; event = error_event; listener = l; payload = p } in
      elim (Bool-cases (l == k)) [
        | inl q ↦
            let e : call_listener throws report d log ≡ none =
              unfold call_listener in
              rw (always log d refl (ground arith)) (never (log ++ d ∷ [])) in
            rw e refl
        | inr q ↦ elim (Option-cases (call_listener throws report d log)) [
          | inl e ↦ rw e refl
          | inr (log', e) ↦ rw e (call_each-none report p ls log' always never (ground (arith, h)))
        ]
      ]

-- A session with an "error" listener that always throws never finishes emitting an error: each throw
-- is reported by another "error" event, whatever fuel is given.
pub emit_diverges :
    (throws : List Delivery → Delivery → Bool) (k fuel : ℕ) (ls : Listeners) (log : List Delivery)
    → AlwaysThrows throws k
    → has_listener k (listeners_of error_event ls) ≡ true
    → emit throws fuel ls error_event raised log ≡ none
unfolding emit
emit_diverges throws k zero ls log always h = refl
emit_diverges throws k (suc fuel) ls log always h =
    call_each-none throws k (emit throws fuel ls error_event raised) raised
      (listeners_of error_event ls) log always
      (λ log'. emit_diverges throws k fuel ls log' always h) h
