-- ===== src/Client/Room/Missed.antt =====
-- A message of another, before the answer to a send of the user's own.
use airway_im_plugin.Base.{
  ℕ, zero, suc, ◌≡◌, refl, sym, ◌∙◌, true, false, Option, none, some, List, [], ◌∷◌, arith, All,
  if_cases, Bool-cases, inl, inr,
}
use airway_im_plugin.Base.Int.{ℤ, ◌≤ℤ◌, ◌<ℤ◌, max_ℤ-le}
use airway_im_plugin.Text.{text_eq}
use airway_im_plugin.Sync.{ChatMessage}
use airway_im_plugin.Sync.Fetch.Order.{Ascending}
use airway_im_plugin.Client.Room.{
  Room, has_message, append, append_all, add_system, begin_next, begin_sync, take_page, answer_sync,
  Move, answers, sent, step, run, shown_of,
}
use airway_im_plugin.Client.Room.Moves.{step_cases}
use airway_im_plugin.Client.Room.Once.{count, IsConsistent, append-IsConsistent, run-IsConsistent}

module _ (n : ChatMessage) where
  -- The message has not been shown, and the syncs ask for what comes after it.
  record IsPassed (r : Room) : Type 0 where
    pub unseen : has_message n.id r.seen ≡ false
    pub last : n.sequence ≤ℤ r.last_sequence
    pub current : (after : ℤ) → r.running ≡ some after → n.sequence ≤ℤ after

  -- An id stands for one message: a page that has this one's has it at its sequence.
  abbrev pub Names : List ChatMessage → Type 0
  Names = All (λ (k : ChatMessage). text_eq k.id n.id ≡ true → k.sequence ≡ n.sequence)

  -- Pages are in order above the sequence asked for, and the message is not one that the user sent.
  abbrev pub IsFair : Room → Move → Type 0
  IsFair r (answers (some page)) =
      Names page × ((after : ℤ) → r.running ≡ some after → Ascending after page)
  IsFair r (sent (some k)) = text_eq k.id n.id ≡ false
  IsFair r _ = Unit

  abbrev pub AllFair : Room → List Move → Type 0
  AllFair r [] = Unit
  AllFair r (v ∷ vs) = IsFair r v × AllFair (step v r) vs

  append-IsPassed :
      (k : ChatMessage) (r : Room) → text_eq k.id n.id ≡ false → IsPassed r → IsPassed (append k r)
  unfolding append has_message
  append-IsPassed k r other h =
      if_cases IsPassed (has_message k.id r.seen) _ _ (λ p. h)
        (λ p. record {
          unseen = rw other h.unseen;
          last = omega (arith, h.last, max_ℤ-le r.last_sequence k.sequence);
          current = h.current;
        })

  append_all-IsPassed :
      (s : ℤ) (ms : List ChatMessage) (r : Room)
      → n.sequence ≤ℤ s
      → Ascending s ms
      → Names ms
      → IsPassed r
      → IsPassed (append_all ms r)
  unfolding append_all
  append_all-IsPassed s [] r le up names h = h
  append_all-IsPassed s (k ∷ ms) r le up names h =
      let other : text_eq k.id n.id ≡ false = elim (Bool-cases (text_eq k.id n.id)) [
        | inl p ↦ absurd (above_self k s le up.0 (names.0 p))
        | inr p ↦ p
      ] in
      append_all-IsPassed k.sequence ms (append k r) (omega (arith, le, up.0)) up.1 names.1
        (append-IsPassed k r other h)
    where
      above_self :
          (k : ChatMessage) (s : ℤ)
          → n.sequence ≤ℤ s
          → s <ℤ k.sequence
          → k.sequence ≡ n.sequence
          → ⊥
      above_self k s le lt e = ground (arith, le, lt, e)

  begin_next-IsPassed : (o : Option ℤ) (i : ℕ) (r : Room) → IsPassed r → IsPassed (begin_next o i r)
  unfolding begin_next
  begin_next-IsPassed none zero r h = h
  begin_next-IsPassed none (suc i) r h = record {
    unseen = h.unseen;
    last = h.last;
    current = λ a e. ground (arith, h.last, e);
  }
  begin_next-IsPassed (some a) i r h = h

  take_page-IsPassed :
      (o : Option ℤ) (page : Option (List ChatMessage)) (r : Room)
      → r.running ≡ o
      → IsFair r (answers page)
      → IsPassed r
      → IsPassed (take_page o page r)
  unfolding take_page add_system
  take_page-IsPassed none page r e g h = h
  take_page-IsPassed (some a) none r e g h = record {
    unseen = h.unseen;
    last = h.last;
    current = λ b q. cc;
  }
  take_page-IsPassed (some a) (some page) r e g h =
      append_all-IsPassed a page (record r { running = none }) (h.current a e) (g.1 a e) g.0
        (record { unseen = h.unseen; last = h.last; current = λ b q. cc })

  step-IsPassed : (v : Move) (r : Room) → IsFair r v → IsPassed r → IsPassed (step v r)
  unfolding begin_sync answer_sync
  step-IsPassed v r g h =
      step_cases IsPassed v r
        (λ r' k. record {
          unseen = rw k.seen h.unseen;
          last = rw k.last_sequence h.last;
          current = λ a e. h.current a (sym k.running ∙ e);
        })
        (begin_next-IsPassed r.running r.queued r h)
        (λ page e. take_page-IsPassed r.running page r refl (rw e at g) h)
        (λ k e. append-IsPassed k r (rw e at g) h)

  run-IsPassed : (vs : List Move) (r : Room) → AllFair r vs → IsPassed r → IsPassed (run vs r)
  unfolding run
  run-IsPassed [] r g h = h
  run-IsPassed (v ∷ vs) r g h = run-IsPassed vs (step v r) g.1 (step-IsPassed v r g.0 h)

  sent-IsPassed :
      (m : ChatMessage) (r : Room)
      → r.running ≡ none
      → has_message n.id r.seen ≡ false
      → has_message m.id r.seen ≡ false
      → text_eq m.id n.id ≡ false
      → n.sequence ≤ℤ m.sequence
      → IsPassed (append m r)
  unfolding append has_message
  sent-IsPassed m r idle unseen new other le = rw new (record {
    unseen = rw other unseen;
    last = omega (arith, le, max_ℤ-le r.last_sequence m.sequence);
    current = λ a e. cc;
  })

-- Where a message of another has not been shown, no sync runs, and a send of the user's own is answered with a
-- message that comes after it: whatever comes then, with pages in order above the sequence asked for, that
-- message is never shown.
pub own_send_hides :
    (n m : ChatMessage) (r : Room) (vs : List Move)
    → IsConsistent r
    → r.running ≡ none
    → has_message n.id r.seen ≡ false
    → has_message m.id r.seen ≡ false
    → text_eq m.id n.id ≡ false
    → n.sequence ≤ℤ m.sequence
    → AllFair n (step (sent (some m)) r) vs
    → count n.id (shown_of (run vs (step (sent (some m)) r)).lines) ≡ 0
unfolding step
own_send_hides n m r vs ok idle unseen new other le fair =
    let passed =
      run-IsPassed n vs (append m r) fair (sent-IsPassed n m r idle unseen new other le) in
    run-IsConsistent vs (append m r) (append-IsConsistent m r ok) n.id ∙ rw passed.unseen refl
