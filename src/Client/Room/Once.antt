-- ===== src/Client/Room/Once.antt =====
-- No message is shown twice.
use airway_im_plugin.Base.{
  ℕ, zero, suc, ◌≡◌, ◌≤◌, refl, Option, none, some, List, [], ◌∷◌, ◌++◌, arith, if◌then◌else◌,
  if_cases,
}
use airway_im_plugin.Base.Int.{ℤ}
use airway_im_plugin.Text.{Text, text_eq, text_eq_iff}
use airway_im_plugin.Sync.{ChatMessage}
use airway_im_plugin.Client.Room.{
  Room, logged_in, has_message, append, append_all, add_loaded, start, begin_next, begin_sync,
  take_page, answer_sync, Move, step, run, shown_of, empty_room, sync_failed,
}
use airway_im_plugin.Client.Room.Moves.{shown_of-append, Kept, add_system-Kept, step_cases}

-- How often a message with an id stands in a list.
abbrev pub count : Text → List ChatMessage → ℕ
count id [] = 0
count id (m ∷ ms) = if text_eq m.id id then suc (count id ms) else count id ms

count-append_end :
    (id : Text) (ms : List ChatMessage) (m : ChatMessage)
    → count id (ms ++ m ∷ []) ≡ (if text_eq m.id id then suc (count id ms) else count id ms)
count-append_end id [] m = refl
count-append_end id (n ∷ ms) m = ground (arith, count-append_end id ms m)

-- The set of seen ids says which messages are shown, and these are shown once.
abbrev pub IsConsistent : Room → Type 0
IsConsistent r =
    (id : Text) → count id (shown_of r.lines) ≡ (if has_message id r.seen then 1 else 0)

pub Kept-IsConsistent : (r r' : Room) → IsConsistent r → Kept r r' → IsConsistent r'
Kept-IsConsistent r r' h k id = rw (k.lines, k.seen) (h id)

pub append-IsConsistent : (m : ChatMessage) (r : Room) → IsConsistent r → IsConsistent (append m r)
unfolding append has_message
append-IsConsistent m r h id =
    if_cases (λ (t : Room). count id (shown_of t.lines) ≡ (if has_message id t.seen then 1 else 0))
      (has_message m.id r.seen) _ _ (λ p. h id)
      (λ p. rw shown_of-append (
        ground
          (arith, count-append_end id (shown_of r.lines) m, h id, h m.id, text_eq_iff m.id id)))

append_all-IsConsistent :
    (ms : List ChatMessage) (r : Room) → IsConsistent r → IsConsistent (append_all ms r)
unfolding append_all
append_all-IsConsistent [] r h = h
append_all-IsConsistent (m ∷ ms) r h =
    append_all-IsConsistent ms (append m r) (append-IsConsistent m r h)

begin_next-IsConsistent :
    (o : Option ℤ) (n : ℕ) (r : Room) → IsConsistent r → IsConsistent (begin_next o n r)
unfolding begin_next
begin_next-IsConsistent none (suc n) r h = h
begin_next-IsConsistent none zero r h = h
begin_next-IsConsistent (some a) n r h = h

take_page-IsConsistent :
    (o : Option ℤ) (page : Option (List ChatMessage)) (r : Room)
    → IsConsistent r
    → IsConsistent (take_page o page r)
unfolding take_page
take_page-IsConsistent none page r h = h
take_page-IsConsistent (some a) none r h =
    Kept-IsConsistent (record r { running = none }) _ h
      (add_system-Kept sync_failed (record r { running = none }))
take_page-IsConsistent (some a) (some page) r h =
    append_all-IsConsistent page (record r { running = none }) h

pub step-IsConsistent : (v : Move) (r : Room) → IsConsistent r → IsConsistent (step v r)
unfolding begin_sync answer_sync
step-IsConsistent v r h =
    step_cases IsConsistent v r (λ r' k. Kept-IsConsistent r r' h k)
      (begin_next-IsConsistent r.running r.queued r h)
      (λ page e. take_page-IsConsistent r.running page r h) (λ m e. append-IsConsistent m r h)

pub run-IsConsistent : (vs : List Move) (r : Room) → IsConsistent r → IsConsistent (run vs r)
unfolding run
run-IsConsistent [] r h = h
run-IsConsistent (v ∷ vs) r h = run-IsConsistent vs (step v r) (step-IsConsistent v r h)

add_loaded-Kept :
    (ms : List ChatMessage) (r : Room) → IsConsistent r → IsConsistent (add_loaded ms r)
unfolding add_loaded
add_loaded-Kept [] r h = h
add_loaded-Kept (m ∷ ms) r h = Kept-IsConsistent r _ h (add_system-Kept _ r)

pub start-IsConsistent :
    (conv self : Text) (history : List ChatMessage) → IsConsistent (start conv self history)
unfolding start has_message
start-IsConsistent conv self history = add_loaded-Kept history _ (
    append_all-IsConsistent history _ (
      Kept-IsConsistent (empty_room conv self) _ (λ id. refl)
        (add_system-Kept logged_in (empty_room conv self))))

-- However the history, the syncs, the events and the answers to the user's own sends come: no message id
-- is shown twice, and those shown are the ones that the set of seen ids holds.
pub shown_once :
    (conv self : Text) (history : List ChatMessage) (vs : List Move) (id : Text)
    → let r = run vs (start conv self history) in
      (count id (shown_of r.lines) ≤ 1)
      × (count id (shown_of r.lines) ≡ (if has_message id r.seen then 1 else 0))
shown_once conv self history vs id =
    let e =
      run-IsConsistent vs (start conv self history) (start-IsConsistent conv self history) id in
    (ground (arith, e), e)
