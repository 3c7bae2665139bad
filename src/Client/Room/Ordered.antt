-- ===== src/Client/Room/Ordered.antt =====
-- Messages are shown in order, as long as the user sends none.
use airway_im_plugin.Base.{
  ℕ, zero, suc, ◌≡◌, refl, sym, ◌∙◌, Option, none, some, List, [], ◌∷◌, arith, if_cases,
}
use airway_im_plugin.Base.Int.{ℤ, pos, ◌≤ℤ◌, ◌<ℤ◌, max_ℤ}
use airway_im_plugin.Text.{Text}
use airway_im_plugin.Sync.{ChatMessage}
use airway_im_plugin.Sync.Fetch.Order.{Ascending, Ascending-append, last_of, last_of-append}
use airway_im_plugin.Client.Room.{
  Room, logged_in, has_message, append, append_all, add_loaded, add_system, start, begin_next,
  begin_sync, take_page, answer_sync, Move, answers, sent, step, run, shown_of, empty_room,
  sync_failed,
}
use airway_im_plugin.Client.Room.Moves.{shown_of-append, Kept, add_system-Kept, step_cases}

-- The messages shown rise up to the last sequence.
pub record IsRising (r : Room) : Type 0 where
  pub rises : Ascending (pos 0) (shown_of r.lines)
  pub reaches : last_of (pos 0) (shown_of r.lines) ≡ r.last_sequence

-- The running sync has asked for what comes after the last one.
pub record IsTidy (r : Room) : Type 0 where
  pub rising : IsRising r
  pub current : (after : ℤ) → r.running ≡ some after → after ≡ r.last_sequence

-- No send is answered, and a page is in order above the sequence asked for.
abbrev IsAnswer : Option ℤ → Option (List ChatMessage) → Type 0
IsAnswer (some after) (some page) = Ascending after page
IsAnswer _ _ = Unit

abbrev IsGood : Room → Move → Type 0
IsGood r (answers page) = IsAnswer r.running page
IsGood r (sent (some m)) = ⊥
IsGood r _ = Unit

abbrev pub AllGood : Room → List Move → Type 0
AllGood r [] = Unit
AllGood r (v ∷ vs) = IsGood r v × AllGood (step v r) vs

Kept-IsRising : (r r' : Room) → IsRising r → Kept r r' → IsRising r'
Kept-IsRising r r' h k = record {
  rises = rw k.lines h.rises;
  reaches = rw (k.lines, k.last_sequence) h.reaches;
}

Kept-IsTidy : (r r' : Room) → IsTidy r → Kept r r' → IsTidy r'
Kept-IsTidy r r' h k = record {
  rising = Kept-IsRising r r' h.rising k;
  current = λ a e. h.current a (sym k.running ∙ e) ∙ sym k.last_sequence;
}

-- A message above the last one is shown, unless it was seen, and is the last one then.
append-IsRising :
    (m : ChatMessage) (r : Room)
    → r.last_sequence <ℤ m.sequence
    → IsRising r
    → IsRising (append m r) × ((append m r).last_sequence ≤ℤ m.sequence)
unfolding append
append-IsRising m r lt h =
    if_cases (λ (t : Room). IsRising t × (t.last_sequence ≤ℤ m.sequence)) (has_message m.id r.seen)
      _ _ (λ p. (h, omega arith))
      (λ p.
        let top : max_ℤ r.last_sequence m.sequence ≡ m.sequence = ground arith in
        (
          record {
            rises = rw shown_of-append (
                Ascending-append (pos 0) (shown_of r.lines) (m ∷ []) h.rises
                  (rw h.reaches (lt, tt)));
            reaches =
                rw shown_of-append (last_of-append (pos 0) (shown_of r.lines) (m ∷ []) ∙ sym top);
          },
          rw top (omega arith),
        ))

append_all-IsRising :
    (s : ℤ) (ms : List ChatMessage) (r : Room)
    → r.last_sequence ≤ℤ s
    → Ascending s ms
    → IsRising r
    → IsRising (append_all ms r)
unfolding append_all
append_all-IsRising s [] r le up h = h
append_all-IsRising s (m ∷ ms) r le up h =
    let (h', le') = append-IsRising m r (omega (arith, le, up.0)) h in
    append_all-IsRising m.sequence ms (append m r) le' up.1 h'

append-running : (m : ChatMessage) (r : Room) → (append m r).running ≡ r.running
unfolding append
append-running m r =
    if_cases (λ (t : Room). t.running ≡ r.running) (has_message m.id r.seen) _ _ (λ p. refl)
      (λ p. refl)

pub append_all-running : (ms : List ChatMessage) (r : Room) → (append_all ms r).running ≡ r.running
unfolding append_all
append_all-running [] r = refl
append_all-running (m ∷ ms) r = append_all-running ms (append m r) ∙ append-running m r

-- Where no sync runs, nothing is said of it.
idle-IsTidy : (r : Room) → r.running ≡ none → IsRising r → IsTidy r
idle-IsTidy r e h = record { rising = h; current = λ a q. cc }

begin_next-IsTidy : (o : Option ℤ) (n : ℕ) (r : Room) → IsTidy r → IsTidy (begin_next o n r)
unfolding begin_next
begin_next-IsTidy none zero r h = h
begin_next-IsTidy none (suc n) r h = record {
  rising = record { rises = h.rising.rises; reaches = h.rising.reaches };
  current = λ a q. cc;
}
begin_next-IsTidy (some a) n r h = h

take_page-IsTidy :
    (o : Option ℤ) (page : Option (List ChatMessage)) (r : Room)
    → r.running ≡ o
    → IsAnswer o page
    → IsTidy r
    → IsTidy (take_page o page r)
unfolding take_page add_system
take_page-IsTidy none page r e up h = h
take_page-IsTidy (some a) none r e up h =
    let idle : Room = record r { running = none } in
    idle-IsTidy _ refl (
      Kept-IsRising idle _ (record { rises = h.rising.rises; reaches = h.rising.reaches })
        (add_system-Kept sync_failed idle))
take_page-IsTidy (some a) (some page) r e up h =
    let idle : Room = record r { running = none } in
    idle-IsTidy (append_all page idle) (append_all-running page idle) (
      append_all-IsRising a page idle (rw (h.current a e) (omega arith)) up
        (record { rises = h.rising.rises; reaches = h.rising.reaches }))

step-IsTidy : (v : Move) (r : Room) → IsGood r v → IsTidy r → IsTidy (step v r)
unfolding begin_sync answer_sync
step-IsTidy v r g h =
    step_cases IsTidy v r (λ r' k. Kept-IsTidy r r' h k) (begin_next-IsTidy r.running r.queued r h)
      (λ page e. take_page-IsTidy r.running page r refl (rw e at g) h) (λ m e. absurd (rw e at g))

pub run-IsTidy : (vs : List Move) (r : Room) → AllGood r vs → IsTidy r → IsTidy (run vs r)
unfolding run
run-IsTidy [] r g h = h
run-IsTidy (v ∷ vs) r g h = run-IsTidy vs (step v r) g.1 (step-IsTidy v r g.0 h)

add_loaded-IsTidy : (ms : List ChatMessage) (r : Room) → IsTidy r → IsTidy (add_loaded ms r)
unfolding add_loaded
add_loaded-IsTidy [] r h = h
add_loaded-IsTidy (m ∷ ms) r h = Kept-IsTidy r _ h (add_system-Kept _ r)

pub start-IsTidy :
    (conv self : Text) (history : List ChatMessage)
    → Ascending (pos 0) history
    → IsTidy (start conv self history)
unfolding start add_system
start-IsTidy conv self history up =
    let greeted : Room = add_system logged_in (empty_room conv self) in
    add_loaded-IsTidy history (append_all history greeted) (
      idle-IsTidy _ (append_all-running history greeted) (
        append_all-IsRising (pos 0) history greeted (omega arith) up
          (record { rises = tt; reaches = refl })))

-- From a history in order, over any events, refusals, syncs and answers in which each page is in order above
-- the sequence asked for and no send of the user's own is answered: the messages shown have strictly
-- rising sequences, of which the last is where the next sync goes on.
pub shown_in_order :
    (conv self : Text) (history : List ChatMessage) (vs : List Move)
    → Ascending (pos 0) history
    → AllGood (start conv self history) vs
    → let r = run vs (start conv self history) in
      Ascending (pos 0) (shown_of r.lines) × (last_of (pos 0) (shown_of r.lines) ≡ r.last_sequence)
shown_in_order conv self history vs up g =
    let h =
      (run-IsTidy vs (start conv self history) g (start-IsTidy conv self history up)).rising in
    (h.rises, h.reaches)
