-- ===== src/Client/Room/Pages.antt =====
-- How much of a long conversation the client shows: a page of history, and a page for each sync.
use airway_im_plugin.Base.{
  ℕ, zero, suc, ◌+◌, ◌*◌, ◌≡◌, ◌≤◌, refl, sym, ◌∙◌, ap, false, none, some, List, [], ◌∷◌, ◌++◌,
  arith, take, drop, take-add, append_assoc, append-nil, if_cases, Bool-cases, inl, inr,
}
use airway_im_plugin.Base.Int.{pos}
use airway_im_plugin.Text.{Text, text_eq_refl}
use airway_im_plugin.Sync.{ChatMessage}
use airway_im_plugin.Sync.Fetch.Order.{Ascending, last_of}
use airway_im_plugin.Sync.Fetch.Complete.{
  newer, newer_all, newer_rest, Ascending-take, newer-Ascending,
}
use airway_im_plugin.Client.Room.{
  Room, logged_in, has_message, append, append_all, add_loaded, add_system, start, begin_next,
  begin_sync, take_page, answer_sync, Move, ready, begins, answers, step, run, shown_of, empty_room,
  sync,
}
use airway_im_plugin.Client.Room.Moves.{shown_of-append, add_system-Kept}
use airway_im_plugin.Client.Room.Once.{
  count, IsConsistent, append-IsConsistent, start-IsConsistent, run-IsConsistent,
}
use airway_im_plugin.Client.Room.Ordered.{
  IsTidy, AllGood, start-IsTidy, run-IsTidy, append_all-running,
}

count-append :
    (id : Text) (ms ns : List ChatMessage) → count id (ms ++ ns) ≡ count id ms + count id ns
count-append id [] ns = omega arith
count-append id (m ∷ ms) ns = ground (arith, count-append id ms ns)

count-take : (id : Text) (k : ℕ) (ms : List ChatMessage) → count id (take k ms) ≤ count id ms
count-take id zero ms = omega arith
count-take id (suc k) [] = omega arith
count-take id (suc k) (m ∷ ms) = ground (arith, count-take id k ms)

-- No id stands twice.
abbrev pub AreDistinct : List ChatMessage → Type 0
AreDistinct ms = (id : Text) → count id ms ≤ 1

-- Messages that are all new are all shown.
append_all-new :
    (ms : List ChatMessage) (r : Room)
    → IsConsistent r
    → AreDistinct (shown_of r.lines ++ ms)
    → shown_of (append_all ms r).lines ≡ shown_of r.lines ++ ms
unfolding append_all append
append_all-new [] r ok h = sym (append-nil (shown_of r.lines))
append_all-new (m ∷ ms) r ok h =
    let new : has_message m.id r.seen ≡ false = elim (Bool-cases (has_message m.id r.seen)) [
      | inl p ↦ absurd (
          ground (
            arith,
            h m.id,
            count-append m.id (shown_of r.lines) (m ∷ ms),
            ok m.id,
            text_eq_refl m.id,
          ))
      | inr p ↦ p
    ] in
    let shows : shown_of (append m r).lines ≡ shown_of r.lines ++ m ∷ [] =
      rw new (shown_of-append r.lines _) in
    let all : shown_of (append m r).lines ++ ms ≡ shown_of r.lines ++ m ∷ ms =
      rw shows (append_assoc (shown_of r.lines) (m ∷ []) ms) in
    append_all-new ms (append m r) (append-IsConsistent m r ok) (rw all h) ∙ all

add_loaded-shown :
    (ms : List ChatMessage) (r : Room) → shown_of (add_loaded ms r).lines ≡ shown_of r.lines
unfolding add_loaded
add_loaded-shown [] r = refl
add_loaded-shown (m ∷ ms) r = (add_system-Kept _ r).lines

start-shown :
    (conv self : Text) (history : List ChatMessage)
    → AreDistinct history
    → shown_of (start conv self history).lines ≡ history
unfolding start add_system has_message
start-shown conv self history h =
    let greeted : Room = add_system logged_in (empty_room conv self) in
    add_loaded-shown history (append_all history greeted)
    ∙ append_all-new history greeted (λ id. refl) h

append-queued : (m : ChatMessage) (r : Room) → (append m r).queued ≡ r.queued
unfolding append
append-queued m r =
    if_cases (λ (t : Room). t.queued ≡ r.queued) (has_message m.id r.seen) _ _ (λ p. refl)
      (λ p. refl)

append_all-queued : (ms : List ChatMessage) (r : Room) → (append_all ms r).queued ≡ r.queued
unfolding append_all
append_all-queued [] r = refl
append_all-queued (m ∷ ms) r = append_all-queued ms (append m r) ∙ append-queued m r

loaded_idle :
    (ms : List ChatMessage) (r : Room)
    → r.running ≡ none
    → r.queued ≡ 0
    → ((add_loaded ms r).running ≡ none) × ((add_loaded ms r).queued ≡ 0)
unfolding add_loaded add_system
loaded_idle [] r e q = (e, q)
loaded_idle (m ∷ ms) r e q = (e, q)

start_idle :
    (conv self : Text) (history : List ChatMessage)
    → ((start conv self history).running ≡ none) × ((start conv self history).queued ≡ 0)
unfolding start add_system
start_idle conv self history =
    loaded_idle history (append_all history (add_system logged_in (empty_room conv self)))
      (append_all-running history (add_system logged_in (empty_room conv self)))
      (append_all-queued history (add_system logged_in (empty_room conv self)))

-- The sync that onReady asks for, in a room where none runs or waits.
abbrev pub one_sync : List ChatMessage → List Move
one_sync page = ready ∷ begins ∷ answers (some page) ∷ []

one_sync-shown :
    (page : List ChatMessage) (r : Room)
    → r.running ≡ none
    → r.queued ≡ 0
    → IsConsistent r
    → AreDistinct (shown_of r.lines ++ page)
    → let r' = run (one_sync page) r in
      (shown_of r'.lines ≡ shown_of r.lines ++ page) × (r'.running ≡ none) × (r'.queued ≡ 0)
unfolding run step sync begin_sync begin_next answer_sync take_page
one_sync-shown page r idle empty ok h =
    rw (idle, empty, begin_sync, begin_next, answer_sync, take_page)
      (
        append_all-new page idle_room ok h,
        append_all-running page idle_room,
        append_all-queued page idle_room,
      )
  where
    idle_room : Room
    idle_room = record r {
      running = none;
      queued = 0;
      asked = r.asked ++ (r.last_sequence, 200) ∷ [];
    }

one_sync-AllGood :
    (page : List ChatMessage) (r : Room)
    → r.running ≡ none
    → Ascending r.last_sequence page
    → AllGood r (one_sync page)
unfolding step sync begin_sync begin_next
one_sync-AllGood page r idle up = (tt, (tt, (rw idle up, tt)))

-- `k` syncs, each asked for by onReady or an event, and answered by the server before anything else comes.
unfoldable pub served : List ChatMessage → ℕ → Room → Room
served log zero r = r
served log (suc k) r = served log k (run (one_sync (take 200 (newer r.last_sequence log))) r)

-- The room shows the first `n` messages of a log, and no request is out or waits.
record Shows (log : List ChatMessage) (n : ℕ) (r : Room) : Type 0 where
  pub lines : shown_of r.lines ≡ take n log
  pub idle : r.running ≡ none
  pub empty : r.queued ≡ 0
  pub consistent : IsConsistent r
  pub tidy : IsTidy r

take-AreDistinct : (n : ℕ) (log : List ChatMessage) → AreDistinct log → AreDistinct (take n log)
take-AreDistinct n log h id = omega (arith, count-take id n log, h id)

module _ (log : List ChatMessage) (up : Ascending (pos 0) log) (distinct : AreDistinct log) where
  rest_of : (n : ℕ) (r : Room) → Shows log n r → newer r.last_sequence log ≡ drop n log
  rest_of n r h =
      let whole : newer (pos 0) log ≡ log = newer_all (pos 0) (pos 0) log (omega arith) up in
      let last : last_of (pos 0) (take n log) ≡ r.last_sequence =
        ap (last_of (pos 0)) (sym h.lines) ∙ h.tidy.rising.reaches in
      ap (λ s. newer s log) (sym last) ∙ rw whole at (newer_rest (pos 0) (pos 0) n log up)

  one_sync-Shows :
      (n : ℕ) (r : Room)
      → Shows log n r
      → Shows log (n + 200) (run (one_sync (take 200 (newer r.last_sequence log))) r)
  one_sync-Shows n r h =
      let page = take 200 (newer r.last_sequence log) in
      let both : shown_of r.lines ++ page ≡ take (n + 200) log =
        rw (h.lines, rest_of n r h) (sym (take-add n 200 (n + 200) log (omega arith))) in
      let page_up =
        Ascending-take 200 r.last_sequence (newer r.last_sequence log)
          (newer-Ascending (pos 0) r.last_sequence log up) in
      let (e, i, q) =
        one_sync-shown page r h.idle h.empty h.consistent
          (rw both (take-AreDistinct (n + 200) log distinct)) in
      record {
        lines = e ∙ both;
        idle = i;
        empty = q;
        consistent = run-IsConsistent (one_sync page) r h.consistent;
        tidy = run-IsTidy (one_sync page) r (one_sync-AllGood page r h.idle page_up) h.tidy;
      }

  served-Shows :
      (k n m : ℕ) (r : Room) → Shows log n r → m ≡ n + 200 * k → Shows log m (served log k r)
  unfolding served
  served-Shows zero n m r h e = let same : m ≡ n = omega arith in rw same h
  served-Shows (suc k) n m r h e =
      served-Shows k (n + 200) m (run (one_sync (take 200 (newer r.last_sequence log))) r)
        (one_sync-Shows n r h) (omega arith)

  start-Shows : (conv self : Text) → Shows log 200 (start conv self (take 200 log))
  start-Shows conv self =
      let history = take 200 log in
      let (idle, empty) = start_idle conv self history in
      record {
        lines = start-shown conv self history (take-AreDistinct 200 log distinct);
        idle = idle;
        empty = empty;
        consistent = start-IsConsistent conv self history;
        tidy = start-IsTidy conv self history (Ascending-take 200 (pos 0) log up);
      }

-- Over a log in order with distinct ids, of which the history brought the first 200 messages, and after `k`
-- syncs that are each answered before anything else comes: what is shown are the first 200 * (k + 1)
-- messages, in order, and no request is out or waits, however long the log is.
pub pages_shown :
    (conv self : Text) (log : List ChatMessage) (k : ℕ)
    → Ascending (pos 0) log
    → AreDistinct log
    → let r = served log k (start conv self (take 200 log)) in
      (shown_of r.lines ≡ take (200 * suc k) log) × (r.running ≡ none) × (r.queued ≡ 0)
pages_shown conv self log k up distinct =
    let h =
      served-Shows log up distinct k 200 (200 * suc k) (start conv self (take 200 log))
        (start-Shows log up distinct conv self) (omega arith) in
    (h.lines, h.idle, h.empty)
