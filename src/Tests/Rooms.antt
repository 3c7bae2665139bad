-- ===== src/Tests/Rooms.antt =====
-- The demo client's conversation at concrete inputs.
use airway_im_plugin.Base.{
  ◌≡◌, ◌≤◌, ◌*◌, refl, false, none, some, List, [], ◌∷◌, arith, take, if◌then◌else◌,
}
use airway_im_plugin.Base.Int.{pos}
use airway_im_plugin.Text.{Text, text, text_eq, text_eq_iff, text_eq_refl}
use airway_im_plugin.Sync.{ChatMessage}
use airway_im_plugin.Sync.Fetch.Order.{Ascending, last_of}
use airway_im_plugin.Client.Room.{
  Room, Move, ready, event, begins, answers, sent, step, run, start, shown_of, has_message, append,
  append_all, add_loaded, add_system, sync, begin_sync, begin_next, answer_sync, take_page,
  on_event,
}
use airway_im_plugin.Client.Room.Once.{count, shown_once, start-IsConsistent}
use airway_im_plugin.Client.Room.Ordered.{shown_in_order}
use airway_im_plugin.Client.Room.Missed.{own_send_hides}
use airway_im_plugin.Client.Room.Pages.{AreDistinct, served, pages_shown}
use airway_im_plugin.Tests.Fixtures.{room, message, created_event, log, log-Ascending}

abbrev alice : Text
alice = text "u1"

abbrev first : ChatMessage
first = message (text "a") 1

abbrev second : ChatMessage
second = message (text "b") 2

abbrev third : ChatMessage
third = message (text "c") 4

-- The gateway is ready, its sync brings a message again and a new one, and an event comes for the next.
abbrev chat : List Move
chat =
    ready
    ∷ begins
    ∷ answers (some (second ∷ []))
    ∷ event (created_event 4)
    ∷ begins
    ∷ answers (some (third ∷ []))
    ∷ []

test_chat :
    let r = run chat (start room alice (first ∷ [])) in
    (shown_of r.lines ≡ log)
    × (r.asked ≡ (pos 0, 200) ∷ (pos 1, 200) ∷ (pos 2, 200) ∷ [])
    × (r.running ≡ none)
unfolding run step start append append_all add_loaded add_system has_message sync begin_sync
    begin_next answer_sync take_page on_event text_eq
test_chat = (refl, refl, refl)

shown_once_example :
    let r = run chat (start room alice (first ∷ [])) in
    (count (text "b") (shown_of r.lines) ≤ 1)
    × (count (text "b") (shown_of r.lines) ≡ (if has_message (text "b") r.seen then 1 else 0))
shown_once_example = shown_once room alice (first ∷ []) chat (text "b")

abbrev early : List Move
early = ready ∷ begins ∷ answers (some (second ∷ third ∷ [])) ∷ []

shown_in_order_example :
    let r = run early (start room alice (first ∷ [])) in
    Ascending (pos 0) (shown_of r.lines) × (last_of (pos 0) (shown_of r.lines) ≡ r.last_sequence)
unfolding start append append_all add_loaded add_system has_message step sync begin_sync begin_next
shown_in_order_example =
    shown_in_order room alice (first ∷ []) early (omega arith) (tt, (tt, (omega arith, tt)))

-- The user's own message has come before the sync that the second message asked for.
abbrev opened : Room
opened = start room alice (first ∷ [])

abbrev afterwards : List Move
afterwards = event (created_event 2) ∷ begins ∷ answers (some []) ∷ []

own_send_hides_example :
    count (text "b") (shown_of (run afterwards (step (sent (some third)) opened)).lines) ≡ 0
unfolding start append append_all add_loaded add_system has_message text_eq
own_send_hides_example =
    own_send_hides second third opened afterwards (start-IsConsistent room alice (first ∷ [])) refl
      refl refl refl (omega arith) (tt, (tt, ((tt, λ after e. tt), tt)))

ids_apart :
    (text_eq (text "a") (text "b") ≡ false)
    × (text_eq (text "a") (text "c") ≡ false)
    × (text_eq (text "b") (text "c") ≡ false)
unfolding text_eq
ids_apart = (refl, refl, refl)

log-AreDistinct : AreDistinct log
log-AreDistinct id = ground (
  arith,
  text_eq_iff (text "a") id,
  text_eq_iff (text "b") id,
  text_eq_iff (text "c") id,
  ids_apart,
  text_eq_refl id,
)

pages_shown_example :
    let r = served log 3 (start room alice (take 200 log)) in
    (shown_of r.lines ≡ take (200 * 4) log) × (r.running ≡ none) × (r.queued ≡ 0)
pages_shown_example = pages_shown room alice log 3 log-Ascending log-AreDistinct
