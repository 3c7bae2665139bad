-- ===== src/Client/Room.antt =====
-- The conversation that the demo client shows (install/ignore/client/src/main.ts: append, sync, and the
-- callbacks in `main`). Its requests are steps of their own, as their answers come later; a sync waits
-- for the one before it.
pub mod Moves
pub mod Once
pub mod Ordered
pub mod Missed
pub mod Pages
use airway_im_plugin.Base.{
  ℕ, zero, suc, ◌-◌, Bool, false, ◌||◌, Option, none, some, List, [], ◌∷◌, ◌++◌, if◌then◌else◌,
  get_or, length,
}
use airway_im_plugin.Base.Int.{ℤ, pos, max_ℤ, ◌-ℤ◌}
use airway_im_plugin.Text.{Text, text, text_eq}
use airway_im_plugin.Sync.{ChatMessage, GatewayEvent}

-- What ui.addSystem is told; `masked` comes by replaceMessage.
pub data Notice : Type 0 where
  logged_in : Notice
  loaded : ℕ → Notice
  elsewhere : Text → Notice
  masked : ChatMessage → Notice
  joined : List Text → Notice
  removed_self : Notice
  removed : Option Text → Notice
  sync_failed : Notice
  send_failed : Notice
  gateway_error : Notice

-- What the screen is told to add, by addMessage or addSystem.
pub data Line : Type 0 where
  shown : ChatMessage → Line
  notice : Notice → Line

-- `running` is the sequence after which the sync that waits for its answer has asked, and `queued` counts
-- the syncs behind it. `asked` are the requests of listMessages so far: the sequence and the limit.
pub record Room : Type 0 where
  pub conversation : Text
  pub self : Text
  pub seen : List Text
  pub last_sequence : ℤ
  pub running : Option ℤ
  pub queued : ℕ
  pub asked : List (ℤ × ℕ)
  pub lines : List Line

-- seenMessages.has(id)
unfoldable pub has_message : Text → List Text → Bool
has_message id [] = false
has_message id (i ∷ is) = text_eq i id || has_message id is

-- ui.addSystem
unfoldable pub add_system : Notice → Room → Room
add_system n r = record r { lines = r.lines ++ notice n ∷ [] }

-- append(msg)
unfoldable pub append : ChatMessage → Room → Room
append m r = if has_message m.id r.seen then r else record r {
  seen = m.id ∷ r.seen;
  last_sequence = max_ℤ r.last_sequence m.sequence;
  lines = r.lines ++ shown m ∷ [];
}

-- for (const msg of missed) append(msg)
unfoldable pub append_all : List ChatMessage → Room → Room
append_all [] r = r
append_all (m ∷ ms) r = append_all ms (append m r)

-- `if (history.length > 0)`
unfoldable pub add_loaded : List ChatMessage → Room → Room
add_loaded [] r = r
add_loaded (m ∷ ms) r = add_system (loaded (length (m ∷ ms))) r

-- The state before the history is shown: it has been asked for.
abbrev pub empty_room : Text → Text → Room
empty_room conv self = record {
  conversation = conv;
  self = self;
  seen = [];
  last_sequence = pos 0;
  running = none;
  queued = 0;
  asked = (pos 0, 200) ∷ [];
  lines = [];
}

-- `main` from the history's answer on.
unfoldable pub start : Text → Text → List ChatMessage → Room
unfolding add_loaded add_system
start conv self history =
    add_loaded history (append_all history (add_system logged_in (empty_room conv self)))

-- sync()
unfoldable pub sync : Room → Room
sync r = record r { queued = suc r.queued }

-- The beginning of a sync, when the one before it has ended.
unfoldable pub begin_next : Option ℤ → ℕ → Room → Room
begin_next none (suc n) r = record r {
  running = some r.last_sequence;
  queued = n;
  asked = r.asked ++ (r.last_sequence, 200) ∷ [];
}
begin_next _ _ r = r

unfoldable pub begin_sync : Room → Room
unfolding begin_next
begin_sync r = begin_next r.running r.queued r

-- The answer to the running sync, `none` where the request is refused.
unfoldable pub take_page : Option ℤ → Option (List ChatMessage) → Room → Room
take_page none page r = r
take_page (some after) none r = add_system sync_failed (record r { running = none })
take_page (some after) (some page) r = append_all page (record r { running = none })

unfoldable pub answer_sync : Option (List ChatMessage) → Room → Room
unfolding take_page add_system
answer_sync page r = take_page r.running page r

-- Math.max(0, (event.sequence ?? 1) - 1)
abbrev pub before_event : Option ℤ → ℤ
before_event s = max_ℤ (pos 0) (get_or s (pos 1) -ℤ pos 1)

is_self : Option Text → Text → Bool
is_self none self = false
is_self (some id) self = text_eq id self

-- onEvent(event). refreshTitle is the screen's title, which is not kept here.
unfoldable pub on_event : GatewayEvent → Room → Room
unfolding is_self add_system
on_event ev r =
    if text_eq ev.conversation_id r.conversation
    then (if text_eq ev.event (text "message.created")
        then sync r
        else if text_eq ev.event (text "message.moderated")
        then record r { asked = r.asked ++ (before_event ev.sequence, 1) ∷ [] }
        else if text_eq ev.event (text "conversation.member_added")
        then add_system (joined (get_or ev.added_user_uuids [])) r
        else if text_eq ev.event (text "conversation.member_removed")
        then add_system
            (if is_self ev.removed_user_uuid r.self
              then removed_self
              else removed ev.removed_user_uuid)
            r
        else r)
    else add_system (elsewhere ev.conversation_id) r

-- The answer to the request after a moderation: `if (msgs[0])`
replace_first : List ChatMessage → Room → Room
replace_first [] r = r
replace_first (m ∷ ms) r = add_system (masked m) r

-- What may happen next: the gateway's callbacks onReady, onEvent and onError, a sync begins, and the answers
-- to a sync, to the request after a moderation and to sendMessage (`none` where it is refused).
pub data Move : Type 0 where
  ready : Move
  event : GatewayEvent → Move
  failed : Move
  begins : Move
  answers : Option (List ChatMessage) → Move
  moderated : List ChatMessage → Move
  sent : Option ChatMessage → Move

unfoldable pub after_send : Option ChatMessage → Room → Room
after_send none r = add_system send_failed r
after_send (some m) r = append m r

unfoldable pub step : Move → Room → Room
unfolding sync on_event replace_first after_send add_system
step ready r = sync r
step (event ev) r = on_event ev r
step failed r = add_system gateway_error r
step begins r = begin_sync r
step (answers page) r = answer_sync page r
step (moderated page) r = replace_first page r
step (sent reply) r = after_send reply r

unfoldable pub run : List Move → Room → Room
run [] r = r
run (v ∷ vs) r = run vs (step v r)

-- The messages among the lines.
abbrev pub shown_of : List Line → List ChatMessage
shown_of [] = []
shown_of (shown m ∷ ls) = m ∷ shown_of ls
shown_of (notice n ∷ ls) = shown_of ls
