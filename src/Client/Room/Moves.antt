-- ===== src/Client/Room/Moves.antt =====
-- What each step leaves of the messages shown: most leave all of it as it is.
use airway_im_plugin.Base.{
  ◌≡◌, refl, ap, Option, none, some, List, [], ◌∷◌, ◌++◌, append-nil, if_cases,
}
use airway_im_plugin.Text.{text, text_eq}
use airway_im_plugin.Sync.{ChatMessage, GatewayEvent}
use airway_im_plugin.Client.Room.{
  Room, Notice, Line, shown, notice, elsewhere, masked, add_system, append, sync, begin_sync,
  answer_sync, on_event, replace_first, after_send, Move, ready, event, failed, begins, answers,
  moderated, sent, step, shown_of,
}

pub shown_of-append : (ls ks : List Line) → shown_of (ls ++ ks) ≡ shown_of ls ++ shown_of ks
shown_of-append [] ks = refl
shown_of-append (shown m ∷ ls) ks = ap (◌∷◌ m) (shown_of-append ls ks)
shown_of-append (notice n ∷ ls) ks = shown_of-append ls ks

-- The same messages shown, the same state of the syncs that run, and the same sequence reached.
pub record Kept (r r' : Room) : Type 0 where
  pub seen : r'.seen ≡ r.seen
  pub last_sequence : r'.last_sequence ≡ r.last_sequence
  pub running : r'.running ≡ r.running
  pub lines : shown_of r'.lines ≡ shown_of r.lines

pub add_system-Kept : (n : Notice) (r : Room) → Kept r (add_system n r)
unfolding add_system
add_system-Kept n r = record {
  seen = refl;
  last_sequence = refl;
  running = refl;
  lines = rw shown_of-append (append-nil (shown_of r.lines));
}

same-Kept : (r : Room) → Kept r r
same-Kept r = record { seen = refl; last_sequence = refl; running = refl; lines = refl }

replace_first-Kept : (ms : List ChatMessage) (r : Room) → Kept r (replace_first ms r)
unfolding replace_first
replace_first-Kept [] r = same-Kept r
replace_first-Kept (m ∷ ms) r = add_system-Kept (masked m) r

on_event-Kept : (ev : GatewayEvent) (r : Room) → Kept r (on_event ev r)
unfolding on_event sync
on_event-Kept ev r =
    if_cases (Kept r) (text_eq ev.conversation_id r.conversation) _ _
      (λ p.
        if_cases (Kept r) (text_eq ev.event (text "message.created")) _ _
          (λ q. record { seen = refl; last_sequence = refl; running = refl; lines = refl })
          (λ q.
            if_cases (Kept r) (text_eq ev.event (text "message.moderated")) _ _
              (λ t. record { seen = refl; last_sequence = refl; running = refl; lines = refl })
              (λ t.
                if_cases (Kept r) (text_eq ev.event (text "conversation.member_added")) _ _
                  (λ u. add_system-Kept _ r)
                  (λ u.
                    if_cases (Kept r) (text_eq ev.event (text "conversation.member_removed")) _ _
                      (λ w. add_system-Kept _ r) (λ w. same-Kept r)))))
      (λ p. add_system-Kept (elsewhere ev.conversation_id) r)

-- A statement about a step, by what it does to the messages shown.
pub step_cases :
    (P : Room → Type 0) (v : Move) (r : Room)
    → ((r' : Room) → Kept r r' → P r')
    → P (begin_sync r)
    → ((page : Option (List ChatMessage)) → v ≡ answers page → P (answer_sync page r))
    → ((m : ChatMessage) → v ≡ sent (some m) → P (append m r))
    → P (step v r)
unfolding step sync after_send
step_cases P ready r kept begun answered own =
    kept _ (record { seen = refl; last_sequence = refl; running = refl; lines = refl })
step_cases P (event ev) r kept begun answered own = kept _ (on_event-Kept ev r)
step_cases P failed r kept begun answered own = kept _ (add_system-Kept _ r)
step_cases P begins r kept begun answered own = begun
step_cases P (answers page) r kept begun answered own = answered page refl
step_cases P (moderated page) r kept begun answered own = kept _ (replace_first-Kept page r)
step_cases P (sent none) r kept begun answered own = kept _ (add_system-Kept _ r)
step_cases P (sent (some m)) r kept begun answered own = own m refl
