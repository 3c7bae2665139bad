-- ===== src/Sync/Events/Ignored.antt =====
-- Which message events the engine acts on, and which it drops.
use airway_im_plugin.Base.{◌≡◌, refl, true, false, none, some, Option, arith, ◌⊎◌, inl, inr}
use airway_im_plugin.Base.Int.{ℤ, ◌≤ℤ◌, ◌<ℤ◌}
use airway_im_plugin.Sync.{GatewayEvent, track, is_tracked, last_sequence}
use airway_im_plugin.Sync.Tracking.{track_monotone}
use airway_im_plugin.Sync.Fetch.{no_options, ListMessages, run_fetch, begin}
use airway_im_plugin.Sync.Fetch.Order.{
  Ascending, Ascending-weaken, IsOrdered, fetch_pages-Ascending,
}
use airway_im_plugin.Sync.Queue.{Machine, tracks}
use airway_im_plugin.Sync.Events.{is_applied, handle_message_event, fetch_from}

-- An event of a tracked conversation whose sequence is above the last-seen one, or which has no
-- sequence, puts exactly one fetch with default options behind the conversation's queue.
handle_message_event-fetches :
    (ev : GatewayEvent) (m : Machine)
    → is_tracked ev.conversation_id m.engine ≡ true
    → ((s : ℤ) → ev.sequence ≡ some s → last_sequence ev.conversation_id m.engine <ℤ s)
    → handle_message_event ev m ≡ fetch_from ev.conversation_id no_options m
unfolding handle_message_event is_applied
handle_message_event-fetches ev m t h = go ev.sequence h
  where
    go :
        (s : Option ℤ)
        → ((t : ℤ) → s ≡ some t → last_sequence ev.conversation_id m.engine <ℤ t)
        → handle_message_event (record ev { sequence = s }) m
          ≡ fetch_from ev.conversation_id no_options m
    go none k = ground arith
    go (some s) k = ground (arith, k s refl)

-- An event of an untracked conversation, and one that is not above the last-seen sequence, change
-- nothing.
handle_message_event-drops :
    (ev : GatewayEvent) (m : Machine)
    → (is_tracked ev.conversation_id m.engine ≡ false)
      ⊎ ((s : ℤ) × (ev.sequence ≡ some s) × (s ≤ℤ last_sequence ev.conversation_id m.engine))
    → handle_message_event ev m ≡ m
unfolding handle_message_event is_applied
handle_message_event-drops ev m (inl u) = rw u
handle_message_event-drops ev m (inr (s, e, h)) = ground arith

-- Once the session has tracked the sequence of its own message, the event of any message at or below it is
-- dropped, and a fetch with default options that begins then, from an endpoint that keeps its order, emits only
-- messages above it: whether those below had been emitted or not.
pub sent_hides :
    {W : Type 0} (list_messages : ListMessages W) (ev : GatewayEvent) (m : Machine) (s own : ℤ)
    (w : W)
    → IsOrdered list_messages
    → ev.sequence ≡ some s
    → s ≤ℤ own
    → let conv = ev.conversation_id in
      let m' = tracks conv own m in
      (handle_message_event ev m' ≡ m')
      × Ascending own (run_fetch list_messages conv no_options m'.engine w).1.emitted
unfolding tracks run_fetch begin
sent_hides list_messages ev m s own w ordered e h =
    let conv = ev.conversation_id in
    let past = (track_monotone conv conv own m.engine).1 in
    let r = begin conv no_options (track conv own m.engine) in
    (
      handle_message_event-drops ev (tracks conv own m) (inr (s, e, omega arith)),
      Ascending-weaken own r.from _ past (fetch_pages-Ascending list_messages ordered 10 r w),
    )
