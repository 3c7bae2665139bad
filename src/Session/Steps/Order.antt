-- ===== src/Session/Steps/Order.antt =====
-- The order in which the session tells a listener the messages of a conversation, over a history of
-- its own methods, the gateway's callbacks, the engine's tasks and the server's answers.
pub mod Callbacks
pub mod Moves
pub mod History
use airway_im_plugin.Base.{
  ℕ, zero, ◌≡◌, refl, ◌∙◌, ap, Option, none, some, List, [], ◌++◌, arith, append_assoc,
}
use airway_im_plugin.Base.Int.{◌≤ℤ◌}
use airway_im_plugin.Text.{Text, text_eq}
use airway_im_plugin.Dict
use airway_im_plugin.Dict.{Dict}
use airway_im_plugin.Gateway
use airway_im_plugin.Sync.{ChatMessage}
use airway_im_plugin.Sync.Fetch.Order.{
  Ascending, Ascending-append, Ascending-weaken, last_of, last_of-append, last_of-mono,
}
use airway_im_plugin.Sync.Queue.{Machine}
use airway_im_plugin.Sync.Events
use airway_im_plugin.Sync.Events.Cursor.{cursor, IsOrderly}
use airway_im_plugin.Sync.Events.Cursor.Once.{IsGoodMove, step-Advances}
use airway_im_plugin.Emitter.{Delivery, listeners_of, then_call}
use airway_im_plugin.Emitter.Calm.{heard, heard-append}
use airway_im_plugin.Emitter.Sets.{NoRepeat}
use airway_im_plugin.Session.{AirwayIm, new, message_event}
use airway_im_plugin.Session.Calm.{Word, Adds, Adds-nothing, silence, logged}
use airway_im_plugin.Session.Steps
use airway_im_plugin.Session.Steps.{Move}
use airway_im_plugin.Session.Steps.Delivers.{of_conversation, of_conversation-append, tells}

-- A session whose engine is orderly, and whose "message" listeners stand once each.
pub record IsFit (s : AirwayIm) : Type 0 where
  pub orderly : IsOrderly s.sync
  pub set : NoRepeat (listeners_of message_event s.listeners)

-- What a listener is told of a conversation's messages in calls.
abbrev pub told_of : Text → ℕ → List Delivery → List ChatMessage
told_of conv l log = of_conversation conv (heard none message_event l log)

-- From `s` to an outcome that is a fit session: the messages told on the way rise from the cursor,
-- which then stands at least at the last of them.
pub record Goes (conv : Text) (l : ℕ) (s : AirwayIm) (out : Option AirwayIm) : Type 0 where
  pub after : AirwayIm
  pub new_calls : List Delivery
  pub comes : out ≡ some after
  pub logs : after.log ≡ s.log ++ new_calls
  pub fit : IsFit after
  pub rises : Ascending (cursor conv s.sync) (told_of conv l new_calls)
  pub reaches : last_of (cursor conv s.sync) (told_of conv l new_calls) ≤ℤ cursor conv after.sync

-- The same log, engine and listeners.
pub record Same (s s' : AirwayIm) : Type 0 where
  pub log : s'.log ≡ s.log
  pub sync : s'.sync ≡ s.sync
  pub listeners : s'.listeners ≡ s.listeners

pub Same-IsFit : (s s' : AirwayIm) → Same s s' → IsFit s → IsFit s'
Same-IsFit s s' h fit = record { orderly = rw h.sync fit.orderly; set = rw h.listeners fit.set }

module _ (conv : Text) (l : ℕ) where
  told_of-append :
      (a b : List Delivery) → told_of conv l (a ++ b) ≡ told_of conv l a ++ told_of conv l b
  told_of-append a b =
      rw (heard-append none message_event l a b)
        (of_conversation-append conv (heard none message_event l a) (heard none message_event l b))

  pub Goes-then :
      (s : AirwayIm) (out : Option AirwayIm) (f : AirwayIm → Option AirwayIm)
      → Goes conv l s out
      → ((s' : AirwayIm) → out ≡ some s' → IsFit s' → Goes conv l s' (f s'))
      → Goes conv l s (then_call out f)
  Goes-then s out f h k =
      let h' = k h.after h.comes h.fit in
      let start = cursor conv s.sync in
      let later =
        Ascending-weaken (last_of start (told_of conv l h.new_calls)) (cursor conv h.after.sync) _
          h.reaches h'.rises in
      let far =
        last_of-mono (last_of start (told_of conv l h.new_calls)) (cursor conv h.after.sync)
          (told_of conv l h'.new_calls) h.reaches in
      record {
        after = h'.after;
        new_calls = h.new_calls ++ h'.new_calls;
        comes = rw h.comes h'.comes;
        logs = rw (h'.logs, h.logs) (append_assoc s.log h.new_calls h'.new_calls);
        fit = h'.fit;
        rises = rw told_of-append (Ascending-append start _ _ h.rises later);
        reaches = rw (told_of-append, last_of-append) (omega (arith, far, h'.reaches));
      }

  -- Calls added after a change that does not touch the log.
  pub Adds-Goes :
      (s s' : AirwayIm) (w : Word) (out : Option AirwayIm) (ms : List ChatMessage)
      → s'.log ≡ s.log
      → IsFit s'
      → of_conversation conv (tells l w) ≡ ms
      → Ascending (cursor conv s.sync) ms
      → last_of (cursor conv s.sync) ms ≤ℤ cursor conv s'.sync
      → Adds s' w out
      → Goes conv l s out
  unfolding text_eq
  Adds-Goes s s' w out ms same fit e up far (new, comes, h) =
      let told : told_of conv l new ≡ ms =
        ap (of_conversation conv) (h none message_event l refl) ∙ e in
      record {
        after = logged s' new;
        new_calls = new;
        comes = comes;
        logs = ap (λ (log : List Delivery). log ++ new) same;
        fit = record { orderly = fit.orderly; set = fit.set };
        rises = rw told up;
        reaches = rw told far;
      }

  -- A change that tells nothing.
  pub stays :
      (s s' : AirwayIm)
      → s'.log ≡ s.log
      → IsFit s'
      → cursor conv s.sync ≤ℤ cursor conv s'.sync
      → Goes conv l s (some s')
  stays s s' same fit far =
      Adds-Goes s s' silence (some s') [] same fit refl tt far (Adds-nothing s')

  -- A change of neither the log, the engine nor the listeners.
  pub same-Goes :
      (s s' : AirwayIm) (out : Option AirwayIm) → Same s s' → Goes conv l s' out → Goes conv l s out
  same-Goes s s' out h g = record {
    after = g.after;
    new_calls = g.new_calls;
    comes = g.comes;
    logs = g.logs ∙ ap (λ (log : List Delivery). log ++ g.new_calls) h.log;
    fit = g.fit;
    rises = rw h.sync at g.rises;
    reaches = rw h.sync at g.reaches;
  }

  pub same-stays : (s s' : AirwayIm) → Same s s' → IsFit s → Goes conv l s (some s')
  same-stays s s' h fit = stays s s' h.log (Same-IsFit s s' h fit) (rw h.sync (omega arith))

  -- A move of the engine that has no outputs.
  pub engine-stays :
      (v : Events.Move) (s : AirwayIm) (m : Machine)
      → IsGoodMove s.sync v
      → Events.step v s.sync ≡ (m, [])
      → IsFit s
      → Goes conv l s (some (record s { sync = m }))
  engine-stays v s m g e fit =
      let (orderly, far) = step-Advances v s.sync g fit.orderly in
      stays s (record s { sync = m }) refl (record { orderly = rw e at orderly; set = fit.set })
        (rw e at (far conv).reaches)

  pub keeps : (s : AirwayIm) → IsFit s → Goes conv l s (some s)
  keeps s fit = stays s s refl fit (omega arith)
