-- ===== src/Session/Steps/Ends.antt =====
-- A property of the session that its log, its status, its engine and its registry of kinds have no part
-- in: it outlasts the callbacks, which come to an end where the "error" listeners do not throw.
pub mod Loose
pub mod Runs
use airway_im_plugin.Base.{ℕ, suc, ◌≡◌, refl, Bool, Option, some, List, [], ◌∷◌}
use airway_im_plugin.Text.{text}
use airway_im_plugin.Json.{Json}
use airway_im_plugin.Dict.{Dict}
use airway_im_plugin.Gateway.{Effect, Status}
use airway_im_plugin.Gateway
use airway_im_plugin.Sync.{GatewayEvent}
use airway_im_plugin.Sync.Queue.{Machine, Output}
use airway_im_plugin.Sync.Events.{resync_all}
use airway_im_plugin.Emitter.{Delivery, then_call, error_event, raised}
use airway_im_plugin.Emitter
use airway_im_plugin.Emitter.Calm.{IsCalm}
use airway_im_plugin.Session.{AirwayIm, Kind}
use airway_im_plugin.Session.Calm.{Word, Adds, logged, emitting-Adds}
use airway_im_plugin.Session.Events.{callback, callbacks, report_error, on_outputs}
use airway_im_plugin.Session.Events.Routing.{handle_event-Adds}
use airway_im_plugin.Session.Steps.Delivers.{on_outputs-Adds}

-- The outcome is a session with the property.
abbrev pub EndsIn : (AirwayIm → Type 0) → Option AirwayIm → Type 0
EndsIn P out = (s : AirwayIm) × (out ≡ some s) × P s

-- What the callbacks change may be anything.
pub record IsFree (P : AirwayIm → Type 0) : Type 0 where
  pub log : (s : AirwayIm) (log : List Delivery) → P s → P (record s { log = log })
  pub status : (s : AirwayIm) (st : Status) → P s → P (record s { status = st })
  pub sync : (s : AirwayIm) (m : Machine) → P s → P (record s { sync = m })
  pub kinds : (s : AirwayIm) (d : Dict Kind) → P s → P (record s { conversation_kinds = d })

pub EndsIn-then :
    (P : AirwayIm → Type 0) (out : Option AirwayIm) (f : AirwayIm → Option AirwayIm)
    → EndsIn P out
    → ((s : AirwayIm) → P s → EndsIn P (f s))
    → EndsIn P (then_call out f)
EndsIn-then P out f (s, e, h) k = let (s', e', h') = k s h in (s', rw e e', h')

module _ (throws : List Delivery → Delivery → Bool) (fuel : ℕ) (calm : IsCalm throws)
    (P : AirwayIm → Type 0) (free : IsFree P) where
  Adds-EndsIn :
      (s : AirwayIm) (w : Word) (out : Option AirwayIm) → P s → Adds s w out → EndsIn P out
  Adds-EndsIn s w out h (new, e, told) = (logged s new, e, free.log s _ h)

  pub report_error-EndsIn : (s : AirwayIm) → P s → EndsIn P (report_error throws (suc (suc fuel)) s)
  unfolding report_error
  report_error-EndsIn s h =
      Adds-EndsIn s _ _ h (emitting-Adds throws fuel calm error_event raised s)

  callback-EndsIn :
      (cast : Json → GatewayEvent) (x : Effect) (s : AirwayIm)
      → P s
      → EndsIn P (callback throws (suc (suc fuel)) cast x s)
  unfolding callback
  callback-EndsIn cast (Gateway.status st) s h =
      Adds-EndsIn (record s { status = st }) _ _ (free.status s st h)
        (emitting-Adds throws fuel calm (text "status") (Emitter.status st)
          (record s { status = st }))
  callback-EndsIn cast (Gateway.event f) s h =
      Adds-EndsIn _ _ _ (free.kinds _ _ (free.sync s _ h))
        (handle_event-Adds throws fuel calm (cast f) s)
  callback-EndsIn cast Gateway.ready s h =
      (record s { sync = resync_all s.sync }, refl, free.sync s _ h)
  callback-EndsIn cast Gateway.auth_failed s h = report_error-EndsIn s h
  callback-EndsIn cast Gateway.refresh_failed s h = report_error-EndsIn s h
  callback-EndsIn cast (Gateway.opens _) s h = (s, refl, h)
  callback-EndsIn cast (Gateway.sends _ _) s h = (s, refl, h)
  callback-EndsIn cast (Gateway.closes _) s h = (s, refl, h)
  callback-EndsIn cast (Gateway.sets_timeout _ _) s h = (s, refl, h)
  callback-EndsIn cast (Gateway.sets_interval _ _) s h = (s, refl, h)
  callback-EndsIn cast (Gateway.clears _) s h = (s, refl, h)
  callback-EndsIn cast Gateway.asks_credential s h = (s, refl, h)
  callback-EndsIn cast Gateway.throws s h = (s, refl, h)

  pub callbacks-EndsIn :
      (cast : Json → GatewayEvent) (xs : List Effect) (s : AirwayIm)
      → P s
      → EndsIn P (callbacks throws (suc (suc fuel)) cast xs s)
  unfolding callbacks
  callbacks-EndsIn cast [] s h = (s, refl, h)
  callbacks-EndsIn cast (x ∷ xs) s h =
      EndsIn-then P (callback throws (suc (suc fuel)) cast x s)
        (callbacks throws (suc (suc fuel)) cast xs) (callback-EndsIn cast x s h)
        (callbacks-EndsIn cast xs)

  pub on_outputs-EndsIn :
      (os : List Output) (s : AirwayIm) → P s → EndsIn P (on_outputs throws (suc (suc fuel)) os s)
  on_outputs-EndsIn os s h = Adds-EndsIn s _ _ h (on_outputs-Adds throws fuel calm os s)
