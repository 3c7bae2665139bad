-- ===== src/Session/Steps/Credentials/Refreshes.antt =====
-- Refreshes of the credential that go wrong: two that overlap, and one that brings the empty credential.
use airway_im_plugin.Base.{
  ℕ, suc, ◌≡◌, refl, Bool, false, Option, none, some, List, [], ◌∷◌, All, arith,
}
use airway_im_plugin.Text.{Text, text}
use airway_im_plugin.Json.{Json}
use airway_im_plugin.Gateway
use airway_im_plugin.Gateway.{GatewaySocket, gave, credential_came}
use airway_im_plugin.Gateway.Credential.{step-credential}
use airway_im_plugin.Http.{Failure, im_error, other, RequestOptions, may_refresh}
use airway_im_plugin.Sync.{GatewayEvent}
use airway_im_plugin.Emitter.{Delivery}
use airway_im_plugin.Emitter.Calm.{IsCalm}
use airway_im_plugin.Session.{AirwayIm}
use airway_im_plugin.Session.Steps.{
  Move, socket, brought_to_gateway, set_credential, rest_brought, rest_taken, gateway_brought,
  on_gateway, gateway_step, step, run,
}
use airway_im_plugin.Session.Steps.Ends.{IsFree, EndsIn, EndsIn-then, callbacks-EndsIn}
use airway_im_plugin.Session.Steps.Ends.Runs.{Lasts, IsAllowed, after_socket, run-EndsIn}
use airway_im_plugin.Session.Steps.Credentials.{Holds}

-- A step of a gateway that is there, for a property that the callbacks keep, as the whole of a history.
module _ (throws : List Delivery → Delivery → Bool) (fuel : ℕ) (cast : Json → GatewayEvent)
    (calm : IsCalm throws) (P : AirwayIm → Type 0) (free : IsFree P) where
  last_step-EndsIn :
      (g : GatewaySocket) (v : Gateway.Move) (s : AirwayIm)
      → s.gateway ≡ some g
      → P (after_socket (some g) v s)
      → EndsIn P (run throws (suc (suc fuel)) cast (socket v ∷ []) s)
  unfolding run step gateway_step on_gateway
  last_step-EndsIn g v s e h =
      EndsIn-then P (gateway_step throws (suc (suc fuel)) cast v s) some
        (rw e (
          callbacks-EndsIn throws fuel calm P free cast (Gateway.step v g).1
            (after_socket (some g) v s) h))
        (λ t k. (t, refl, k))

never_refreshed :
    (e : Failure) (o : RequestOptions) (c : Text) → c ≡ text "" → may_refresh e o c ≡ false
unfolding may_refresh
never_refreshed other o c q = refl
never_refreshed (im_error f) o c q = rw q (ground arith)

-- The REST client's credential is empty.
abbrev IsEmptied : AirwayIm → Type 0
IsEmptied s = s.rest.credential ≡ text ""

-- No credential but the empty one is set or brought.
abbrev pub BringsNothing : Move → Type 0
BringsNothing = IsAllowed (λ w. Unit) (λ c. c ≡ text "")

after_socket-IsEmptied :
    (o : Option GatewaySocket) (v : Gateway.Move) (s : AirwayIm)
    → IsEmptied s
    → IsEmptied (after_socket o v s)
after_socket-IsEmptied none v s h = h
after_socket-IsEmptied (some g) v s h = h

IsEmptied-Lasts : Lasts IsEmptied (λ w. Unit) (λ c. c ≡ text "")
unfolding set_credential rest_brought rest_taken gateway_brought
IsEmptied-Lasts = record {
  loose = record {
    free = record {
      log = λ s log h. h;
      status = λ s st h. h;
      sync = λ s m h. h;
      kinds = λ s d h. h;
    };
    opened = λ id kind title s e h. h;
    heeded = λ id c ls s e h. h;
    listeners = λ s ls h. h;
    wanted = λ s b h. h;
  };
  calls = λ made. tt;
  leaves = tt;
  socket = λ o v s a e h. after_socket-IsEmptied o v s h;
  replaced = λ c s a h. a;
  brought = λ c s a h. h;
  taken = λ c s a h. rw a h;
  shared = λ c s a h. a;
}

-- Where the "error" listeners do not throw and the gateway's getCredential brings the empty credential, the gateway
-- keeps its own, but the REST client's is emptied. Over any history after that in which no credential but
-- the empty one is set or brought, it stays empty, and no failure of a request leads to another refresh.
pub empty_refresh :
    (throws : List Delivery → Delivery → Bool) (fuel : ℕ) (cast : Json → GatewayEvent)
    (s : AirwayIm) (g : GatewaySocket) (timer : ℕ) (vs : List Move)
    → IsCalm throws
    → s.gateway ≡ some g
    → All BringsNothing vs
    → let refresh =
        brought_to_gateway (text "") ∷ socket (credential_came (gave (text "")) timer) ∷ [] in
      (s' : AirwayIm) × (s'' : AirwayIm) × (run throws (suc (suc fuel)) cast refresh s ≡ some s')
      × Holds s'.gateway g.credential
      × (run throws (suc (suc fuel)) cast vs s' ≡ some s'')
      × (s''.rest.credential ≡ text "")
      × ((e : Failure) (o : RequestOptions) → may_refresh e o s''.rest.credential ≡ false)
unfolding run step gateway_brought
empty_refresh throws fuel cast s g timer vs calm e a =
    let (s', done, (held_on, emptied)) =
      last_step-EndsIn throws fuel cast calm
        (λ t. Holds t.gateway g.credential × (t.rest.credential ≡ text ""))
        (record { log = λ s log h. h; status = λ s st h. h; sync = λ s m h. h; kinds = λ s d h. h })
        g (credential_came (gave (text "")) timer) (gateway_brought (text "") s) e
        (step-credential (credential_came (gave (text "")) timer) g, refl) in
    let (s'', ends, still) =
      run-EndsIn throws fuel cast calm IsEmptied (λ w. Unit) (λ c. c ≡ text "") IsEmptied-Lasts vs
        s' a emptied in
    (s', s'', done, held_on, ends, still, λ f o. never_refreshed f o s''.rest.credential still)
