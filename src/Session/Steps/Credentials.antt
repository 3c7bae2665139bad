-- ===== src/Session/Steps/Credentials.antt =====
-- The two copies of the credential, the REST client's and the gateway's, over a history of the session;
-- and that a history comes to its end.
pub mod Refreshes
use airway_im_plugin.Base.{
  ℕ, suc, ◌≡◌, refl, sym, ◌∙◌, Bool, true, Option, none, some, List, [], ◌∷◌, All, arith,
}
use airway_im_plugin.Text.{Text, text_eq_iff, is_truthy}
use airway_im_plugin.Json.{Json}
use airway_im_plugin.Gateway
use airway_im_plugin.Gateway.{GatewaySocket, gave, credential_came, sets_credential, sets_url}
use airway_im_plugin.Gateway.Credential.{credential_after, step-credential}
use airway_im_plugin.Http
use airway_im_plugin.Sync.{GatewayEvent}
use airway_im_plugin.Emitter.{Delivery}
use airway_im_plugin.Emitter.Calm.{IsCalm}
use airway_im_plugin.Session.{AirwayIm, Options, new, gateway_of}
use airway_im_plugin.Session.Steps
use airway_im_plugin.Session.Steps.{
  Move, socket, brought_to_rest, taken_by_rest, brought_to_gateway, pass_to_gateway, set_credential,
  rest_brought, rest_taken, gateway_brought, on_gateway, gateway_step, step, run,
}
use airway_im_plugin.Session.Steps.Ends.{EndsIn, EndsIn-then}
use airway_im_plugin.Session.Steps.Ends.Runs.{
  Lasts, IsAllowed, after_socket, on_gateway-EndsIn, step-EndsIn, run-EndsIn,
}

-- The gateway, if there is one, holds the credential `c`.
abbrev pub Holds : Option GatewaySocket → Text → Type 0
Holds none c = Unit
Holds (some g) c = g.credential ≡ c

abbrev pub IsAgreeing : AirwayIm → Type 0
IsAgreeing s = Holds s.gateway s.rest.credential

pass_to_gateway-Holds :
    (c d : Text) (o : Option GatewaySocket) → d ≡ c → Holds (pass_to_gateway c o) d
unfolding pass_to_gateway Gateway.set_credential
pass_to_gateway-Holds c d none e = tt
pass_to_gateway-Holds c d (some g) e = sym e

absent : (o : Option GatewaySocket) (c : Text) → o ≡ none → Holds o c
absent none c e = tt
absent (some g) c e = cc

held_by :
    (o : Option GatewaySocket) (g : GatewaySocket) (c : Text)
    → o ≡ some g
    → Holds o c
    → g.credential ≡ c
held_by none g c e h = cc
held_by (some g') g c e h = cc

held :
    (s : AirwayIm) (g : GatewaySocket)
    → s.gateway ≡ some g
    → IsAgreeing s
    → g.credential ≡ s.rest.credential
held s g e h = held_by s.gateway g s.rest.credential e h

-- The moves of the gateway's socket that bring no credential.
abbrev pub Still : Gateway.Move → Type 0
Still (sets_credential c) = ⊥
Still (sets_url u) = ⊥
Still (credential_came (gave fresh) timer) = ⊥
Still _ = Unit

credential_after-Still : (v : Gateway.Move) (c : Text) → Still v → credential_after v c ≡ c
credential_after-Still (sets_credential d) c a = absurd a
credential_after-Still (credential_came (gave fresh) timer) c a = absurd a
credential_after-Still _ c a = refl

socket-IsAgreeing :
    (o : Option GatewaySocket) (v : Gateway.Move) (s : AirwayIm)
    → Still v
    → s.gateway ≡ o
    → IsAgreeing s
    → IsAgreeing (after_socket o v s)
socket-IsAgreeing none v s a e h = h
socket-IsAgreeing (some g) v s a e h =
    step-credential v g ∙ credential_after-Still v g.credential a ∙ held s g e h

-- The rest of a refresh by the gateway, after the REST client has the fresh credential.
taken-IsAgreeing :
    (o : Option GatewaySocket) (fresh : Text) (timer : ℕ) (s : AirwayIm)
    → is_truthy fresh ≡ true
    → s.gateway ≡ o
    → IsAgreeing (after_socket o (credential_came (gave fresh) timer) (gateway_brought fresh s))
unfolding gateway_brought
taken-IsAgreeing none fresh timer s t e = absent s.gateway fresh e
taken-IsAgreeing (some g) fresh timer s t e =
    step-credential (credential_came (gave fresh) timer) g
    ∙ ground (arith, t, text_eq_iff fresh g.credential)

IsAgreeing-Lasts : Lasts IsAgreeing Still (λ c. ⊥)
IsAgreeing-Lasts = record {
  loose = record {
    free = record {
      log = λ s log h. h;
      status = λ s st h. h;
      sync = λ s m h. h;
      kinds = λ s d h. h;
    };
    opened = λ id kind title s e h. h;
    heeded = λ id c ls s e h. h;
    listeners = λ s ls h. h;
    wanted = λ s b h. h;
  };
  calls = λ made. tt;
  leaves = tt;
  socket = socket-IsAgreeing;
  replaced = λ c s a h. absurd a;
  brought = λ c s a h. absurd a;
  taken = λ c s a h. absurd a;
  shared = λ c s a h. absurd a;
}

-- What a history is made of where no refresh is interrupted: a call of setCredential, a whole refresh by the
-- REST client or by the gateway, or a move that brings no credential.
pub data Turn : Type 0 where
  one : Move → Turn
  sets : Text → Turn
  rest_refreshes : Text → Turn
  gateway_refreshes : Text → ℕ → Turn

abbrev pub moves_of : List Turn → List Move
moves_of [] = []
moves_of (one v ∷ ts) = v ∷ moves_of ts
moves_of (sets c ∷ ts) = Steps.sets_credential c ∷ moves_of ts
moves_of (rest_refreshes c ∷ ts) = brought_to_rest c ∷ taken_by_rest c ∷ moves_of ts
moves_of (gateway_refreshes c timer ∷ ts) =
    brought_to_gateway c ∷ socket (credential_came (gave c) timer) ∷ moves_of ts

abbrev pub IsWhole : Turn → Type 0
IsWhole (one v) = IsAllowed Still (λ c. ⊥) v
IsWhole (sets c) = Unit
IsWhole (rest_refreshes c) = is_truthy c ≡ true
IsWhole (gateway_refreshes c timer) = is_truthy c ≡ true

module _ (throws : List Delivery → Delivery → Bool) (fuel : ℕ) (cast : Json → GatewayEvent)
    (calm : IsCalm throws) where
  moves_of-EndsIn :
      (ts : List Turn) (s : AirwayIm)
      → All IsWhole ts
      → IsAgreeing s
      → EndsIn IsAgreeing (run throws (suc (suc fuel)) cast (moves_of ts) s)
  unfolding run step set_credential rest_brought rest_taken gateway_step
  moves_of-EndsIn [] s a h = (s, refl, h)
  moves_of-EndsIn (one v ∷ ts) s a h =
      EndsIn-then IsAgreeing (step throws (suc (suc fuel)) cast v s)
        (run throws (suc (suc fuel)) cast (moves_of ts))
        (step-EndsIn throws fuel cast calm IsAgreeing Still (λ c. ⊥) IsAgreeing-Lasts v s a.0 h)
        (λ s' h'. moves_of-EndsIn ts s' a.1 h')
  moves_of-EndsIn (sets c ∷ ts) s a h =
      moves_of-EndsIn ts (set_credential c s) a.1 (pass_to_gateway-Holds c c s.gateway refl)
  moves_of-EndsIn (rest_refreshes c ∷ ts) s a h =
      moves_of-EndsIn ts (rest_taken c (rest_brought c s)) a.1
        (pass_to_gateway-Holds c _ s.gateway (ground (arith, a.0, text_eq_iff c s.rest.credential)))
  moves_of-EndsIn (gateway_refreshes c timer ∷ ts) s a h =
      let s' = gateway_brought c s in
      EndsIn-then IsAgreeing
        (on_gateway throws (suc (suc fuel)) cast s'.gateway (credential_came (gave c) timer) s')
        (run throws (suc (suc fuel)) cast (moves_of ts))
        (on_gateway-EndsIn throws fuel cast calm IsAgreeing Still (λ c. ⊥) IsAgreeing-Lasts
          s'.gateway (credential_came (gave c) timer) s'
          (taken-IsAgreeing s'.gateway c timer s a.0 (unfold gateway_brought in refl)))
        (λ t h'. moves_of-EndsIn ts t a.1 h')

gateway_of-Holds : (o : Options) (url : Option Text) → Holds (gateway_of o url) o.credential
unfolding gateway_of Gateway.new
gateway_of-Holds o none = tt
gateway_of-Holds o (some url) = ground arith

-- From a new session, over any history in which the "error" listeners do not throw, and which is made of calls
-- of setCredential, of whole refreshes by the REST client or the gateway that bring a credential that is not
-- empty, and of moves that bring no credential, so that nothing comes between the two parts of a refresh: the
-- history comes to its end, and then the REST client and the gateway, if there is one, hold the same credential.
pub run-IsAgreeing :
    (throws : List Delivery → Delivery → Bool) (fuel : ℕ) (cast : Json → GatewayEvent) (o : Options)
    (ts : List Turn)
    → IsCalm throws
    → All IsWhole ts
    → (s : AirwayIm) × (run throws (suc (suc fuel)) cast (moves_of ts) (new o) ≡ some s)
      × Holds s.gateway s.rest.credential
unfolding new Http.new
run-IsAgreeing throws fuel cast o ts calm a =
    moves_of-EndsIn throws fuel cast calm ts (new o) a (gateway_of-Holds o o.ws_url)

any_move : (v : Move) → IsAllowed (λ w. Unit) (λ c. Unit) v
any_move (socket v) = tt
any_move (Steps.sets_credential c) = tt
any_move (brought_to_rest c) = tt
any_move (taken_by_rest c) = tt
any_move (brought_to_gateway c) = tt
any_move _ = tt

pub any_moves : (vs : List Move) → All (IsAllowed (λ w. Unit) (λ c. Unit)) vs
any_moves [] = tt
any_moves (v ∷ vs) = (any_move v, any_moves vs)

nothing-Lasts : Lasts (λ s. Unit) (λ w. Unit) (λ c. Unit)
nothing-Lasts = record {
  loose = record {
    free = record {
      log = λ s log h. tt;
      status = λ s st h. tt;
      sync = λ s m h. tt;
      kinds = λ s d h. tt;
    };
    opened = λ id kind title s e h. tt;
    heeded = λ id c ls s e h. tt;
    listeners = λ s ls h. tt;
    wanted = λ s b h. tt;
  };
  calls = λ made. tt;
  leaves = tt;
  socket = λ o v s a e h. tt;
  replaced = λ c s a h. tt;
  brought = λ c s a h. tt;
  taken = λ c s a h. tt;
  shared = λ c s a h. tt;
}

-- Where the "error" listeners do not throw, every history of any session comes to its end with two
-- levels of fuel for emit, whatever the other listeners throw and whatever the gateway, the server and
-- the host bring.
pub run_ends :
    (throws : List Delivery → Delivery → Bool) (fuel : ℕ) (cast : Json → GatewayEvent)
    (vs : List Move) (s : AirwayIm)
    → IsCalm throws
    → (s' : AirwayIm) × (run throws (suc (suc fuel)) cast vs s ≡ some s')
run_ends throws fuel cast vs s calm =
    let (s', e, h) =
      run-EndsIn throws fuel cast calm (λ s. Unit) (λ w. Unit) (λ c. Unit) nothing-Lasts vs s
        (any_moves vs) tt in
    (s', e)
