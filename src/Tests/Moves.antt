-- ===== src/Tests/Moves.antt =====
-- Histories of the session, its credentials and its registry at concrete inputs.
use airway_im_plugin.Base.{◌≡◌, refl, true, false, none, some, Option, List, [], ◌∷◌, arith}
use airway_im_plugin.Base.Int.{pos, ◌<ℤ◌}
use airway_im_plugin.Text.{Text, text, text_eq}
use airway_im_plugin.Dict
use airway_im_plugin.Gateway
use airway_im_plugin.Gateway.{GatewaySocket, gave, credential_came}
use airway_im_plugin.Http.{Failure, RequestOptions, may_refresh}
use airway_im_plugin.Sync
use airway_im_plugin.Sync.{last_sequence}
use airway_im_plugin.Sync.Events.Serial.{fresh}
use airway_im_plugin.Session.{
  AirwayIm, Conversation, Kind, Options, new, direct, conversation_for, message_event,
  made_conversation, remember_kind,
}
use airway_im_plugin.Session.Steps.{
  Move, connects, socket, brought_to_gateway, conversation_on, direct_arrived, run,
}
use airway_im_plugin.Session.Steps.Credentials.{
  Holds, Turn, one, rest_refreshes, gateway_refreshes, moves_of, run-IsAgreeing, run_ends,
}
use airway_im_plugin.Session.Steps.Credentials.Refreshes.{empty_refresh}
use airway_im_plugin.Session.Steps.Registry.{run_keeps_object, restored_unfetched}
use airway_im_plugin.Tests.Sessions.{calm, calm-IsCalm, cast, options, chat}
use airway_im_plugin.Tests.Tracks.{engine-IsSynced}
use airway_im_plugin.Tests.Fixtures.{room, engine}

-- A session with a gateway.
abbrev online : Options
online = record options { ws_url = some (text "wss://host") }

-- It connects, the server refuses the credential, and the gateway's refresh brings another; then the
-- REST client's does.
abbrev turns : List Turn
turns =
    one (connects (some 1))
    ∷ one (socket (Gateway.opened 1))
    ∷ one (socket (Gateway.socket_closed 2))
    ∷ gateway_refreshes (text "key2") 3
    ∷ rest_refreshes (text "key3")
    ∷ []

abbrev renewals : List Move
renewals = moves_of turns

run-IsAgreeing_example :
    (s : AirwayIm) × (run calm 2 cast (moves_of turns) (new online) ≡ some s)
    × Holds s.gateway s.rest.credential
run-IsAgreeing_example =
    run-IsAgreeing calm 0 cast online turns calm-IsCalm (tt, (tt, (tt, (refl, (refl, tt)))))

run_ends_example : (s : AirwayIm) × (run calm 2 cast renewals (new online) ≡ some s)
run_ends_example = run_ends calm 0 cast renewals (new online) calm-IsCalm

abbrev gateway : GatewaySocket
gateway = Gateway.new (text "wss://host") (text "key") (pos 25000) true

abbrev with_gateway : AirwayIm
with_gateway = record (new options) { gateway = some gateway }

empty_refresh_example :
    (s : AirwayIm) × (s' : AirwayIm) × (run calm 2 cast
        (brought_to_gateway (text "") ∷ socket (credential_came (gave (text "")) 3) ∷ [])
        with_gateway
      ≡ some s)
    × Holds s.gateway gateway.credential
    × (run calm 2 cast (connects (some 1) ∷ []) s ≡ some s')
    × (s'.rest.credential ≡ text "")
    × ((e : Failure) (o : RequestOptions) → may_refresh e o s'.rest.credential ≡ false)
empty_refresh_example =
    empty_refresh calm 0 cast with_gateway gateway 3 (connects (some 1) ∷ []) calm-IsCalm refl
      (tt, tt)

abbrev opened : AirwayIm
opened = direct_arrived room (new options)

abbrev object : Conversation
object = record { id = room; kind = direct; title = none; listeners = [] }

object_there : Dict.get room opened.conversations ≡ some object
unfolding direct_arrived conversation_for made_conversation remember_kind new Dict.get Dict.put
    text_eq
object_there = refl

run_keeps_object_example :
    (s : AirwayIm) × (c : Conversation) × (run calm 2 cast chat opened ≡ some s)
    × (c.kind ≡ direct)
    × (c.title ≡ none)
    × ((k : Kind) (t : Option Text) → conversation_for room k t s ≡ (c, s))
run_keeps_object_example =
    run_keeps_object calm 0 cast chat opened room object calm-IsCalm object_there

abbrev restored : Options
restored = record options { storage = engine.storage }

seen_one : pos 0 <ℤ last_sequence room engine
unfolding last_sequence Dict.get text_eq
seen_one = omega arith

restored_unfetched_example :
    (conversation_on room message_event 8 (direct_arrived room (new restored))).sync
    ≡ fresh (Sync.new engine.storage)
restored_unfetched_example =
    restored_unfetched restored engine room 8 engine-IsSynced seen_one refl refl
