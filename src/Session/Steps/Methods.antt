-- ===== src/Session/Steps/Methods.antt =====
-- What AirwayIM's methods do to the session alone (install/ignore/sdk/ts/dist/esm/session.js): setCredential, the
-- two getCredentials, the methods before their requests and after the answers, and on and off of an object.
use airway_im_plugin.Base.{
  ℕ, Bool, true, false, not, ◌&&◌, Option, none, some, List, [], ◌∷◌, if◌then◌else◌,
}
use airway_im_plugin.Base.Int.{ℤ}
use airway_im_plugin.Text.{Text, text_eq, is_truthy}
use airway_im_plugin.Dict
use airway_im_plugin.Gateway
use airway_im_plugin.Gateway.{GatewaySocket, gave}
use airway_im_plugin.Sync.{is_tracked}
use airway_im_plugin.Sync.Fetch.{FetchOptions, no_options}
use airway_im_plugin.Sync.Queue
use airway_im_plugin.Sync.Events.{fetch_from}
use airway_im_plugin.Emitter.{on, off, listeners_of}
use airway_im_plugin.Session.{
  AirwayIm, Conversation, Kind, group, direct, remember_kind, conversation_for, message_event,
}

-- What the REST client tells of a conversation.
pub record ConversationInfo : Type 0 where
  pub id : Text
  pub title : Option Text

-- this.gateway.setCredential(fresh), where there is a gateway
unfoldable pub pass_to_gateway : Text → Option GatewaySocket → Option GatewaySocket
pass_to_gateway c none = none
pass_to_gateway c (some g) = some (Gateway.set_credential c g)

-- setCredential(credential)
unfoldable pub set_credential : Text → AirwayIm → AirwayIm
unfolding pass_to_gateway
set_credential c s = record s {
  rest = record s.rest { credential = c };
  gateway = pass_to_gateway c s.gateway;
}

-- The getCredential that the REST client is given, after the host's: the gateway takes the value over,
-- whatever it is.
unfoldable pub rest_brought : Text → AirwayIm → AirwayIm
unfolding pass_to_gateway
rest_brought fresh s = record s { gateway = pass_to_gateway fresh s.gateway }

-- `request` after its await of that getCredential: the REST client takes the value where it is another
-- credential and not empty.
unfoldable pub rest_taken : Text → AirwayIm → AirwayIm
rest_taken fresh s = record s {
  rest = record s.rest {
    credential =
        if is_truthy fresh && not (text_eq fresh s.rest.credential)
        then fresh
        else s.rest.credential;
  };
}

-- The getCredential that the gateway is given, after the host's: the REST client takes the value over. The
-- gateway's own part comes with its move credential_came.
unfoldable pub gateway_brought : Text → AirwayIm → AirwayIm
gateway_brought fresh s = record s { rest = record s.rest { credential = fresh } }

-- `if (!kind) details`: the part of openConversation that needs no request.
unfoldable pub open_known : Option Kind → Text → AirwayIm → AirwayIm
open_known none id s = s
open_known (some kind) id s = (conversation_for id kind none s).1

-- openConversation(conversationId) up to its request
unfoldable pub open_conversation : Text → AirwayIm → AirwayIm
unfolding open_known
open_conversation id s = elim (Dict.get id s.conversations) [
  | some existing ↦ s
  | none ↦ open_known (Dict.get id s.conversation_kinds) id s
]

-- openConversation after getConversation's answer
unfoldable pub details_arrived : Text → Text → Kind → AirwayIm → AirwayIm
details_arrived id uuid kind s = (conversation_for id kind none (remember_kind uuid kind s)).1

-- createDirect and getDirect after the answer
unfoldable pub direct_arrived : Text → AirwayIm → AirwayIm
direct_arrived id s = (conversation_for id direct none (remember_kind id direct s)).1

-- createGroup after the answer
unfoldable pub group_arrived : ConversationInfo → AirwayIm → AirwayIm
group_arrived c s = (conversation_for c.id group c.title (remember_kind c.id group s)).1

-- listGroups after the answer
unfoldable pub remember_groups : List ConversationInfo → AirwayIm → AirwayIm
remember_groups [] s = s
remember_groups (c ∷ cs) s = remember_groups cs (remember_kind c.id group s)

-- addMembers and removeMembers before their requests
unfoldable pub change_members : Text → AirwayIm → AirwayIm
change_members id s = remember_kind id group s

-- sendGroupMessage before its request
unfoldable pub send_to_group : Text → AirwayIm → AirwayIm
send_to_group id s = remember_kind id group s

-- sendGroupMessage and sendDirectMessage after the answer to sendMessage
unfoldable pub after_send : Text → ℤ → AirwayIm → AirwayIm
after_send id seq s = record s { sync = Queue.tracks id seq s.sync }

-- history(conversationId, options)
unfoldable pub history : Text → FetchOptions → AirwayIm → AirwayIm
history id o s = record s { sync = fetch_from id o s.sync }

-- forgetConversation(conversationId)
unfoldable pub forget_conversation : Text → AirwayIm → AirwayIm
forget_conversation id s = record s {
  sync = Queue.forget id s.sync;
  conversation_kinds = Dict.remove id s.conversation_kinds;
}

-- ensureTracked(conversationId)
unfoldable pub ensure_tracked : Text → AirwayIm → AirwayIm
unfolding history
ensure_tracked id s = if is_tracked id s.sync.engine then s else history id no_options s

unfoldable pub is_empty : List ℕ → Bool
is_empty [] = true
is_empty (l ∷ ls) = false

unfoldable pub set_listeners : Text → Conversation → (AirwayIm → AirwayIm)
set_listeners id c s = record s { conversations = Dict.put id c s.conversations }

-- on(event, listener) of the conversation object with an id
unfoldable pub conversation_on : Text → Text → ℕ → AirwayIm → AirwayIm
unfolding ensure_tracked is_empty set_listeners
conversation_on id event l s = elim (Dict.get id s.conversations) [
  | none ↦ s
  | some c ↦
      let s' = set_listeners id (record c { listeners = on event l c.listeners }) s in
      if is_empty (listeners_of event c.listeners) && text_eq event message_event
      then ensure_tracked c.id s'
      else s'
]

-- off(event, listener) of the conversation object with an id
unfoldable pub conversation_off : Text → Text → ℕ → AirwayIm → AirwayIm
unfolding set_listeners
conversation_off id event l s = elim (Dict.get id s.conversations) [
  | none ↦ s
  | some c ↦ set_listeners id (record c { listeners = off event l c.listeners }) s
]
