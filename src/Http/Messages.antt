-- ===== src/Http/Messages.antt =====
-- Sending messages (install/ignore/sdk/ts/dist/esm/http.js: sendMessage, sendDirectMessage and
-- postMessage), with the retry loop on transport failures.
use airway_im_plugin.Base.{ℕ, zero, suc, Bool, false, Option, none, some, [], ◌∷◌, if◌then◌else◌}
use airway_im_plugin.Base.Int.{pos, ◌==ℤ◌}
use airway_im_plugin.Text.{Text, text}
use airway_im_plugin.Json.{Json, Fields, end, field, str, obj, read}
use airway_im_plugin.Http.{
  Failure, im_error, other, Host, Async, no_options, request, catch_error, throw, or_throw, ◌>>=◌,
}
use airway_im_plugin.Http.Conversations.{create_direct}

pub record SendOptions : Type 0 where
  pub content_type : Option Text
  pub idempotency_key : Option Text
  pub retries : Option ℕ

-- `error.status === 0`: no HTTP status, a transport failure.
unfoldable pub is_transport : Failure → Bool
is_transport (im_error e) = e.status ==ℤ pos 0
is_transport other = false

-- `a ?? b`
unfoldable pub or_default {ℓ} : {A : Type ℓ} → Option A → A → A
or_default none d = d
or_default (some a) d = a

-- conversation.id: what createDirect returned may be undefined or null, where reading it throws,
-- and the id may be undefined, where the body has none.
id_field : Option Json → Option (Option Json)
id_field none = none
id_field (some v) = read (text "id") v

message_fields : Option Json → Json → Text → Fields
message_fields none content content_type =
    field (text "content") content (field (text "content_type") (str content_type) end)
message_fields (some id) content content_type =
    field (text "conversation_id") id
      (field (text "content") content (field (text "content_type") (str content_type) end))

module _ (host : Host) where
  -- One round of the loop's request.
  unfoldable pub post_once : Text → Json → Text → Async (Option Json)
  post_once path body key =
      request host (text "POST") path
        (record no_options { headers = (text "Idempotency-Key", key) ∷ []; body = some body })

  -- The loop of postMessage, with the retries that are left: maxRetries less the attempts so far.
  unfoldable pub post_loop : Text → Json → Text → ℕ → Async (Option Json)
  unfolding post_once
  post_loop path body key zero = catch_error (post_once path body key) throw
  post_loop path body key (suc left) =
      catch_error (post_once path body key)
        (λ e. if is_transport e then post_loop path body key left else throw e)

  -- postMessage, with the key that randomId would make.
  unfoldable pub post_message : Text → Json → SendOptions → Text → Async (Option Json)
  unfolding post_loop or_default
  post_message path body o random =
      post_loop path body (or_default o.idempotency_key random) (or_default o.retries 1)

  unfoldable pub send_to : Option Json → Json → SendOptions → Text → Async (Option Json)
  unfolding post_message message_fields or_default
  send_to id content o random =
      post_message (text "/api/v1/messages")
        (obj (message_fields id content (or_default o.content_type (text "text/markdown")))) o
        random

  -- sendMessage(conversationId, content, options)
  unfoldable pub send_message : Text → Json → SendOptions → Text → Async (Option Json)
  unfolding send_to
  send_message id content o random = send_to (some (str id)) content o random

  -- sendDirectMessage(otherUserUUID, content, options)
  unfoldable pub send_direct_message : Text → Json → SendOptions → Text → Async (Option Json)
  unfolding send_to id_field
  send_direct_message user content o random = do
    conversation ← create_direct host user
    id ← or_throw (id_field conversation)
    send_to id content o random
