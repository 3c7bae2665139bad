-- ===== src/Http/Conversations.antt =====
-- The REST methods on identity, conversations and their members, and the message pages
-- (install/ignore/sdk/ts/dist/esm/http.js). A path is made with encodeURIComponent, which throws on
-- half a surrogate pair before anything is sent.
use airway_im_plugin.Base.{ℕ, Bool, false, Option, none, some, List, [], ◌∷◌, ◌++◌, if◌then◌else◌}
use airway_im_plugin.Base.Int.{◌==ℤ◌}
use airway_im_plugin.Text.{Text, text}
use airway_im_plugin.Json.{Json, Items, nil, cons, Fields, end, field, null, str, arr, obj, decimal}
use airway_im_plugin.Url.{encode_uri_component}
use airway_im_plugin.Error.{conversation_not_found}
use airway_im_plugin.Http.{
  Failure, im_error, other, Host, Async, no_options, request, catch_error, or_throw, pure, throw,
  ◌>>=◌,
}

unfoldable pub texts : List Text → Items
texts [] = nil
texts (t ∷ ts) = cons (str t) (texts ts)

conversations : Text
conversations = text "/api/v1/conversations"

-- `/api/v1/conversations/${encodeURIComponent(id)}`, followed by `tail`.
unfoldable pub conversation_path : Text → Text → Option Text
unfolding conversations
conversation_path id tail = elim (encode_uri_component id) [
  | none ↦ none
  | some e ↦ some (conversations ++ b'/' ∷ e ++ tail)
]

-- { title } where the title is not undefined
title_field : Option Text → Fields
title_field none = end
title_field (some t) = field (text "title") (str t) end

-- `err instanceof IMError && err.code === ErrorCode.ConversationNotFound`
unfoldable pub is_not_found : Failure → Bool
is_not_found (im_error e) = e.code ==ℤ conversation_not_found
is_not_found other = false

member_fields : List Text → Fields
unfolding texts
member_fields members = field (text "member_uuids") (arr (texts members)) end

-- A query value: undefined, or String(n).
unfoldable pub shown : Option ℕ → Option Text
shown none = none
shown (some n) = some (decimal n)

module _ (host : Host) where
  unfoldable pub me : Async (Option Json)
  me = request host (text "GET") (text "/api/v1/me") no_options

  unfoldable pub list_groups : Async (Option Json)
  unfolding conversations
  list_groups =
      request host (text "GET") conversations
        (record no_options { query = (text "type", some (text "group")) ∷ [] })

  unfoldable pub create_conversation : Text → List Text → Option Text → Async (Option Json)
  unfolding conversations texts title_field
  create_conversation kind members title =
      request host (text "POST") conversations (record no_options {
        body = some (
            obj (
              field (text "kind") (str kind)
                (field (text "member_uuids") (arr (texts members)) (title_field title))));
      })

  unfoldable pub create_direct : Text → Async (Option Json)
  unfolding create_conversation
  create_direct user = create_conversation (text "direct") (user ∷ []) none

  unfoldable pub get_direct : Text → Async (Option Json)
  unfolding conversation_path
  get_direct user =
      catch_error
        (do
          e ← or_throw (encode_uri_component user)
          request host (text "GET") (conversations ++ text "/direct/" ++ e) no_options)
        (λ e. if is_not_found e then pure (some null) else throw e)

  unfoldable pub create_group : Text → List Text → Async (Option Json)
  unfolding member_fields
  create_group title members =
      request host (text "POST") (text "/api/v1/group") (record no_options {
        body = some (obj (field (text "title") (str title) (member_fields members)));
      })

  unfoldable pub get_conversation : Text → Async (Option Json)
  get_conversation id = do
    path ← or_throw (conversation_path id [])
    request host (text "GET") path no_options

  unfoldable pub add_members : Text → List Text → Async (Option Json)
  unfolding member_fields
  add_members id members = do
    path ← or_throw (conversation_path id (text "/members"))
    request host (text "POST") path
        (record no_options { body = some (obj (member_fields members)) })

  unfoldable pub remove_member : Text → Text → Async (Option Json)
  remove_member id user = do
    path ← or_throw (conversation_path id (text "/members"))
    e ← or_throw (encode_uri_component user)
    request host (text "DELETE") (path ++ b'/' ∷ e) no_options

  -- The loop of removeMembers, with the details of the last removal.
  remove_each : Text → List Text → Option Json → Async (Option Json)
  remove_each id [] details = pure details
  remove_each id (user ∷ users) details = do d ← remove_member id user; remove_each id users d

  unfoldable pub remove_members : Text → List Text → Async (Option Json)
  unfolding remove_each
  remove_members id [] = get_conversation id
  remove_members id (user ∷ users) = remove_each id (user ∷ users) none

  -- listMessages(id, {afterSequence, limit})
  unfoldable pub list_messages : Text → Option ℕ → Option ℕ → Async (Option Json)
  unfolding shown
  list_messages id after_sequence limit = do
    path ← or_throw (conversation_path id (text "/messages"))
    request host (text "GET") path (record no_options {
      query = (text "after_sequence", shown after_sequence) ∷ (text "limit", shown limit) ∷ [];
    })
