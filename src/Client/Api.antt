-- ===== src/Client/Api.antt =====
-- The demo client's HTTP client (install/ignore/client/src/api.ts: IMClient and AdminClient). Each method is
-- one fetch: the request that it sends, which is `none` where encodeURIComponent throws before, and what its
-- answer comes to.
pub mod Judged
pub mod Pages
use airway_im_plugin.Base.{ℕ, ◌&&◌, Option, none, some, get_or, List, [], ◌∷◌, ◌++◌, if◌then◌else◌}
use airway_im_plugin.Base.Int.{negsuc}
use airway_im_plugin.Text.{Text, text}
use airway_im_plugin.Dict.{Dict}
use airway_im_plugin.Json.{
  Json, read, Fields, null, num, str, obj, arr, field, end, is_zero, decimal,
}
use airway_im_plugin.Url.{trim_end, encode_uri_component}
use airway_im_plugin.Http.{property, or_else, is_success, http_status}
use airway_im_plugin.Http.Conversations.{texts}

pub record ImClient : Type 0 where
  pub base_url : Text
  pub credential : Text

-- The arguments of fetch.
pub record FetchRequest : Type 0 where
  pub url : Text
  pub method : Text
  pub headers : Dict Text
  pub body : Option Json

-- What fetch and `res.json()` come to: a rejection, a body that is not JSON, or a status and a value.
pub data Answer : Type 0 where
  rejection : Answer
  unreadable : ℕ → Answer
  answered : ℕ → Json → Answer

pub record ApiError : Type 0 where
  pub code : Json
  pub message : Json
  pub status : ℕ

-- The data, an IMError, or an error of another kind.
pub data Outcome : Type 0 where
  done : Option Json → Outcome
  refused : ApiError → Outcome
  thrown : Outcome

api_error : ℕ → Json → ApiError
api_error status parsed = record {
  code = or_else (property (text "code") (some parsed)) (num (negsuc 0));
  message = or_else (property (text "message") (some parsed)) (http_status status []);
  status = status;
}

-- `!res.ok || parsed.code !== 0`; reading a property of null throws.
unfoldable pub accepted : ℕ → Json → Outcome
unfolding api_error
accepted status null = thrown
accepted status parsed =
    if is_success status && is_zero (property (text "code") (some parsed))
    then done (property (text "data") (some parsed))
    else refused (api_error status parsed)

-- The part of `request` after its first await.
unfoldable pub judge : Answer → Outcome
unfolding accepted
judge rejection = thrown
judge (unreadable status) = thrown
judge (answered status parsed) = accepted status parsed

-- withCredential(baseUrl, credential), and its constructor.
unfoldable pub with_credential : Text → Text → ImClient
with_credential base credential = record {
  base_url = trim_end (trim_end base);
  credential = credential;
}

content_type : Option Json → Dict Text
content_type none = []
content_type (some body) = (text "Content-Type", text "application/json") ∷ []

-- The request of IMClient.request.
unfoldable pub request : ImClient → Text → Text → Option Json → Dict Text → FetchRequest
unfolding content_type
request c method path body extra = record {
  url = c.base_url ++ path;
  method = method;
  headers = (text "Authorization", text "Bearer " ++ c.credential) ∷ (content_type body ++ extra);
  body = body;
}

-- The request of a path that holds encoded texts.
sent : Option Text → (Text → FetchRequest) → Option FetchRequest
sent none f = none
sent (some path) f = some (f path)

-- `/api/v1/conversations/${encodeURIComponent(id)}`, followed by `tail`.
unfoldable pub path_of : Text → Text → Option Text
path_of id tail = elim (encode_uri_component id) [
  | none ↦ none
  | some e ↦ some (text "/api/v1/conversations/" ++ (e ++ tail))
]

member_path : Text → Option Text → Option Text
member_path id none = none
member_path id (some user) = path_of id (text "/members/" ++ user)

text_or_null : Option Text → Json
text_or_null none = null
text_or_null (some t) = str t

unfoldable pub me : ImClient → FetchRequest
me c = request c (text "GET") (text "/api/v1/me") none []

unfoldable pub list_groups : ImClient → FetchRequest
list_groups c = request c (text "GET") (text "/api/v1/conversations?type=group") none []

unfoldable pub create_group : Option Text → List Text → ImClient → FetchRequest
unfolding text_or_null
create_group title members c =
    request c (text "POST") (text "/api/v1/group")
      (some (
        obj (
          field (text "title") (text_or_null title)
            (field (text "member_uuids") (arr (texts members)) end))))
      []

unfoldable pub get_conversation : Text → ImClient → Option FetchRequest
unfolding sent
get_conversation id c = sent (path_of id []) (λ path. request c (text "GET") path none [])

unfoldable pub add_members : Text → List Text → ImClient → Option FetchRequest
unfolding sent
add_members id members c = sent (path_of id (text "/members")) (λ path.
    request c (text "POST") path
      (some (obj (field (text "member_uuids") (arr (texts members)) end))) [])

unfoldable pub remove_member : Text → Text → ImClient → Option FetchRequest
unfolding sent member_path
remove_member id user c =
    sent (member_path id (encode_uri_component user))
      (λ path. request c (text "DELETE") path none [])

-- listMessages(conversationId, afterSequence, limit)
unfoldable pub list_messages : Text → ℕ → ℕ → ImClient → Option FetchRequest
unfolding sent
list_messages id after_sequence limit c =
    sent
      (path_of id (
        text "/messages?after_sequence="
        ++ (decimal after_sequence ++ (text "&limit=" ++ decimal limit))))
      (λ path. request c (text "GET") path none [])

-- An empty key counts as none.
key_header : Option Text → Dict Text
key_header none = []
key_header (some []) = []
key_header (some (k ∷ ks)) = (text "Idempotency-Key", k ∷ ks) ∷ []

kind_or_markdown : Option Text → Text
kind_or_markdown none = text "text/markdown"
kind_or_markdown (some t) = t

unfoldable pub send_message : Text → Json → Option Text → Option Text → ImClient → FetchRequest
unfolding key_header kind_or_markdown
send_message id content kind key c =
    request c (text "POST") (text "/api/v1/messages")
      (some (
        obj (
          field (text "conversation_id") (str id) (
            field (text "content") content
              (field (text "content_type") (str (kind_or_markdown kind)) end)))))
      (key_header key)

-- Reading a property of `body.data`: it throws where there are no data, and on null.
property_of : Text → Outcome → Outcome
property_of k (done none) = thrown
property_of k (done (some v)) = elim (read k v) [ none ↦ thrown | some p ↦ done p ]
property_of k (refused e) = refused e
property_of k thrown = thrown

nickname_field : Option Text → Fields
nickname_field none = end
nickname_field (some t) = field (text "nickname") (str t) end

-- The request of IMClient.mint, to mintUrl or else to the base.
unfoldable pub mint_request : Text → Text → Text → Text → Option Text → Option Text → FetchRequest
unfolding nickname_field
mint_request base secret uuid name nickname mint_url = record {
  url = trim_end (get_or mint_url base) ++ text "/internal/v1/credentials";
  method = text "POST";
  headers =
      (text "Content-Type", text "application/json") ∷ (text "X-IM-Internal-Secret", secret) ∷ [];
  body = some (
      obj (
        field (text "uuid") (str uuid) (field (text "name") (str name) (nickname_field nickname))));
}

-- The credential that mint gives to the new client.
unfoldable pub minted : Answer → Outcome
unfolding property_of
minted a = property_of (text "credential") (judge a)

-- The request of AdminClient.login.
unfoldable pub login_request : Text → Text → Text → FetchRequest
login_request base username password = record {
  url = trim_end base ++ text "/admin/api/login";
  method = text "POST";
  headers = (text "Content-Type", text "application/json") ∷ [];
  body =
      some
        (obj (field (text "username") (str username) (field (text "password") (str password) end)));
}

-- The token that login gives to the new AdminClient.
unfoldable pub logged_in : Answer → Outcome
unfolding property_of
logged_in a = property_of (text "token") (judge a)

-- The request of AdminClient.listAllGroups.
unfoldable pub all_groups_request : Text → Text → FetchRequest
all_groups_request base token = record {
  url = trim_end base ++ text "/admin/api/conversations";
  method = text "GET";
  headers = (text "Authorization", text "Bearer " ++ token) ∷ [];
  body = none;
}
