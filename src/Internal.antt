-- ===== src/Internal.antt =====
-- InternalClient (install/ignore/sdk/ts/dist/esm/internal.js): minting credentials server-to-server.
-- The runtime's fetch and AbortController are arguments, and what goes out is recorded.
pub mod Minting
use airway_im_plugin.Base.{
  ℕ, Bool, true, false, ◌&&◌, Option, none, some, List, [], ◌∷◌, if◌then◌else◌,
}
use airway_im_plugin.Base.Int.{ℤ, pos, negsuc}
use airway_im_plugin.Text.{Text, text}
use airway_im_plugin.Dict.{Dict}
use airway_im_plugin.Json.{Json, Fields, end, field, num, str, obj, truthy, is_zero}
use airway_im_plugin.Url.{trim_end, join_url}
use airway_im_plugin.Http.{
  im_error, other, Result, ok, fail, or_else, property, http_status, is_success,
}

pub record InternalClient : Type 0 where
  pub base_url : Text
  pub internal_secret : Text
  pub timeout_ms : ℕ

-- The constructor.
unfoldable pub new : Text → Text → Option ℕ → InternalClient
new url secret timeout = record {
  base_url = trim_end url;
  internal_secret = secret;
  timeout_ms = elim timeout [ none ↦ 15000 | some t ↦ t ];
}

pub record InternalRequest : Type 0 where
  pub url : Text
  pub headers : Dict Text
  pub body : Json

-- What fetch comes to: a rejection, with `err?.message`; or a status with the body's text, as
-- JSON.parse reads it, or with a body that cannot be read.
pub data FetchReply : Type 0 where
  rejection : Option Json → FetchReply
  answered : ℕ → Option Json → FetchReply
  unreadable : ℕ → FetchReply

pub data Effect : Type 0 where
  sets_timeout : ℕ → Effect
  fetches : InternalRequest → Effect
  clears_timeout : Effect

-- The runtime: global fetch where it is a function, and whether there is an AbortController.
pub record Runtime : Type 0 where
  pub fetch : Option (InternalRequest → FetchReply)
  pub can_abort : Bool

pub record MintOptions : Type 0 where
  pub uuid : Text
  pub name : Text
  pub nickname : Option Text
  pub avatar_url : Option Text
  pub ttl_seconds : Option ℤ

-- The properties of `data` that mintCredential returns.
pub record Minted : Type 0 where
  pub credential : Option Json
  pub expires_at : Option Text

text_field : Text → Option Text → Fields → Fields
text_field k none fs = fs
text_field k (some t) fs = field k (str t) fs

ttl_field : Option ℤ → Fields
ttl_field none = end
ttl_field (some n) = field (text "ttl_seconds") (num n) end

-- The body of the request.
unfoldable pub mint_body : MintOptions → Json
unfolding text_field ttl_field
mint_body o = obj (
    field (text "uuid") (str o.uuid) (
      field (text "name") (str o.name) (
        text_field (text "nickname") o.nickname
          (text_field (text "avatar_url") o.avatar_url (ttl_field o.ttl_seconds)))))

-- typeof v === "string"
unfoldable pub is_text : Option Json → Bool
is_text (some (str t)) = true
is_text _ = false

transport_error : Json → Result Json
transport_error message =
    fail (im_error (record { code = negsuc 0; message = message; status = pos 0 }))

response_error : Option Json → Option Json → ℕ → Result Json
unfolding http_status
response_error (some (num code)) message status = fail (
    im_error (record {
      code = code;
      message = or_else message (http_status status []);
      status = pos status;
    }))
response_error _ message status = fail (
    im_error (record {
      code = negsuc 0;
      message = http_status status (text ": unexpected response");
      status = pos status;
    }))

accepted_data : Option Json → Result Json → Result Json
accepted_data none e = e
accepted_data (some v) e =
    if truthy (some v) && is_text (property (text "credential") (some v)) then ok v else e

-- The end of `request`, by the envelope that was parsed, if it counts as true.
unfoldable pub judge : ℕ → Option Json → Result Json
unfolding is_success response_error accepted_data
judge status envelope =
    let code = if truthy envelope then property (text "code") envelope else none in
    let error = response_error code (property (text "message") envelope) status in
    if is_success status && truthy envelope && is_zero code
    then accepted_data (property (text "data") envelope) error
    else error

unfoldable pub outcome : FetchReply → Result Json
unfolding transport_error
outcome (rejection message) = transport_error (or_else message (str (text "network error")))
outcome (answered status envelope) = judge status envelope
outcome (unreadable status) = fail other

expiry : Option Json → Option Text
expiry (some (str t)) = some t
expiry _ = none

minted : Result Json → Result Minted
unfolding expiry
minted (fail e) = fail e
minted (ok v) = ok (record {
  credential = property (text "credential") (some v);
  expires_at = expiry (property (text "expires_at") (some v));
})

module _ (runtime : Runtime) (c : InternalClient) where
  sending : (InternalRequest → FetchReply) → InternalRequest → Result Json × List Effect
  sending fetch r = (
    outcome (fetch r),
    if runtime.can_abort
        then sets_timeout c.timeout_ms ∷ fetches r ∷ clears_timeout ∷ []
        else fetches r ∷ [],
  )

  -- request(path, body)
  unfoldable pub request : Text → Json → Result Json × List Effect
  unfolding sending transport_error
  request path body = elim runtime.fetch [
    | none ↦ (
      transport_error (str (text "InternalClient requires a runtime with global fetch (Node 18+)")),
      [],
    )
    | some fetch ↦ sending fetch (record {
      url = join_url c.base_url path;
      headers =
          (text "Content-Type", text "application/json")
          ∷ (text "X-IM-Internal-Secret", c.internal_secret)
          ∷ [];
      body = body;
    })
  ]

  -- mintCredential(options)
  unfoldable pub mint_credential : MintOptions → Result Minted × List Effect
  unfolding minted
  mint_credential o =
      let (r, out) = request (text "/internal/v1/credentials") (mint_body o) in (minted r, out)
