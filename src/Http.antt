-- ===== src/Http.antt =====
-- IMHttpClient (install/ignore/sdk/ts/dist/esm/http.js): its state and `requestOnce` and `request`,
-- as computations that may throw. What the platform's adapter and the host's getCredential answer is
-- a function of the calls made so far, and each call is recorded.
pub mod Calls
pub mod Refresh
pub mod Conversations
pub mod Messages
pub mod Retry
pub mod Recovery
pub mod Storage
unfoldable pub use Calls.*
use airway_im_plugin.Base.{
  ℕ, ◌+◌, ◌-◌, Bool, true, false, not, ◌&&◌, ◌||◌, Option, none, some, List, [], ◌∷◌, ◌++◌, ltb,
  leb, if◌then◌else◌, is_some,
}
use airway_im_plugin.Base.Int.{pos, negsuc}
use airway_im_plugin.Text.{Text, text, text_eq, is_truthy}
use airway_im_plugin.Dict.{Dict, put}
use airway_im_plugin.Json.{Json, null, num, str, read, truthy, is_zero, decimal}
use airway_im_plugin.Url.{build_url}
use airway_im_plugin.Error.{is_auth_error}

pub record RequestOptions : Type 0 where
  pub query : List (Text × Option Text)
  pub headers : Dict Text
  pub body : Option Json
  pub auth : Bool

-- `{}`: the query is empty, no header is added, and `auth` is not false.
abbrev pub no_options : RequestOptions
no_options = record { query = []; headers = []; body = none; auth = true }

-- `a ?? b`
unfoldable pub or_else : Option Json → Json → Json
or_else none d = d
or_else (some null) d = d
or_else (some v) d = v

-- safeParse(text), and the value itself where the body is no text.
unfoldable pub envelope_of : Body → Option Json
envelope_of (raw none) = some null
envelope_of (raw (some v)) = some v
envelope_of (value v) = v

-- A property of a value that counts as true, so reading it does not throw.
unfoldable pub property : Text → Option Json → Option Json
property k none = none
property k (some v) = elim (read k v) [ none ↦ none | some p ↦ p ]

-- The headers of a request: those of the options, then the credential, then the body's type.
unfoldable pub headers_of : ImHttpClient → RequestOptions → Dict Text
headers_of c o =
    let authorized =
      if o.auth && is_truthy c.credential
      then put (text "Authorization") (text "Bearer " ++ c.credential) o.headers
      else o.headers in
    if is_some o.body
    then put (text "Content-Type") (text "application/json") authorized
    else authorized

unfoldable pub is_success : ℕ → Bool
is_success status = leb 200 status && ltb status 300

unfoldable pub http_status : ℕ → Text → Json
http_status status tail = str (text "HTTP " ++ decimal status ++ tail)

unfoldable pub error_of : Option Json → Option Json → ℕ → Result (Option Json)
unfolding http_status
error_of (some (num code)) message status = fail (
    im_error (record {
      code = code;
      message = or_else message (http_status status []);
      status = pos status;
    }))
error_of _ message status = fail (
    im_error (record {
      code = negsuc 0;
      message = http_status status (text ": unexpected response");
      status = pos status;
    }))

-- The part of requestOnce after the await: what a response comes to.
unfoldable pub classify : ℕ → Body → Result (Option Json)
unfolding is_success error_of
classify status body =
    let envelope = envelope_of body in
    let code = property (text "code") envelope in
    if is_success status && truthy envelope && is_zero code
    then ok (property (text "data") envelope)
    else error_of (if truthy envelope then code else none) (property (text "message") envelope)
        status

unfoldable pub outcome : Reply → Result (Option Json)
outcome (rejection message) = fail (
    im_error (record {
      code = negsuc 0;
      message = or_else message (str (text "network error"));
      status = pos 0;
    }))
outcome (response status body) = classify status body

-- Whether `request` refreshes the credential after a failure.
unfoldable pub may_refresh : Failure → RequestOptions → Text → Bool
may_refresh other o credential = false
may_refresh (im_error e) o credential = is_auth_error e && o.auth && is_truthy credential

module _ (host : Host) where
  -- adapter.http.request(…)
  unfoldable pub send : HttpRequest → Async (Option Json)
  send r w = (outcome (host.answer w.calls r), record w { calls = w.calls ++ sent r ∷ [] })

  -- requestOnce(method, path, options)
  unfoldable pub request_once : Text → Text → RequestOptions → Async (Option Json)
  request_once method path o = do
    c ← client
    url ← or_throw (build_url c.base_url path o.query)
    send record {
      url = url;
      method = method;
      headers = headers_of c o;
      body = o.body;
      timeout_ms = c.timeout_ms;
    }

  -- getCredential()
  unfoldable pub ask : (List Call → Result Text) → Async Text
  ask get w = (get w.calls, record w { calls = w.calls ++ asked ∷ [] })

  -- The second half of `request`: refresh the credential, and try once more.
  refresh : (List Call → Result Text) → Failure → Text → Text → RequestOptions → Async (Option Json)
  refresh get e method path o = do
    fresh ← ask get
    c ← client
    if is_truthy fresh && not (text_eq fresh c.credential)
        then (set_credential fresh >> request_once method path o)
        else throw e

  unfoldable pub retry_with :
      Option (List Call → Result Text)
      → Failure
      → Text
      → Text
      → RequestOptions
      → Async (Option Json)
  unfolding refresh may_refresh
  retry_with none e method path o w = throw e w
  retry_with (some get) e method path o w =
      if may_refresh e o w.client.credential then refresh get e method path o w else throw e w

  -- The catch block of `request`.
  unfoldable pub retry_refreshed : Failure → Text → Text → RequestOptions → Async (Option Json)
  unfolding retry_with
  retry_refreshed e method path o = retry_with host.get_credential e method path o

  -- request(method, path, options)
  unfoldable pub request : Text → Text → RequestOptions → Async (Option Json)
  unfolding request_once retry_refreshed
  request method path o =
      catch_error (request_once method path o) (λ e. retry_refreshed e method path o)
