-- ===== src/Adapter/Requests.antt =====
-- How the adapters make requests and uploads (install/ignore/sdk/ts/dist/esm/browser.js and wechat.js), and
-- what the REST client is handed. `parse` is JSON.parse, where it does not throw.
pub mod Agree
use airway_im_plugin.Base.{ℕ, Bool, Option, none, some, List, [], ◌∷◌, ◌++◌, if◌then◌else◌}
use airway_im_plugin.Text.{Text, text, is_truthy}
use airway_im_plugin.Json.{Json, str}
use airway_im_plugin.Http
use airway_im_plugin.Http.{HttpRequest, Body, raw, value, Reply, other}
use airway_im_plugin.Http.Storage
use airway_im_plugin.Http.Storage.{Upload, UploadReply}

-- What goes out in the browser: the timer of AbortController, fetch, and the timer's end.
pub data Effect : Type 0 where
  sets_timeout : ℕ → Effect
  fetches : HttpRequest → Effect
  posts_form : Text → Text → Option Text → Effect
  reads_file : Text → Effect
  clears_timeout : Effect

-- What a fetch and `res.text()` come to: an error with its message, or a status and a text.
pub data Fetched : Type 0 where
  rejected : Option Json → Fetched
  unreadable : ℕ → Option Json → Fetched
  fetched : ℕ → Text → Fetched

-- What wx.request hands to its callbacks: `fail` with errMsg, or `success` with a status and res.data, which
-- is a text, another value, or not there.
pub data WxData : Type 0 where
  wx_text : Text → WxData
  wx_value : Option Json → WxData

pub data WxReply : Type 0 where
  fail : Option Text → WxReply
  success : ℕ → WxData → WxReply

module _ (parse : Text → Option Json) where
  -- A text as the REST client reads it.
  unfoldable pub body_of : Json → Body
  body_of (str t) = raw (parse t)
  body_of v = value (some v)

  -- parseBody(res): the parsed text, or the text.
  unfoldable pub parse_body : Text → Body
  unfolding body_of
  parse_body t = elim (parse t) [ none ↦ raw (parse t) | some v ↦ body_of v ]

  -- The end of browserAdapter's http.request.
  unfoldable pub browser_reply : Fetched → Reply
  unfolding parse_body
  browser_reply (rejected message) = Reply.rejection message
  browser_reply (unreadable status message) = Reply.rejection message
  browser_reply (fetched status t) = Reply.response status (parse_body t)

  unfoldable pub wechat_body : WxData → Body
  wechat_body (wx_text t) = raw (parse t)
  wechat_body (wx_value v) = value v

  -- err.errMsg || message
  error_message : Option Text → Text → Option Json
  error_message none d = some (str d)
  error_message (some t) d = some (str (if is_truthy t then t else d))

  -- wechatAdapter's http.request, by what wx.request comes to.
  unfoldable pub wechat_reply : WxReply → Reply
  unfolding wechat_body error_message
  wechat_reply (fail message) = Reply.rejection (error_message message (text "wx.request failed"))
  wechat_reply (success status d) = Reply.response status (wechat_body d)

  -- The end of wechatAdapter's upload; its error is no IMError.
  unfoldable pub wechat_upload : WxReply → UploadReply
  unfolding wechat_body
  wechat_upload (fail message) = UploadReply.rejection other
  wechat_upload (success status d) = UploadReply.response status (wechat_body d)

  unfoldable pub browser_upload_reply : Fetched → UploadReply
  unfolding parse_body
  browser_upload_reply (rejected message) = UploadReply.rejection other
  browser_upload_reply (unreadable status message) = UploadReply.rejection other
  browser_upload_reply (fetched status t) = UploadReply.response status (parse_body t)

-- fetchWithTimeout(url, init, timeoutMs): the timer is cleared whatever the fetch comes to.
abbrev pub with_timeout : ℕ → Effect → List Effect
with_timeout timeout x = sets_timeout timeout ∷ x ∷ clears_timeout ∷ []

-- browserAdapter's http.request.
unfoldable pub browser_request : HttpRequest → List Effect
browser_request r = with_timeout r.timeout_ms (fetches r)

-- browserAdapter's upload of a file that is named by a url (blob:, data:, https:): the file is fetched first, and sent if that goes well.
unfoldable pub browser_upload : Upload → Bool → List Effect
browser_upload u read =
    with_timeout u.timeout_ms (reads_file u.file_path)
    ++ (if read then with_timeout u.timeout_ms (posts_form u.url u.name u.dir) else [])

-- The frames that an adapter's socket hands on: the texts, for a value of another kind is ignored.
unfoldable pub text_frames : List (Option Text) → List Text
text_frames [] = []
text_frames (none ∷ fs) = text_frames fs
text_frames (some t ∷ fs) = t ∷ text_frames fs
