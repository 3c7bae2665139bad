-- ===== src/Http/Calls.antt =====
-- What IMHttpClient (install/ignore/sdk/ts/dist/esm/http.js) sends and is answered, its state, and computations
-- that may throw.
use airway_im_plugin.Base.{ℕ, Option, none, some, List}
use airway_im_plugin.Text.{Text}
use airway_im_plugin.Dict.{Dict}
use airway_im_plugin.Json.{Json}
use airway_im_plugin.Url.{trim_end}
use airway_im_plugin.Error.{ImError}

-- What is thrown: an IMError, or anything else (a URIError, a TypeError, the host's own error).
pub data Failure : Type 0 where
  im_error : ImError → Failure
  other : Failure

pub data Result (A : Type 0) : Type 0 where
  ok : A → Result A
  fail : Failure → Result A

pub record HttpRequest : Type 0 where
  pub url : Text
  pub method : Text
  pub headers : Dict Text
  pub body : Option Json
  pub timeout_ms : ℕ

-- A response's body: a text, as JSON.parse reads it (`none` where it throws), or a value that is no
-- text, or undefined.
pub data Body : Type 0 where
  raw : Option Json → Body
  value : Option Json → Body

-- The outcome of the adapter's request: a rejection, with `err?.message`, or a response.
pub data Reply : Type 0 where
  rejection : Option Json → Reply
  response : ℕ → Body → Reply

-- A call of the adapter, or of getCredential.
pub data Call : Type 0 where
  sent : HttpRequest → Call
  asked : Call

-- The adapter, and getCredential where the host gave one.
pub record Host : Type 0 where
  pub answer : List Call → HttpRequest → Reply
  pub get_credential : Option (List Call → Result Text)

pub record ImHttpClient : Type 0 where
  pub base_url : Text
  pub credential : Text
  pub timeout_ms : ℕ

-- The constructor, without what the host supplies.
unfoldable pub new : Text → Text → Option ℕ → ImHttpClient
new api_url credential timeout = record {
  base_url = trim_end api_url;
  credential = credential;
  timeout_ms = elim timeout [ none ↦ 15000 | some t ↦ t ];
}

pub record World : Type 0 where
  pub client : ImHttpClient
  pub calls : List Call

abbrev pub Async : Type 0 → Type 0
Async A = World → Result A × World

abbrev pub continue : {A B : Type 0} → Result A × World → (A → Async B) → Result B × World
continue (ok a, w) f = f a w
continue (fail e, w) f = (fail e, w)

infixl 5 ◌>>=◌ ◌>>◌
abbrev pub ◌>>=◌ : {A B : Type 0} → Async A → (A → Async B) → Async B
◌>>=◌ m f w = continue (m w) f

abbrev pub ◌>>◌ : {A B : Type 0} → Async A → Async B → Async B
◌>>◌ m n w = continue (m w) (λ a. n)

abbrev pub pure : {A : Type 0} → A → Async A
pure a w = (ok a, w)

abbrev pub throw : {A : Type 0} → Failure → Async A
throw e w = (fail e, w)

-- try { m } catch (err) { f(err) }
abbrev pub caught : {A : Type 0} → Result A × World → (Failure → Async A) → Result A × World
caught (ok a, w) f = (ok a, w)
caught (fail e, w) f = f e w

abbrev pub catch_error : {A : Type 0} → Async A → (Failure → Async A) → Async A
catch_error m f w = caught (m w) f

abbrev pub client : Async ImHttpClient
client w = (ok w.client, w)

-- setCredential(credential)
unfoldable pub set_credential : Text → Async Unit
set_credential c w = (ok _, record w { client = record w.client { credential = c } })

-- A value that may throw a URIError.
abbrev pub or_throw : {A : Type 0} → Option A → Async A
or_throw none = throw other
or_throw (some a) = pure a
