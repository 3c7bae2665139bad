-- ===== src/Http/Storage.antt =====
-- uploadFile and storageUrl (install/ignore/sdk/ts/dist/esm/http.js). The adapter's upload is an
-- argument: it resolves with a response, or rejects and its error goes on unchanged.
pub mod Keys
use airway_im_plugin.Base.{
  ℕ, Bool, true, false, ◌&&◌, ◌==◌, Option, none, some, List, [], ◌∷◌, ◌++◌, if◌then◌else◌, max,
}
use airway_im_plugin.Base.Int.{pos, negsuc}
use airway_im_plugin.Text.{Text, text, is_truthy}
use airway_im_plugin.Json.{Json, str, decimal, truthy}
use airway_im_plugin.Url.{join_url, encode_uri_component}
use airway_im_plugin.Http.{
  ImHttpClient, Failure, im_error, Result, ok, fail, Body, envelope_of, property, or_else,
  is_success,
}

-- The adapter's upload: a local path or a file, as the platform names it, to a url.
pub record Upload : Type 0 where
  pub url : Text
  pub file_path : Text
  pub name : Text
  pub dir : Option Text
  pub timeout_ms : ℕ

pub data UploadReply : Type 0 where
  rejection : Failure → UploadReply
  response : ℕ → Body → UploadReply

-- `dir ? { dir } : undefined`
form_dir : Option Text → Option Text
form_dir none = none
form_dir (some d) = if is_truthy d then some d else none

-- typeof parsed.key === "string"
has_key : Option Json → Bool
has_key (some (str k)) = true
has_key _ = false

-- A property of a value that may be null or undefined: `parsed?.error`.
upload_error : ℕ → Option Json → Result (Option Json)
upload_error status parsed = fail (
    im_error (record {
      code = negsuc 0;
      message =
          or_else (property (text "error") parsed)
            (str (text "upload failed: HTTP " ++ decimal status));
      status = pos status;
    }))

unfoldable pub upload_outcome : UploadReply → Result (Option Json)
unfolding has_key upload_error
upload_outcome (rejection e) = fail e
upload_outcome (response status body) =
    let parsed = envelope_of body in
    if is_success status && truthy parsed && has_key (property (text "key") parsed)
    then ok parsed
    else upload_error status parsed

upload_request : ImHttpClient → Text → Option Text → Upload
unfolding form_dir
upload_request c file_path dir = record {
  url = join_url c.base_url (text "/api/v1/storage");
  file_path = file_path;
  name = text "file";
  dir = form_dir dir;
  timeout_ms = max c.timeout_ms 60000;
}

-- uploadFile(filePath, dir)
unfoldable pub upload_file :
    Option (Upload → UploadReply) → ImHttpClient → Text → Option Text → Result (Option Json)
unfolding upload_request
upload_file none c file_path dir = fail (
    im_error (record {
      code = negsuc 0;
      message = str (text "The current adapter does not support file upload");
      status = pos 0;
    }))
upload_file (some upload) c file_path dir = upload_outcome (upload (upload_request c file_path dir))

-- A character put in front of the first part.
onto_first : ℕ → List Text → List Text
onto_first c [] = (c ∷ []) ∷ []
onto_first c (p ∷ ps) = (c ∷ p) ∷ ps

-- s.split("/")
unfoldable pub split_slash : Text → List Text
unfolding onto_first
split_slash [] = [] ∷ []
split_slash (c ∷ s) =
    let parts = split_slash s in if c == b'/' then [] ∷ parts else onto_first c parts

-- parts.map(encodeURIComponent).join("/")
join_encoded : List Text → Option Text
join_encoded [] = some []
join_encoded (p ∷ []) = encode_uri_component p
join_encoded (p ∷ q ∷ ps) = elim (encode_uri_component p) [
  | none ↦ none
  | some e ↦ elim (join_encoded (q ∷ ps)) [ none ↦ none | some rest ↦ some (e ++ b'/' ∷ rest) ]
]

-- storageUrl(key); `none` is the URIError of encodeURIComponent.
unfoldable pub storage_url : ImHttpClient → Text → Option Text
unfolding join_encoded
storage_url c key = elim (join_encoded (split_slash key)) [
  | none ↦ none
  | some path ↦ some (join_url c.base_url (text "/api/v1/storage/" ++ path))
]
