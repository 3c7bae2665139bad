-- ===== src/Url.antt =====
-- The URL helpers (install/ignore/sdk/ts/dist/esm/util.js: joinUrl, buildUrl) and
-- encodeURIComponent of the language, over UTF-16 code units.
pub mod Laws
use airway_im_plugin.Base.{
  ℕ, ◌+◌, ◌-◌, ◌*◌, ◌/◌, ◌%◌, Bool, ◌&&◌, ◌||◌, Option, none, some, List, [], ◌∷◌, ◌++◌, ◌==◌, ltb,
  leb, if◌then◌else◌,
}
use airway_im_plugin.Text.{Text}

-- s.replace(/^\/+/, "")
unfoldable pub trim_start : Text → Text
trim_start [] = []
trim_start (c ∷ s) = let rest = trim_start s in if c == b'/' then rest else c ∷ s

-- A character put in front of a text without slashes at its end.
unfoldable pub keep_slash : ℕ → Text → Text
keep_slash c [] = if c == b'/' then [] else c ∷ []
keep_slash c (d ∷ s) = c ∷ d ∷ s

-- s.replace(/\/+$/, "")
unfoldable pub trim_end : Text → Text
unfolding keep_slash
trim_end [] = []
trim_end (c ∷ s) = keep_slash c (trim_end s)

unfoldable pub join_url : Text → Text → Text
join_url base path = trim_end base ++ b'/' ∷ trim_start path

-- The characters that encodeURIComponent leaves: letters, digits, and - _ . ! ~ * ' ( ).
unfoldable pub is_unreserved : ℕ → Bool
is_unreserved c =
    (leb b'a' c && leb c b'z')
    || (leb b'A' c && leb c b'Z')
    || (leb b'0' c && leb c b'9')
    || c == b'-'
    || c == b'_'
    || c == b'.'
    || c == b'!'
    || c == b'~'
    || c == b'*'
    || c == 39
    || c == b'('
    || c == b')'

unfoldable pub hex_digit : ℕ → ℕ
hex_digit n = if ltb n 10 then 48 + n else 55 + n

-- One byte as `%XX`.
unfoldable pub percent : ℕ → Text
unfolding hex_digit
percent b = b'%' ∷ hex_digit (b / 16) ∷ hex_digit (b % 16) ∷ []

-- The UTF-8 bytes of a code point, each as `%XX`.
unfoldable pub percent_utf8 : ℕ → Text
percent_utf8 p =
    if ltb p 128
    then percent p
    else if ltb p 2048
    then percent (192 + p / 64) ++ percent (128 + p % 64)
    else if ltb p 65536
    then percent (224 + p / 4096) ++ percent (128 + (p / 64) % 64) ++ percent (128 + p % 64)
    else percent (240 + p / 262144)
      ++ percent (128 + (p / 4096) % 64)
      ++ percent (128 + (p / 64) % 64)
      ++ percent (128 + p % 64)

unfoldable pub is_high : ℕ → Bool
is_high c = leb 55296 c && leb c 56319

unfoldable pub is_low : ℕ → Bool
is_low c = leb 56320 c && leb c 57343

-- One code unit that is no half of a pair.
unfoldable pub encode_unit : ℕ → Text
encode_unit c = if is_unreserved c then c ∷ [] else percent_utf8 c

after : Text → Option Text → Option Text
after s none = none
after s (some t) = some (s ++ t)

-- encodeURIComponent(s), with the first half of a pair that waits for its second; `none` is the
-- URIError on a half that stands alone.
encode_from : Option ℕ → Text → Option Text
unfolding after
encode_from none [] = some []
encode_from (some high) [] = none
encode_from none (c ∷ s) =
    let pair = encode_from (some c) s in
    let plain = after (encode_unit c) (encode_from none s) in
    if is_low c then none else if is_high c then pair else plain
encode_from (some high) (c ∷ s) =
    let joined =
      after (percent_utf8 ((high - 55296) * 1024 + (c - 56320) + 65536)) (encode_from none s) in
    if is_low c then joined else none

unfoldable pub encode_uri_component : Text → Option Text
unfolding encode_from
encode_uri_component s = encode_from none s

-- The parts `key=value` of a query; a value that is undefined is left out.
unfoldable pub query_parts : List (Text × Option Text) → Option (List Text)
query_parts [] = some []
query_parts ((key, none) ∷ q) = query_parts q
query_parts ((key, some value) ∷ q) = elim (encode_uri_component key) [
  | none ↦ none
  | some k ↦ elim (encode_uri_component value) [
    | none ↦ none
    | some v ↦ elim (query_parts q) [ none ↦ none | some ps ↦ some ((k ++ b'=' ∷ v) ∷ ps) ]
  ]
]

-- parts.join("&")
unfoldable pub join_parts : List Text → Text
join_parts [] = []
join_parts (p ∷ []) = p
join_parts (p ∷ q ∷ ps) = p ++ b'&' ∷ join_parts (q ∷ ps)

unfoldable pub with_query : Text → List Text → Text
unfolding join_parts
with_query url [] = url
with_query url (p ∷ ps) = url ++ b'?' ∷ join_parts (p ∷ ps)

-- buildUrl(base, path, query); without a query its list is empty.
unfoldable pub build_url : Text → Text → List (Text × Option Text) → Option Text
unfolding query_parts with_query
build_url base path query = elim (query_parts query) [
  | none ↦ none
  | some ps ↦ some (with_query (join_url base path) ps)
]
