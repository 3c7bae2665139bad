-- ===== src/Tests/Urls.antt =====
-- The URL helpers at concrete inputs.
use airway_im_plugin.Base.{◌≡◌, refl, some}
use airway_im_plugin.Text.{text}
use airway_im_plugin.Url.{
  join_url, trim_start, trim_end, encode_uri_component, encode_unit, percent, percent_utf8,
  hex_digit, is_unreserved, is_low, is_high,
}

test_encode : encode_uri_component (text "a b/é") ≡ some (text "a%20b%2F%C3%A9")
unfolding encode_uri_component encode_unit percent percent_utf8 hex_digit is_unreserved is_low
    is_high
test_encode = refl

test_join : join_url (text "https://host//") (text "/api/v1/me") ≡ text "https://host/api/v1/me"
unfolding join_url trim_start trim_end
test_join = refl
