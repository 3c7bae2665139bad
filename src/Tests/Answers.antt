-- ===== src/Tests/Answers.antt =====
-- The demo client's requests and what it takes from answers, beside the SDK's, at concrete inputs.
use airway_im_plugin.Base.{◌≡◌, refl, none, some, Option, [], ◌++◌}
use airway_im_plugin.Base.Int.{pos}
use airway_im_plugin.Text.{Text, text, text_eq}
use airway_im_plugin.Json.{Json, decimal, num, str, obj, field, end, read, is_zero}
use airway_im_plugin.Url.{
  trim_end, encode_uri_component, encode_unit, percent, percent_utf8, hex_digit, is_unreserved,
  is_low, is_high,
}
use airway_im_plugin.Http
use airway_im_plugin.Http.{Host, Reply, raw, classify, is_success, property}
use airway_im_plugin.Http.Conversations
use airway_im_plugin.Client.Api.{
  FetchRequest, answered, done, thrown, minted, mint_request, judge, accepted, list_messages,
  path_of, request, with_credential,
}
use airway_im_plugin.Client.Api.Judged.{data_of, value_of, judge-classify}
use airway_im_plugin.Client.Api.Pages.{as_call, list_messages_same}

abbrev found : Json
found = obj (field (text "code") (num (pos 0)) (field (text "data") (str (text "hi")) end))

judge-classify_example :
    data_of (judge (answered 200 found)) ≡ value_of (classify 200 (raw (some found)))
judge-classify_example = judge-classify 200 found

test_judge :
    (data_of (judge (answered 200 found)) ≡ some (some (str (text "hi"))))
    × (data_of (judge (answered 500 found)) ≡ none)
unfolding judge accepted is_success property read is_zero text_eq
test_judge = (refl, refl)

-- A server that answers nothing, and a host that has no other credential.
abbrev silent : Host
silent = record { answer = λ calls q. Reply.rejection none; get_credential = none }

abbrev url_of : Option FetchRequest → Option Text
url_of none = none
url_of (some r) = some r.url

test_page :
    url_of (list_messages (text "c 1") 7 200 (with_credential (text "http://im//") (text "key")))
    ≡ some (text "http://im/api/v1/conversations/c%201/messages?after_sequence=7&limit=200")
unfolding list_messages path_of request with_credential encode_uri_component encode_unit percent
    percent_utf8 hex_digit is_unreserved is_low is_high decimal trim_end
test_page = refl

list_messages_same_example :
    (Conversations.list_messages silent (text "c 1") (some 7) (some 200) (record {
      client = Http.new (text "http://im//") (text "key") (some 15000);
      calls = [];
    })).1.calls
    ≡ []
      ++ as_call 15000
          (list_messages (text "c 1") 7 200 (with_credential (text "http://im//") (text "key")))
list_messages_same_example =
    list_messages_same silent (text "http://im//") (text "key") (text "c 1") 15000 7 200 [] refl
      refl

test_minted :
    (minted (answered 200 found) ≡ done none)
    × (minted (answered 200 (obj (field (text "code") (num (pos 0)) end))) ≡ thrown)
    × ((mint_request (text "http://im/") (text "s") (text "u1") (text "ann") none none).url
        ≡ text "http://im/internal/v1/credentials")
unfolding minted judge accepted is_success property read is_zero mint_request trim_end text_eq
test_minted = (refl, refl, refl)
