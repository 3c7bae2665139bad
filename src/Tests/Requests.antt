-- ===== src/Tests/Requests.antt =====
-- The REST client at concrete inputs.
use airway_im_plugin.Base.{ℕ, ◌≡◌, refl, none, some, List, [], ◌∷◌, arith, ltb, if◌then◌else◌}
use airway_im_plugin.Base.Int.{pos}
use airway_im_plugin.Text.{Text, text, text_eq}
use airway_im_plugin.Json.{Json, null, num, str, obj, field, end, read, truthy, is_zero}
use airway_im_plugin.Error.{is_auth_error}
use airway_im_plugin.Url.{build_url}
use airway_im_plugin.Http.{
  ok, HttpRequest, Reply, rejection, response, value, raw, Call, Host, ImHttpClient, World,
  no_options, request, outcome, classify, request_once, send, envelope_of, property, headers_of,
  set_credential, ask,
}
use airway_im_plugin.Http.Refresh.{Exchanged, request-Exchanged}
use airway_im_plugin.Http.Messages.{SendOptions, post_message, or_default}
use airway_im_plugin.Http.Retry.{Posted, sendings, post_message-Posted}
use airway_im_plugin.Http.Recovery.{Recovers, post_message-Delivered}

abbrev client : ImHttpClient
client = record { base_url = text "https://host"; credential = text "old"; timeout_ms = 15000 }

abbrev start : World
start = record { client = client; calls = [] }

-- {"code": code, "data": "done"}
abbrev envelope : ℕ → Json
envelope code =
    obj (field (text "code") (num (pos code)) (field (text "data") (str (text "done")) end))

-- A server that refuses the first request's credential, and a host that has another.
abbrev answer_after_refresh : List Call → HttpRequest → Reply
answer_after_refresh [] q = response 401 (value (some (envelope 10001)))
answer_after_refresh (c ∷ cs) q = response 200 (raw (some (envelope 0)))

abbrev refreshing : Host
refreshing = record {
  answer = answer_after_refresh;
  get_credential = some (λ calls. ok (text "new"));
}

test_request :
    (request refreshing (text "GET") (text "/api/v1/me") no_options start).0
    ≡ ok (some (str (text "done")))
unfolding request request_once send outcome classify envelope_of property read truthy is_zero
    build_url headers_of is_auth_error set_credential ask text_eq
test_request = refl

request-Exchanged_example :
    Exchanged refreshing
      (text "GET")
      (text "/api/v1/me")
      no_options
      start
      (request refreshing (text "GET") (text "/api/v1/me") no_options start)
request-Exchanged_example =
    request-Exchanged refreshing (text "GET") (text "/api/v1/me") no_options start

-- The network is down for the first two requests.
abbrev answer_third : List Call → HttpRequest → Reply
answer_third calls q =
    if ltb (sendings calls) 2
    then rejection (some (str (text "Failed to fetch")))
    else response 201 (value (some (envelope 0)))

abbrev recovering : Host
recovering = record { answer = answer_third; get_credential = none }

abbrev patient : SendOptions
patient = record { content_type = none; idempotency_key = none; retries = some 3 }

recovering-Recovers : Recovers recovering 2 (some (str (text "done")))
unfolding outcome classify envelope_of property read truthy is_zero text_eq
recovering-Recovers = record {
  down = λ calls q h. (some (str (text "Failed to fetch")), ground arith);
  up = λ calls q h. rw h refl;
}

abbrev path : Text
path = text "/api/v1/messages"

post_message-Posted_example :
    Posted (text "key") null 4 start (post_message recovering path null patient (text "key") start)
unfolding or_default
post_message-Posted_example = post_message-Posted recovering path null patient (text "key") start

post_message-Delivered_example :
    let x = post_message recovering path null patient (text "key") start in
    (x.0 ≡ ok (some (str (text "done")))) × (sendings x.1.calls ≡ 3)
unfolding or_default sendings
post_message-Delivered_example =
    post_message-Delivered recovering path null patient (text "key") 2 (some (str (text "done")))
      start recovering-Recovers refl (omega arith)
