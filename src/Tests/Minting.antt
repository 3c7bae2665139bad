-- ===== src/Tests/Minting.antt =====
-- The internal client at concrete inputs.
use airway_im_plugin.Base.{◌≡◌, refl, true, some, none, [], ◌∷◌}
use airway_im_plugin.Base.Int.{pos}
use airway_im_plugin.Text.{text, text_eq}
use airway_im_plugin.Dict.{get}
use airway_im_plugin.Url.{join_url}
use airway_im_plugin.Json.{num, str, obj, field, end, read, truthy, is_zero}
use airway_im_plugin.Http.{ok, property, is_success}
use airway_im_plugin.Internal.{
  InternalClient, InternalRequest, Runtime, MintOptions, FetchReply, answered, sets_timeout,
  fetches, clears_timeout, mint_credential, mint_body, request, outcome, judge, is_text,
}
use airway_im_plugin.Internal.Minting.{Answers, mint_credential-Answers}

abbrev mint_client : InternalClient
mint_client = record {
  base_url = text "http://localhost:1906";
  internal_secret = text "secret";
  timeout_ms = 15000;
}

-- A server that grants every request.
abbrev grant : InternalRequest → FetchReply
grant q = answered 200 (
    some (
      obj (
        field (text "code") (num (pos 0))
          (field (text "data") (obj (field (text "credential") (str (text "key")) end)) end))))

abbrev runtime : Runtime
runtime = record { fetch = some grant; can_abort = true }

abbrev alice : MintOptions
alice = record {
  uuid = text "u1";
  name = text "alice";
  nickname = none;
  avatar_url = none;
  ttl_seconds = none;
}

test_mint :
    (mint_credential runtime mint_client alice).0
    ≡ ok (record { credential = some (str (text "key")); expires_at = none })
unfolding mint_credential request outcome judge is_text is_success property read truthy is_zero
    text_eq
test_mint = refl

mint_credential-Answers_example :
    let (r, out) = mint_credential runtime mint_client alice in
    (q : InternalRequest) × (q.url
      ≡ join_url mint_client.base_url (text "/internal/v1/credentials"))
    × (q.body ≡ mint_body alice)
    × (get (text "X-IM-Internal-Secret") q.headers ≡ some (text "secret"))
    × (out ≡ sets_timeout 15000 ∷ fetches q ∷ clears_timeout ∷ [])
    × Answers (grant q) r
mint_credential-Answers_example = mint_credential-Answers runtime mint_client alice grant refl
