-- ===== src/Client/Api/Pages.antt =====
-- The demo client asks for a page of messages with the URL that the SDK's REST client builds.
use airway_im_plugin.Base.{
  ℕ, zero, suc, ◌+◌, ◌/◌, ◌%◌, ◌≡◌, refl, sym, ◌∙◌, ap, true, Option, none, some, List, [], ◌∷◌,
  ◌++◌, All, arith, append_assoc, append-nil, Option-cases, Bool-cases, inl, inr, ltb,
}
use airway_im_plugin.Text.{Text, text, is_truthy}
use airway_im_plugin.Dict.{put}
use airway_im_plugin.Json.{Json, decimal, decimal_onto}
use airway_im_plugin.Url.{
  trim_end, trim_start, keep_slash, join_url, build_url, encode_uri_component, is_unreserved,
  query_parts, with_query, join_parts,
}
use airway_im_plugin.Url.Laws.{encode_unreserved, encode_empty}
use airway_im_plugin.Http
use airway_im_plugin.Http.{
  HttpRequest, Host, World, Call, Async, Failure, caught, RequestOptions, Result, ok, fail, sent,
  outcome, request_once, retry_refreshed, retry_with, send, headers_of,
}
use airway_im_plugin.Http.Conversations
use airway_im_plugin.Http.Conversations.{conversation_path, shown}
use airway_im_plugin.Client.Api.{FetchRequest, path_of, list_messages, request, with_credential}

-- Texts that encodeURIComponent leaves.
abbrev AreUnreserved : Text → Type 0
AreUnreserved s = All (λ (c : ℕ). is_unreserved c ≡ true) s

encode-AreUnreserved : (s : Text) → AreUnreserved s → encode_uri_component s ≡ some s
encode-AreUnreserved [] h = encode_empty
encode-AreUnreserved (c ∷ cs) h = encode_unreserved c cs h.0 ∙ rw (encode-AreUnreserved cs h.1) refl

digit_lem : (n : ℕ) → is_unreserved (48 + n % 10) ≡ true
unfolding is_unreserved
digit_lem n = ground arith

decimal_onto-AreUnreserved :
    (fuel n : ℕ) (s : Text) → AreUnreserved s → AreUnreserved (decimal_onto fuel n s)
unfolding decimal_onto
decimal_onto-AreUnreserved zero n s h = h
decimal_onto-AreUnreserved (suc fuel) n s h =
    let d : AreUnreserved ((48 + n % 10) ∷ s) = (digit_lem n, h) in
    elim (Bool-cases (ltb n 10)) [
      | inl p ↦ rw p d
      | inr p ↦ rw p (decimal_onto-AreUnreserved fuel (n / 10) ((48 + n % 10) ∷ s) d)
    ]

decimal_encoded : (n : ℕ) → encode_uri_component (decimal n) ≡ some (decimal n)
decimal_encoded n =
    encode-AreUnreserved (decimal n) (unfold decimal in decimal_onto-AreUnreserved (suc n) n [] tt)

trim_end-keep_slash :
    (c : ℕ) (s : Text) → trim_end s ≡ s → trim_end (keep_slash c s) ≡ keep_slash c s
unfolding trim_end keep_slash
trim_end-keep_slash c [] h = ground arith
trim_end-keep_slash c (d ∷ s) h = rw h refl

trim_end-twice : (s : Text) → trim_end (trim_end s) ≡ trim_end s
unfolding trim_end
trim_end-twice [] = refl
trim_end-twice (c ∷ s) = trim_end-keep_slash c (trim_end s) (trim_end-twice s)

join_url-api :
    (base rest : Text)
    → join_url (trim_end base) (b'/' ∷ b'a' ∷ rest) ≡ trim_end base ++ b'/' ∷ b'a' ∷ rest
unfolding join_url trim_start
join_url-api base rest = rw (trim_end-twice base) refl

after_sequence-encoded : encode_uri_component (text "after_sequence") ≡ some (text "after_sequence")
unfolding is_unreserved
after_sequence-encoded = encode-AreUnreserved (text "after_sequence") (ground arith)

limit-encoded : encode_uri_component (text "limit") ≡ some (text "limit")
unfolding is_unreserved
limit-encoded = encode-AreUnreserved (text "limit") (ground arith)

query_parts-two :
    (j k v x : Text)
    → encode_uri_component j ≡ some j
    → encode_uri_component k ≡ some k
    → encode_uri_component v ≡ some v
    → encode_uri_component x ≡ some x
    → query_parts ((j, some v) ∷ (k, some x) ∷ []) ≡ some ((j ++ b'=' ∷ v) ∷ (k ++ b'=' ∷ x) ∷ [])
unfolding query_parts
query_parts-two j k v x e f g h = ground (arith, e, f, g, h)

-- The SDK's URL of a page.
build_url-page :
    (base rest : Text) (a l : ℕ)
    → build_url
        (trim_end base)
        (b'/' ∷ b'a' ∷ rest)
        ((text "after_sequence", some (decimal a)) ∷ (text "limit", some (decimal l)) ∷ [])
      ≡ some (
          trim_end base
          ++ ((b'/' ∷ b'a' ∷ rest)
              ++ (text "?after_sequence=" ++ (decimal a ++ (text "&limit=" ++ decimal l)))))
unfolding build_url query_parts with_query join_parts
build_url-page base rest a l =
    rw
      (
        query_parts-two (text "after_sequence") (text "limit") (decimal a) (decimal l)
            after_sequence-encoded limit-encoded (decimal_encoded a) (decimal_encoded l),
        build_url,
      )
      (rw (join_url-api base rest) (ap some (append_assoc (trim_end base) (b'/' ∷ b'a' ∷ rest) _)))

caught-calls :
    (r : Result (Option Json)) (w : World) (f : Failure → Async (Option Json))
    → ((e : Failure) → (f e w).1 ≡ w)
    → (caught (r, w) f).1 ≡ w
caught-calls (ok a) w f h = refl
caught-calls (fail e) w f h = h e

-- A call that the SDK's client makes, whatever comes of it, where it cannot refresh its credential.
request-calls :
    (host : Host) (method path url : Text) (o : RequestOptions) (w : World)
    → host.get_credential ≡ none
    → build_url w.client.base_url path o.query ≡ some url
    → (Http.request host method path o w).1.calls
      ≡ w.calls
        ++ sent record {
          url = url;
          method = method;
          headers = headers_of w.client o;
          body = o.body;
          timeout_ms = w.client.timeout_ms;
        }
          ∷ []
unfolding Http.request request_once retry_refreshed retry_with send
request-calls host method path url o w h e =
    let q : HttpRequest = record {
      url = url;
      method = method;
      headers = headers_of w.client o;
      body = o.body;
      timeout_ms = w.client.timeout_ms;
    } in
    let w' : World = record w { calls = w.calls ++ sent q ∷ [] } in
    rw e (
      ap (λ (v : World). v.calls)
        (caught-calls (outcome (host.answer w.calls q)) w'
          (λ e'. retry_refreshed host e' method path o) (λ e'. rw (h, retry_with) refl)))

-- The SDK's request for a request of the demo client.
abbrev pub as_call : ℕ → Option FetchRequest → List Call
as_call timeout none = []
as_call timeout (some r) =
    sent record {
      url = r.url;
      method = r.method;
      headers = r.headers;
      body = r.body;
      timeout_ms = timeout;
    }
    ∷ []

-- What comes after the path of a conversation's messages.
abbrev page_query : ℕ → ℕ → Text
page_query a l = text "?after_sequence=" ++ (decimal a ++ (text "&limit=" ++ decimal l))

paths_none :
    (id tail query : Text)
    → encode_uri_component id ≡ none
    → (conversation_path id tail ≡ none) × (path_of id (tail ++ query) ≡ none)
unfolding conversation_path path_of
paths_none id tail query p = (rw (p, conversation_path) refl, rw (p, path_of) refl)

paths_some :
    (id e tail query : Text)
    → encode_uri_component id ≡ some e
    → (conversation_path id tail ≡ some (text "/api/v1/conversations/" ++ (e ++ tail)))
      × (path_of id (tail ++ query)
          ≡ some (text "/api/v1/conversations/" ++ (e ++ (tail ++ query))))
unfolding conversation_path path_of
paths_some id e tail query p = (rw (p, conversation_path) refl, rw (p, path_of) refl)

-- The options of the SDK's request for a page.
abbrev page_options : ℕ → ℕ → RequestOptions
page_options a l = record {
  query = (text "after_sequence", some (decimal a)) ∷ (text "limit", some (decimal l)) ∷ [];
  headers = [];
  body = none;
  auth = true;
}

page_url :
    (base e : Text) (a l : ℕ)
    → build_url
        (trim_end base)
        (text "/api/v1/conversations/" ++ (e ++ text "/messages"))
        (page_options a l).query
      ≡ some (
          trim_end (trim_end base)
          ++ (text "/api/v1/conversations/" ++ (e ++ (text "/messages" ++ page_query a l))))
page_url base e a l = rw (trim_end-twice base) (
    build_url-page base (text "pi/v1/conversations/" ++ (e ++ text "/messages")) a l
    ∙ ap (λ (t : Text). some (trim_end base ++ (text "/api/v1/conversations/" ++ t)))
        (append_assoc e (text "/messages") (page_query a l)))

-- The headers of a request without any of its own and without a body.
authorized :
    (base credential : Text) (timeout : ℕ) (o : RequestOptions)
    → is_truthy credential ≡ true
    → o.auth ≡ true
    → o.headers ≡ []
    → o.body ≡ none
    → headers_of (Http.new base credential (some timeout)) o
      ≡ (text "Authorization", text "Bearer " ++ credential) ∷ []
unfolding headers_of Http.new put
authorized base credential timeout o t p q r = ground (arith, t, p, q, r)

-- For any conversation, sequence and limit, and a credential that is not empty: the demo client's request for
-- a page of messages is the one that the SDK's client makes, which cannot refresh its credential, and the one
-- makes none, as encodeURIComponent throws, exactly if the other makes none.
pub list_messages_same :
    (host : Host) (base credential id : Text) (timeout : ℕ) (a l : ℕ) (calls : List Call)
    → host.get_credential ≡ none
    → is_truthy credential ≡ true
    → (Conversations.list_messages host id
        (some a)
        (some l)
        (record { client = Http.new base credential (some timeout); calls = calls })).1.calls
      ≡ calls ++ as_call timeout (list_messages id a l (with_credential base credential))
unfolding Conversations.list_messages shown list_messages request with_credential Http.new
list_messages_same host base credential id timeout a l calls h t =
    elim (Option-cases (encode_uri_component id)) [
      | inl p ↦
          let (q, q') = paths_none id (text "/messages") (page_query a l) p in
          rw (q, q', Conversations.list_messages, list_messages) (sym (append-nil calls))
      | inr (e, p) ↦
          let (q, q') = paths_some id e (text "/messages") (page_query a l) p in
          let w : World = record {
            client = Http.new base credential (some timeout);
            calls = calls;
          } in
          rw (q, q', Conversations.list_messages, list_messages)
            (request-calls host (text "GET") _ _ (page_options a l) w h (page_url base e a l)
              ∙ rw (authorized base credential timeout (page_options a l) t refl refl refl) refl)
    ]
