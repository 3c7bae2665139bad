-- ===== src/Http/Refresh/Sent.antt =====
-- What requestOnce sends: the url, the method, the body and the headers that the options ask for.
use airway_im_plugin.Base.{
  ◌≡◌, refl, Bool, true, false, ◌&&◌, Option, none, some, [], ◌∷◌, ◌++◌, if◌then◌else◌, is_some,
}
use airway_im_plugin.Text.{Text, text, text_eq, is_truthy}
use airway_im_plugin.Dict.{Dict, put, get}
use airway_im_plugin.Dict.Laws.{get-put}
use airway_im_plugin.Url.{build_url}
use airway_im_plugin.Http.{
  other, fail, HttpRequest, sent, Host, ImHttpClient, World, RequestOptions, headers_of, outcome,
  send, request_once,
}

-- The request that a client with these settings builds for a url.
abbrev pub built : ImHttpClient → Text → Text → RequestOptions → HttpRequest
built c url method o = record {
  url = url;
  method = method;
  headers = headers_of c o;
  body = o.body;
  timeout_ms = c.timeout_ms;
}

pub request_once-sent :
    (host : Host) (method path : Text) (o : RequestOptions) (w : World) (url : Text)
    → build_url w.client.base_url path o.query ≡ some url
    → request_once host method path o w ≡ (
      outcome (host.answer w.calls (built w.client url method o)),
      record w { calls = w.calls ++ sent (built w.client url method o) ∷ [] },
    )
unfolding request_once send
request_once-sent host method path o w url h = rw h refl

pub request_once-unsent :
    (host : Host) (method path : Text) (o : RequestOptions) (w : World)
    → build_url w.client.base_url path o.query ≡ none
    → request_once host method path o w ≡ (fail other, w)
unfolding request_once send
request_once-unsent host method path o w h = rw h refl

authorization-put :
    (typed authorized : Bool) (v t : Text) (m : Dict Text)
    → let inner = if authorized then put (text "Authorization") v m else m in
      get (text "Authorization") (if typed then put (text "Content-Type") t inner else inner)
      ≡ (if authorized then some v else get (text "Authorization") m)
unfolding text_eq
authorization-put true true v t m =
    rw
      (
        get-put (text "Content-Type") (text "Authorization") t (put (text "Authorization") v m),
        get-put (text "Authorization") (text "Authorization") v m,
      )
      refl
authorization-put true false v t m =
    rw (get-put (text "Content-Type") (text "Authorization") t m) refl
authorization-put false true v t m =
    rw (get-put (text "Authorization") (text "Authorization") v m) refl
authorization-put false false v t m = refl

other_header-put :
    (k : Text)
    → text_eq (text "Authorization") k ≡ false
    → text_eq (text "Content-Type") k ≡ false
    → (typed authorized : Bool) (v t : Text) (m : Dict Text)
    → let inner = if authorized then put (text "Authorization") v m else m in
      get k (if typed then put (text "Content-Type") t inner else inner) ≡ get k m
other_header-put k a c true true v t m =
    rw
      (
        get-put (text "Content-Type") k t (put (text "Authorization") v m),
        get-put (text "Authorization") k v m,
        a,
        c,
      )
      refl
other_header-put k a c true false v t m = rw (get-put (text "Content-Type") k t m, c) refl
other_header-put k a c false true v t m = rw (get-put (text "Authorization") k v m, a) refl
other_header-put k a c false false v t m = refl

-- The request is the one that the options ask for, with the credential `c` as its Authorization
-- unless it is anonymous: its method, its body, the options' Idempotency-Key, and the url `u`.
abbrev pub Carries : Option Text → Text → RequestOptions → Text → HttpRequest → Type 0
Carries u method o c q =
    (q.method ≡ method)
    × (q.body ≡ o.body)
    × (get (text "Idempotency-Key") q.headers ≡ get (text "Idempotency-Key") o.headers)
    × (get (text "Authorization") q.headers ≡ (
        if o.auth && is_truthy c
        then some (text "Bearer " ++ c)
        else get (text "Authorization") o.headers))
    × (u ≡ some q.url)

pub built-Carries :
    (c : ImHttpClient) (u : Option Text) (url method : Text) (o : RequestOptions)
    → u ≡ some url
    → Carries u method o c.credential (built c url method o)
unfolding headers_of text_eq
built-Carries c u url method o h =
    let authorized = o.auth && is_truthy c.credential in
    let bearer = text "Bearer " ++ c.credential in
    let json = text "application/json" in
    (
      refl,
      refl,
      other_header-put (text "Idempotency-Key") refl refl (is_some o.body) authorized bearer json
          o.headers,
      authorization-put (is_some o.body) authorized bearer json o.headers,
      h,
    )
