-- ===== src/Http/Refresh.antt =====
-- What `request` sends: when it asks the host for another credential, and what it sends again.
pub mod Sent
pub use Sent.*
use airway_im_plugin.Base.{
  ◌≡◌, refl, sym, ◌⊎◌, Bool, true, false, not, ◌&&◌, Option, none, some, List, [], ◌∷◌, ◌++◌, arith,
  Bool-cases, Option-cases, inl, inr, append_assoc, append-nil, if_cases,
}
use airway_im_plugin.Text.{Text, text_eq, is_truthy}
use airway_im_plugin.Dict.{get}
use airway_im_plugin.Url.{build_url}
use airway_im_plugin.Json.{Json}
use airway_im_plugin.Error.{is_auth_error}
use airway_im_plugin.Http.{
  Failure, im_error, other, Result, ok, fail, HttpRequest, Call, sent, asked, Host, World,
  RequestOptions, outcome, request_once, request, refresh, retry_refreshed, ask, retry_with, caught,
  set_credential, Async, may_refresh,
}

-- Two requests for the same url, with the same time limit.
abbrev pub SameTarget : HttpRequest → HttpRequest → Type 0
SameTarget q p = (q.url ≡ p.url) × (q.timeout_ms ≡ p.timeout_ms)

-- The answer is an error that says that the credential is missing, malformed or expired.
abbrev pub is_rejected : Result (Option Json) → Bool
is_rejected (ok v) = false
is_rejected (fail other) = false
is_rejected (fail (im_error e)) = is_auth_error e

-- Why nothing is refreshed: the answer is not about the credential, the host gave no getCredential,
-- or the request is anonymous.
abbrev pub IsFinal : Host → RequestOptions → Text → Result (Option Json) → Type 0
IsFinal host o c r =
    (is_rejected r ≡ false) ⊎ (host.get_credential ≡ none) ⊎ (o.auth && is_truthy c ≡ false)

-- What getCredential brings is the same credential or none, and the first answer is the result; or
-- it fails, and its failure is the result.
abbrev pub Unchanged : Text → Result Text → Result (Option Json) → Result (Option Json) → Type 0
Unchanged c (ok fresh) first r = (is_truthy fresh && not (text_eq fresh c) ≡ false) × (r ≡ first)
Unchanged c (fail f) first r = r ≡ fail f

abbrev pub Asked : Host → List Call → Text → Result (Option Json) → Result (Option Json) → Type 0
Asked host calls c first r =
    (get : List Call → Result Text) × (host.get_credential ≡ some get)
    × Unchanged c (get calls) first r

-- getCredential brought this credential, which is not empty.
abbrev pub Brought : Host → List Call → Text → Type 0
Brought host calls d =
    (get : List Call → Result Text) × (host.get_credential ≡ some get)
    × (get calls ≡ ok d)
    × (is_truthy d ≡ true)

-- What `request` may do, by the calls that it makes: `u` is the url, if it can be made, `c` and `d` are the
-- credentials before and after, `r` is the result.
abbrev pub Exchange :
    Host
    → Text
    → RequestOptions
    → Option Text
    → List Call
    → Text
    → Text
    → List Call
    → Result (Option Json)
    → Type 0
Exchange host method o u before c d [] r = (d ≡ c) × (u ≡ none) × (r ≡ fail other)
Exchange host method o u before c d (sent q ∷ []) r =
    (d ≡ c) × Carries u method o c q × (r ≡ outcome (host.answer before q)) × IsFinal host o c r
Exchange host method o u before c d (sent q ∷ asked ∷ []) r =
    (d ≡ c)
    × Carries u method o c q
    × (is_rejected (outcome (host.answer before q)) ≡ true)
    × Asked host (before ++ sent q ∷ []) c (outcome (host.answer before q)) r
Exchange host method o u before c d (sent q ∷ asked ∷ sent p ∷ []) r =
    (text_eq d c ≡ false)
    × Carries u method o c q
    × (is_rejected (outcome (host.answer before q)) ≡ true)
    × Carries u method o d p
    × SameTarget q p
    × (r ≡ outcome (host.answer (before ++ sent q ∷ asked ∷ []) p))
    × Brought host (before ++ sent q ∷ []) d
Exchange host method o u before c d _ r = ⊥

-- The state after `request` and its calls.
abbrev pub Exchanged :
    Host → Text → Text → RequestOptions → World → Result (Option Json) × World → Type 0
Exchanged host method path o w x =
    (new : List Call) × (x.1.calls ≡ w.calls ++ new)
    × Exchange host method o (build_url w.client.base_url path o.query) w.calls w.client.credential
        x.1.client.credential new x.0

module _ (host : Host) (method path url : Text) (o : RequestOptions) (w : World) where
  abbrev first : HttpRequest
  first = built w.client url method o

  abbrev after_first : World
  after_first = record w { calls = w.calls ++ sent first ∷ [] }

  abbrev after_asked : World
  after_asked = record w { calls = (w.calls ++ sent first ∷ []) ++ asked ∷ [] }

  -- The calls `first` and `asked`, with a result that is not another request's.
  asked-Exchanged :
      (give : List Call → Result Text) (r : Result (Option Json))
      → host.get_credential ≡ some give
      → build_url w.client.base_url path o.query ≡ some url
      → is_rejected (outcome (host.answer w.calls first)) ≡ true
      → Unchanged w.client.credential
          (give after_first.calls)
          (outcome (host.answer w.calls first))
          r
      → Exchanged host method path o w (r, after_asked)
  asked-Exchanged give r g h k u = (
    sent first ∷ asked ∷ [],
    append_assoc w.calls (sent first ∷ []) (asked ∷ []),
    (refl, built-Carries w.client _ url method o h, k, (give, g, u)),
  )

  again-Exchanged :
      (give : List Call → Result Text) (fresh : Text)
      → host.get_credential ≡ some give
      → give after_first.calls ≡ ok fresh
      → is_truthy fresh ≡ true
      → build_url w.client.base_url path o.query ≡ some url
      → is_rejected (outcome (host.answer w.calls first)) ≡ true
      → text_eq fresh w.client.credential ≡ false
      → Exchanged host method path o w (
          request_once host method path o
            (record after_asked { client = record w.client { credential = fresh } }))
  again-Exchanged give fresh g y t h k ne =
      let c = record w.client { credential = fresh } in
      rw (request_once-sent host method path o (record after_asked { client = c }) url h) (
        sent first ∷ asked ∷ sent (built c url method o) ∷ [],
        simp (append_assoc),
        (
          ne,
          built-Carries w.client _ url method o h,
          k,
          built-Carries c _ url method o h,
          (refl, refl),
          simp (append_assoc),
          (give, g, y, t),
        ),
      )

  refresh-Exchanged :
      (give : List Call → Result Text) (e : Failure) (got : Result Text)
      → host.get_credential ≡ some give
      → build_url w.client.base_url path o.query ≡ some url
      → is_rejected (outcome (host.answer w.calls first)) ≡ true
      → outcome (host.answer w.calls first) ≡ fail e
      → give after_first.calls ≡ got
      → Exchanged host method path o w (refresh host give e method path o after_first)
  unfolding refresh ask set_credential
  refresh-Exchanged give e (fail f) g h k x y =
      rw y (asked-Exchanged give (fail f) g h k (rw y refl))
  refresh-Exchanged give e (ok fresh) g h k x y = rw y (
      if_cases (λ (m : Async (Option Json)). Exchanged host method path o w (m after_asked))
        (is_truthy fresh && not (text_eq fresh w.client.credential)) _ _
        (λ t. again-Exchanged give fresh g y (ground arith) h k (ground arith))
        (λ t. asked-Exchanged give (fail e) g h k (rw y (t, sym x))))

module _ (host : Host) (method path url : Text) (o : RequestOptions) (w : World) where
  sent-Exchanged :
      (r : Result (Option Json))
      → build_url w.client.base_url path o.query ≡ some url
      → outcome (host.answer w.calls (first host method path url o w)) ≡ r
      → IsFinal host o w.client.credential r
      → Exchanged host method path o w (r, after_first host method path url o w)
  sent-Exchanged r h x final = (
    sent (first host method path url o w) ∷ [],
    refl,
    (refl, built-Carries w.client _ url method o h, sym x, final),
  )

  retry-Exchanged :
      (give : Option (List Call → Result Text)) (e : Failure)
      → host.get_credential ≡ give
      → build_url w.client.base_url path o.query ≡ some url
      → outcome (host.answer w.calls (first host method path url o w)) ≡ fail e
      → Exchanged host method path o w
          (retry_with host give e method path o (after_first host method path url o w))
  unfolding retry_with may_refresh
  retry-Exchanged none e g h x = sent-Exchanged (fail e) h x (inr (inl g))
  retry-Exchanged (some give) other g h x = sent-Exchanged (fail other) h x (inl refl)
  retry-Exchanged (some give) (im_error e) g h x =
      if_cases (Exchanged host method path o w)
        (is_auth_error e && o.auth && is_truthy w.client.credential) _ _
        (λ t.
          refresh-Exchanged host method path url o w give (im_error e) _ g h (rw x (ground arith)) x
            refl)
        (λ t. sent-Exchanged (fail (im_error e)) h x (elim (Bool-cases (is_auth_error e)) [
          | inl a ↦ inr (inr (ground arith))
          | inr a ↦ inl a
        ]))

  caught-Exchanged :
      (r : Result (Option Json))
      → build_url w.client.base_url path o.query ≡ some url
      → outcome (host.answer w.calls (first host method path url o w)) ≡ r
      → Exchanged host method path o w (
          caught
            (r, after_first host method path url o w)
            (λ e. retry_refreshed host e method path o))
  unfolding retry_refreshed
  caught-Exchanged (ok v) h x = sent-Exchanged (ok v) h x (inl refl)
  caught-Exchanged (fail e) h x = retry-Exchanged host.get_credential e refl h x

unsent-Exchanged :
    (host : Host) (method path : Text) (o : RequestOptions) (w : World)
    (give : Option (List Call → Result Text))
    → build_url w.client.base_url path o.query ≡ none
    → Exchanged host method path o w (retry_with host give other method path o w)
unfolding retry_with may_refresh
unsent-Exchanged host method path o w none n = ([], sym (append-nil w.calls), (refl, n, refl))
unsent-Exchanged host method path o w (some give) n =
    ([], sym (append-nil w.calls), (refl, n, refl))

-- What `request` sends and returns. It sends nothing only where the url cannot be made. It sends one
-- request and returns its answer where that is no authentication error, the host gave no
-- getCredential, or the request is anonymous. Otherwise it asks the host once: a failure of
-- getCredential is the result, and where the credential is empty or the same, the first answer is.
-- Only for another credential is there a second request, with the credential that getCredential brought,
-- which the client keeps; its answer is the result. Both requests have the url of the client's base, the path
-- and the query, the same time limit, the given method and body and the option's Idempotency-Key.
pub request-Exchanged :
    (host : Host) (method path : Text) (o : RequestOptions) (w : World)
    → Exchanged host method path o w (request host method path o w)
unfolding request retry_refreshed
request-Exchanged host method path o w =
    elim (Option-cases (build_url w.client.base_url path o.query)) [
      | inl n ↦
          rw (request_once-unsent host method path o w n)
            (unsent-Exchanged host method path o w host.get_credential n)
      | inr (url, h) ↦
          rw (request_once-sent host method path o w url h)
            (caught-Exchanged host method path url o w _ h refl)
    ]
