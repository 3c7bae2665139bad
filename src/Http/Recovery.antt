-- ===== src/Http/Recovery.antt =====
-- postMessage over a network that recovers: the retries bring the message to the server.
use airway_im_plugin.Base.{
  ℕ, zero, suc, ◌+◌, ◌≤◌, ◌<◌, ◌≡◌, refl, ◌∙◌, ap, Option, none, some, List, [], ◌∷◌, ◌++◌, arith,
}
use airway_im_plugin.Text.{Text, text}
use airway_im_plugin.Json.{Json, str}
use airway_im_plugin.Base.Int.{pos, negsuc}
use airway_im_plugin.Error.{is_auth_error}
use airway_im_plugin.Url.{build_url, join_url}
use airway_im_plugin.Http.{
  Failure, im_error, Result, ok, fail, HttpRequest, Call, sent, Host, World, request, outcome,
  or_else, retry_with, retry_refreshed, may_refresh, rejection,
}
use airway_im_plugin.Http.Refresh.{built, request_once-sent}
use airway_im_plugin.Http.Messages.{
  SendOptions, is_transport, post_once, post_loop, post_message, or_default,
}
use airway_im_plugin.Http.Retry.{sendings, sendings-append, options}

-- The network is down for the first k requests, each of which the adapter rejects with an error, and then the
-- server takes one.
pub record Recovers (host : Host) (k : ℕ) (reply : Option Json) : Type 0 where
  pub down :
      (calls : List Call) (q : HttpRequest)
      → sendings calls < k
      → (message : Option Json) × (host.answer calls q ≡ rejection message)
  pub up :
      (calls : List Call) (q : HttpRequest)
      → sendings calls ≡ k
      → outcome (host.answer calls q) ≡ ok reply

-- The error of a request that the network did not carry, by what the adapter's error says.
abbrev net_error : Option Json → Failure
net_error message = im_error (record {
  code = negsuc 0;
  message = or_else message (str (text "network error"));
  status = pos 0;
})

module _ (host : Host) (path : Text) (body : Json) (key : Text) where
  abbrev post : World → HttpRequest
  post w =
      built w.client (join_url w.client.base_url path) (text "POST") (options host path body key)

  url_built :
      (w : World) → build_url w.client.base_url path [] ≡ some (join_url w.client.base_url path)
  unfolding build_url
  url_built w = refl

  no_refresh :
      (message : Option Json) (give : Option (List Call → Result Text)) (w : World)
      → retry_with host give (net_error message) (text "POST") path (options host path body key) w
        ≡ (fail (net_error message), w)
  unfolding retry_with may_refresh is_auth_error
  no_refresh message none w = refl
  no_refresh message (some give) w = refl

  post_once-down :
      (w : World) (message : Option Json)
      → host.answer w.calls (post w) ≡ rejection message
      → post_once host path body key w
        ≡ (fail (net_error message), record w { calls = w.calls ++ sent (post w) ∷ [] })
  unfolding post_once request outcome retry_refreshed
  post_once-down w message h =
      rw
        (
          request_once-sent host (text "POST") path (options host path body key) w _ (url_built w),
          h,
        )
        (no_refresh message host.get_credential _)

  post_once-up :
      (w : World) (reply : Option Json)
      → outcome (host.answer w.calls (post w)) ≡ ok reply
      → post_once host path body key w
        ≡ (ok reply, record w { calls = w.calls ++ sent (post w) ∷ [] })
  unfolding post_once request
  post_once-up w reply h =
      rw
        (
          request_once-sent host (text "POST") path (options host path body key) w _ (url_built w),
          h,
        )
        refl

  sent_one : (w : World) → sendings (w.calls ++ sent (post w) ∷ []) ≡ suc (sendings w.calls)
  unfolding sendings
  sent_one w = omega (arith, sendings-append w.calls (sent (post w) ∷ []))

  -- The loop ends with the reply, after the k-th request and one more.
  abbrev Delivered : ℕ → Option Json → Result (Option Json) × World → Type 0
  Delivered k reply x = (x.0 ≡ ok reply) × (sendings x.1.calls ≡ suc k)

  up-Delivered :
      (left k : ℕ) (reply : Option Json) (w : World)
      → Recovers host k reply
      → sendings w.calls ≡ k
      → Delivered k reply (post_loop host path body key left w)
  unfolding post_loop
  up-Delivered zero k reply w r e =
      rw (post_once-up w reply (r.up w.calls (post w) e)) (refl, sent_one w ∙ ap suc e)
  up-Delivered (suc left) k reply w r e =
      rw (post_once-up w reply (r.up w.calls (post w) e)) (refl, sent_one w ∙ ap suc e)

  post_loop-Delivered :
      (left k ahead : ℕ) (reply : Option Json) (w : World)
      → Recovers host k reply
      → sendings w.calls + ahead ≡ k
      → ahead ≤ left
      → Delivered k reply (post_loop host path body key left w)
  unfolding post_loop is_transport
  post_loop-Delivered left k zero reply w r e h = up-Delivered left k reply w r (omega (arith, e))
  post_loop-Delivered zero k (suc ahead) reply w r e h = absurd (omega (arith, h))
  post_loop-Delivered (suc left) k (suc ahead) reply w r e h =
      let (message, d) = r.down w.calls (post w) (omega (arith, e)) in
      rw (post_once-down w message d) (
        post_loop-Delivered left k ahead reply _ r (omega (arith, e, sent_one w))
          (omega (arith, h)))

-- Where the network carries none of the first k requests and k is no more than the retries allowed,
-- postMessage returns the server's reply to the request after them, having sent k + 1 requests.
pub post_message-Delivered :
    (host : Host) (path : Text) (body : Json) (o : SendOptions) (random : Text) (k : ℕ)
    (reply : Option Json) (w : World)
    → Recovers host k reply
    → sendings w.calls ≡ 0
    → k ≤ or_default o.retries 1
    → let x = post_message host path body o random w in
      (x.0 ≡ ok reply) × (sendings x.1.calls ≡ suc k)
unfolding post_message
post_message-Delivered host path body o random k reply w r e h =
    post_loop-Delivered host path body (or_default o.idempotency_key random)
      (or_default o.retries 1) k k reply w r (omega (arith, e)) h
