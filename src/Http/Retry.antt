-- ===== src/Http/Retry.antt =====
-- The retries of postMessage: what is sent again, how often, and when the loop gives up.
use airway_im_plugin.Base.{
  ℕ, zero, suc, ◌+◌, ◌*◌, ◌≤◌, ◌≡◌, refl, ◌∙◌, ap, true, Option, some, List, [], ◌∷◌, ◌++◌, arith,
  All, All-append, append_assoc, if_cases, if◌then◌else◌,
}
use airway_im_plugin.Text.{Text, text, text_eq}
use airway_im_plugin.Dict.{get}
use airway_im_plugin.Json.{Json}
use airway_im_plugin.Http.{
  Failure, Result, ok, fail, Call, sent, asked, Host, World, RequestOptions, no_options, request,
  caught, throw, Async,
}
use airway_im_plugin.Http.Refresh.{Exchange, request-Exchanged}
use airway_im_plugin.Http.Messages.{
  SendOptions, is_transport, post_once, post_loop, post_message, or_default,
}

-- The call is getCredential's, or a POST of this body under this key.
abbrev pub Posts : Text → Json → Call → Type 0
Posts key body asked = Unit
Posts key body (sent q) =
    (q.method ≡ text "POST")
    × (q.body ≡ some body)
    × (get (text "Idempotency-Key") q.headers ≡ some key)

-- The number of requests among some calls.
unfoldable pub sendings : List Call → ℕ
sendings [] = 0
sendings (sent q ∷ cs) = suc (sendings cs)
sendings (asked ∷ cs) = sendings cs

pub sendings-append : (cs ds : List Call) → sendings (cs ++ ds) ≡ sendings cs + sendings ds
unfolding sendings
sendings-append [] ds = omega arith
sendings-append (sent q ∷ cs) ds = rw (sendings-append cs ds) (omega arith)
sendings-append (asked ∷ cs) ds = sendings-append cs ds

-- The fewest requests that n attempts make for a result: a transport failure is the result of all.
abbrev pub fewest : ℕ → Result (Option Json) → ℕ
fewest n (ok v) = 1
fewest n (fail e) = if is_transport e then n else 0

-- After `w` only such calls were made, at most two for each of n attempts, and no fewer requests
-- than the result takes.
abbrev pub Posted : Text → Json → ℕ → World → Result (Option Json) × World → Type 0
Posted key body n w x =
    (new : List Call) × (x.1.calls ≡ w.calls ++ new)
    × All (Posts key body) new
    × (fewest n x.0 ≤ sendings new)
    × (sendings new ≤ 2 * n)

module _ (host : Host) (path : Text) (body : Json) (key : Text) where
  abbrev pub options : RequestOptions
  options = record no_options { headers = (text "Idempotency-Key", key) ∷ []; body = some body }

  fewest-le : (r : Result (Option Json)) → fewest 1 r ≤ 1
  fewest-le (ok v) = omega arith
  fewest-le (fail e) = ground arith

  Exchange-Posted :
      (u : Option Text) (w : World) (r : Result (Option Json)) (x : World) (new : List Call)
      → x.calls ≡ w.calls ++ new
      → Exchange host (text "POST") options u w.calls w.client.credential x.client.credential new r
      → Posted key body 1 w (r, x)
  unfolding sendings is_transport get text_eq
  Exchange-Posted n w r x [] e (d, v, u) = ([], e, _, rw u (omega arith), omega arith)
  Exchange-Posted n w r x (sent q ∷ []) e (d, (m, b, k, a, z), u, i) =
      (sent q ∷ [], e, ((m, b, k), _), fewest-le r, omega arith)
  Exchange-Posted n w r x (asked ∷ new) e h = absurd h
  Exchange-Posted n w r x (sent q ∷ sent p ∷ new) e h = absurd h
  Exchange-Posted n w r x (sent q ∷ asked ∷ []) e (d, (m, b, k, a, z), u, i) =
      (sent q ∷ asked ∷ [], e, ((m, b, k), (_, _)), fewest-le r, omega arith)
  Exchange-Posted n w r x (sent q ∷ asked ∷ asked ∷ new) e h = absurd h
  Exchange-Posted n w r x (sent q ∷ asked ∷ sent p ∷ []) e
        (d, (m, b, k, a, z), u, (m', b', k', a', z'), v, i, j) =
      (
        sent q ∷ asked ∷ sent p ∷ [],
        e,
        ((m, b, k), (_, ((m', b', k'), _))),
        omega (arith, fewest-le r),
        omega arith,
      )
  Exchange-Posted n w r x (sent q ∷ asked ∷ sent p ∷ y ∷ new) e h = absurd h

  post_once-Posted : (w : World) → Posted key body 1 w (post_once host path body key w)
  unfolding post_once
  post_once-Posted w =
      let (new, e, h) = request-Exchanged host (text "POST") path options w in
      Exchange-Posted _ w _ (request host (text "POST") path options w).1 new e h

  fewest-suc :
      (n m : ℕ) (r : Result (Option Json)) → fewest (suc n) r ≤ m → fewest (suc (suc n)) r ≤ suc m
  fewest-suc n m (ok v) h = omega arith
  fewest-suc n m (fail e) h = ground arith

  retried-Posted :
      (left : ℕ) (w : World) (f : Failure) (x : World) (y : Result (Option Json) × World)
      → is_transport f ≡ true
      → Posted key body 1 w (fail f, x)
      → Posted key body (suc left) x y
      → Posted key body (suc (suc left)) w y
  retried-Posted left w f x y t (new, e, all, low, high) (next, e', all', low', high') =
      let some_sent : 1 ≤ sendings new = ground (arith, low) in
      let count = sendings-append new next in
      (
        new ++ next,
        e' ∙ ap (λ (l : List Call). l ++ next) e ∙ append_assoc w.calls new next,
        All-append (Posts key body) new next all all',
        omega (arith, count, some_sent, fewest-suc left (sendings next) y.0 low'),
        omega (arith, count),
      )

  rethrown : (x : Result (Option Json) × World) → caught x throw ≡ x
  rethrown (ok v, w) = refl
  rethrown (fail e, w) = refl

  caught-Posted :
      (left : ℕ) (w : World) (x : Result (Option Json) × World)
      → Posted key body 1 w x
      → ((v : World) → Posted key body (suc left) v (post_loop host path body key left v))
      → Posted key body
          (suc (suc left))
          w
          (caught x (λ e. if is_transport e then post_loop host path body key left else throw e))
  caught-Posted left w (ok v, x) (new, e, all, low, high) ih = (new, e, all, low, omega arith)
  caught-Posted left w (fail f, x) (new, e, all, low, high) ih =
      if_cases (λ (m : Async (Option Json)). Posted key body (suc (suc left)) w (m x))
        (is_transport f) _ _
        (λ t.
          retried-Posted left w f x (post_loop host path body key left x) t (new, e, all, low, high)
            (ih x))
        (λ t. (new, e, all, rw t (omega arith), omega arith))

  post_loop-Posted :
      (left : ℕ) (w : World) → Posted key body (suc left) w (post_loop host path body key left w)
  unfolding post_loop
  post_loop-Posted zero w = rw (rethrown (post_once host path body key w)) (post_once-Posted w)
  post_loop-Posted (suc left) w =
      caught-Posted left w (post_once host path body key w) (post_once-Posted w)
        (post_loop-Posted left)

-- One call of postMessage sends nothing but POSTs of its body under one Idempotency-Key, the option's
-- or else the one that randomId made: at most two for the first attempt and for each retry. A
-- transport failure is reported only after the first attempt and every retry.
pub post_message-Posted :
    (host : Host) (path : Text) (body : Json) (o : SendOptions) (random : Text) (w : World)
    → Posted
        (or_default o.idempotency_key random)
        body
        (suc (or_default o.retries 1))
        w
        (post_message host path body o random w)
unfolding post_message
post_message-Posted host path body o random w =
    post_loop-Posted host path body (or_default o.idempotency_key random) (or_default o.retries 1) w
