-- ===== src/Internal/Minting.antt =====
-- What minting a credential returns.
use airway_im_plugin.Base.{
  ℕ, ◌≡◌, ◌∙◌, sym, refl, Bool, true, false, ◌&&◌, Option, none, some, ◌≤◌, ◌<◌, arith, if_cases,
  if◌then◌else◌, [], ◌∷◌,
}
use airway_im_plugin.Base.Int.{pos}
use airway_im_plugin.Text.{Text, text, text_eq}
use airway_im_plugin.Dict.{get}
use airway_im_plugin.Url.{join_url}
use airway_im_plugin.Json.{Json, null, bool, arr, obj, str, num, truthy, is_zero, read}
use airway_im_plugin.Http.{Failure, im_error, other, Result, ok, fail, property, is_success}
use airway_im_plugin.Internal.{
  InternalClient, Runtime, MintOptions, Minted, FetchReply, rejection, answered, unreadable,
  outcome, InternalRequest, sets_timeout, fetches, clears_timeout, mint_body, judge, accepted_data,
  response_error, is_text, minted, mint_credential, request, sending, transport_error,
}

-- A status 2xx, an envelope with code 0, and in its data a credential that is a text.
abbrev pub Grants : ℕ → Option Json → Json → Text → Type 0
Grants status envelope v credential =
    (200 ≤ status)
    × (status < 300)
    × (is_zero (property (text "code") envelope) ≡ true)
    × (property (text "data") envelope ≡ some v)
    × (property (text "credential") (some v) ≡ some (str credential))

-- A result of `request` that is right for an answer.
abbrev Right : ℕ → Option Json → Result Json → Type 0
Right status envelope (ok v) = (credential : Text) × Grants status envelope v credential
Right status envelope (fail (im_error e)) = e.status ≡ pos status
Right status envelope (fail other) = ⊥

text_of : (o : Option Json) → is_text o ≡ true → (t : Text) × (o ≡ some (str t))
unfolding is_text
text_of (some (str t)) h = (t, refl)
text_of (some null) h = absurd (cc)
text_of (some (bool b)) h = absurd (cc)
text_of (some (num n)) h = absurd (cc)
text_of (some (arr vs)) h = absurd (cc)
text_of (some (obj fs)) h = absurd (cc)
text_of none h = absurd (cc)

response_error-Right :
    (code message : Option Json) (status : ℕ) (envelope : Option Json)
    → Right status envelope (response_error code message status)
unfolding response_error
response_error-Right (some (num c)) message status envelope = refl
response_error-Right (some null) message status envelope = refl
response_error-Right (some (bool b)) message status envelope = refl
response_error-Right (some (str t)) message status envelope = refl
response_error-Right (some (arr vs)) message status envelope = refl
response_error-Right (some (obj fs)) message status envelope = refl
response_error-Right none message status envelope = refl

code_of :
    (b : Bool) (o : Option Json) → b && is_zero (if b then o else none) ≡ true → is_zero o ≡ true
code_of true o h = h
code_of false o h = absurd (cc)

accepted_data-Right :
    (status : ℕ) (envelope d : Option Json) (e : Result Json)
    → Right status envelope e
    → 200 ≤ status
    → status < 300
    → is_zero (property (text "code") envelope) ≡ true
    → property (text "data") envelope ≡ d
    → Right status envelope (accepted_data d e)
unfolding accepted_data
accepted_data-Right status envelope none e r lo hi c q = r
accepted_data-Right status envelope (some v) e r lo hi c q =
    if_cases (Right status envelope)
      (truthy (some v) && is_text (property (text "credential") (some v))) _ _
      (λ t.
        let (credential, p) = text_of (property (text "credential") (some v)) (ground arith) in
        (credential, (lo, hi, c, q, p)))
      (λ t. r)

both : (a b c : Bool) → a && b && c ≡ true → (a ≡ true) × (b && c ≡ true)
both a b c h = ground arith

success-bounds : (status : ℕ) → is_success status ≡ true → (200 ≤ status) × (status < 300)
unfolding is_success
success-bounds status h = ground arith

judge-Right : (status : ℕ) (envelope : Option Json) → Right status envelope (judge status envelope)
unfolding judge
judge-Right status envelope =
    let code = if truthy envelope then property (text "code") envelope else none in
    let wrong = response_error-Right code (property (text "message") envelope) status envelope in
    if_cases (Right status envelope) (is_success status && truthy envelope && is_zero code) _ _
      (λ t.
        let (ok_status, ok_code) = both (is_success status) (truthy envelope) (is_zero code) t in
        let (low, high) = success-bounds status ok_status in
        accepted_data-Right status envelope (property (text "data") envelope) _ wrong low high
          (code_of (truthy envelope) (property (text "code") envelope) ok_code) refl)
      (λ t. wrong)

-- An envelope that has a property is an object.
code_truthy : (k : Text) (o : Option Json) → is_zero (property k o) ≡ true → truthy o ≡ true
unfolding property read is_zero truthy
code_truthy k (some (obj fs)) h = refl
code_truthy k (some null) h = absurd (cc)
code_truthy k (some (bool b)) h = absurd (cc)
code_truthy k (some (num n)) h = absurd (cc)
code_truthy k (some (str t)) h = absurd (cc)
code_truthy k (some (arr vs)) h = absurd (cc)
code_truthy k none h = absurd (cc)

text_truthy :
    (k : Text) (o : Option Json) (t : Text) → property k o ≡ some (str t) → truthy o ≡ true
unfolding property read truthy
text_truthy k (some (obj fs)) t h = refl
text_truthy k (some null) t h = absurd (cc)
text_truthy k (some (bool b)) t h = absurd (cc)
text_truthy k (some (num n)) t h = absurd (cc)
text_truthy k (some (str u)) t h = absurd (cc)
text_truthy k (some (arr vs)) t h = absurd (cc)
text_truthy k none t h = absurd (cc)

success_true : (status : ℕ) → 200 ≤ status → status < 300 → is_success status ≡ true
unfolding is_success
success_true status lo hi = ground arith

Grants-judge :
    (status : ℕ) (envelope : Option Json) (v : Json) (credential : Text)
    → Grants status envelope v credential
    → judge status envelope ≡ ok v
unfolding judge accepted_data is_text
Grants-judge status envelope v credential (low, high, c, d, p) =
    rw
      (
        success_true status low high,
        code_truthy (text "code") envelope c,
        c,
        d,
        accepted_data,
        text_truthy (text "credential") (some v) credential p,
        p,
      )
      refl

-- No answer of this status and envelope grants a credential.
abbrev pub Denies : ℕ → Option Json → Type 0
Denies status envelope = (v : Json) (credential : Text) → ¬ Grants status envelope v credential

fail-Denies :
    (status : ℕ) (envelope : Option Json) (e : Failure)
    → judge status envelope ≡ fail e
    → Denies status envelope
fail-Denies status envelope e h v credential g =
    let both_ways : fail e ≡ ok v = sym h ∙ Grants-judge status envelope v credential g in cc

-- What mintCredential returns on an answer of fetch: a credential exactly where one is granted.
abbrev pub Answers : FetchReply → Result Minted → Type 0
Answers (answered status envelope) (ok m) =
    (v : Json) × (credential : Text) × Grants status envelope v credential
    × (m.credential ≡ some (str credential))
Answers (answered status envelope) (fail (im_error e)) =
    (e.status ≡ pos status) × Denies status envelope
Answers (rejection message) (fail (im_error e)) = e.status ≡ pos 0
Answers (unreadable status) (fail other) = Unit
Answers _ _ = ⊥

minted-Answers :
    (status : ℕ) (envelope : Option Json) (r : Result Json)
    → judge status envelope ≡ r
    → Right status envelope r
    → Answers (answered status envelope) (minted r)
unfolding minted
minted-Answers status envelope (ok v) j (credential, (low, high, c, q, p)) =
    (v, credential, (low, high, c, q, p), p)
minted-Answers status envelope (fail (im_error e)) j h =
    (h, fail-Denies status envelope (im_error e) j)
minted-Answers status envelope (fail other) j h = absurd h

outcome-Answers : (reply : FetchReply) → Answers reply (minted (outcome reply))
unfolding outcome minted transport_error
outcome-Answers (rejection message) = refl
outcome-Answers (answered status envelope) =
    minted-Answers status envelope _ refl (judge-Right status envelope)
outcome-Answers (unreadable status) = tt

-- The request that mintCredential sends.
abbrev posted : InternalClient → MintOptions → InternalRequest
posted c o = record {
  url = join_url c.base_url (text "/internal/v1/credentials");
  headers =
      (text "Content-Type", text "application/json")
      ∷ (text "X-IM-Internal-Secret", c.internal_secret)
      ∷ [];
  body = mint_body o;
}

-- Where the runtime has fetch, mintCredential calls it once, between setting and clearing its timer if it can
-- abort, with the url of the internal API, the options in the body and the secret in a header. On an answer that
-- is read, it returns a credential that is a text where the status is 2xx, the code is 0 and the data holds that
-- text, and an error with the answer's status where no text is granted so. A rejection of fetch becomes an
-- error with status 0, and where the body cannot be read, what was thrown is thrown on as it is.
pub mint_credential-Answers :
    (runtime : Runtime) (c : InternalClient) (o : MintOptions) (f : InternalRequest → FetchReply)
    → runtime.fetch ≡ some f
    → let (r, out) = mint_credential runtime c o in
      (q : InternalRequest) × (q.url ≡ join_url c.base_url (text "/internal/v1/credentials"))
      × (q.body ≡ mint_body o)
      × (get (text "X-IM-Internal-Secret") q.headers ≡ some c.internal_secret)
      × (out ≡ (
          if runtime.can_abort
          then sets_timeout c.timeout_ms ∷ fetches q ∷ clears_timeout ∷ []
          else fetches q ∷ []))
      × Answers (f q) r
unfolding mint_credential request sending get text_eq
mint_credential-Answers runtime c o f h =
    rw (h, request) (posted c o, refl, refl, refl, refl, outcome-Answers (f (posted c o)))
