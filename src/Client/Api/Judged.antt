-- ===== src/Client/Api/Judged.antt =====
-- The demo client takes the same answers for data as the SDK's REST client.
use airway_im_plugin.Base.{
  ℕ, ◌≡◌, refl, true, ◌&&◌, Option, none, some, arith, if◌then◌else◌, Bool-cases, inl, inr,
}
use airway_im_plugin.Text.{text}
use airway_im_plugin.Json.{Json, null, bool, num, str, arr, obj, is_zero, truthy, read}
use airway_im_plugin.Http.{
  Result, ok, fail, raw, classify, property, is_success, envelope_of, error_of,
}
use airway_im_plugin.Client.Api.{
  answered, Outcome, done, refused, thrown, judge, accepted, api_error,
}

-- The data, if that is what came.
abbrev pub data_of : Outcome → Option (Option Json)
data_of (done v) = some v
data_of (refused e) = none
data_of thrown = none

abbrev pub value_of : Result (Option Json) → Option (Option Json)
value_of (ok v) = some v
value_of (fail e) = none

error_of-fails : (c m : Option Json) (status : ℕ) → value_of (error_of c m status) ≡ none
unfolding error_of
error_of-fails none m status = refl
error_of-fails (some null) m status = refl
error_of-fails (some (bool b)) m status = refl
error_of-fails (some (num n)) m status = refl
error_of-fails (some (str s)) m status = refl
error_of-fails (some (arr vs)) m status = refl
error_of-fails (some (obj fs)) m status = refl

-- The two tests of a value that is not null.
same_test :
    (status : ℕ) (v : Json) (code : Option Json)
    → (is_zero code ≡ true → truthy (some v) ≡ true)
    → data_of (
        if is_success status && is_zero code
        then done (property (text "data") (some v))
        else refused (api_error status v))
      ≡ value_of (
          if is_success status && truthy (some v) && is_zero code
          then ok (property (text "data") (some v))
          else error_of
              (if truthy (some v) then code else none)
              (property (text "message") (some v))
              status)
same_test status v code h = elim (Bool-cases (is_zero code)) [
  | inl p ↦
      let q = h p in
      ground (arith, p, q, error_of-fails code (property (text "message") (some v)) status)
  | inr p ↦ ground (
    arith,
    p,
    error_of-fails (if truthy (some v) then code else none) (property (text "message") (some v))
        status,
  )
]

-- Whatever status and JSON text a server answers with: the demo client takes it for data exactly if the
-- SDK's requestOnce does, and for the same data.
pub judge-classify :
    (status : ℕ) (v : Json)
    → data_of (judge (answered status v)) ≡ value_of (classify status (raw (some v)))
unfolding judge accepted classify envelope_of truthy property read is_zero
judge-classify status null = ground arith
judge-classify status (bool b) = same_test status (bool b) none (λ e. cc)
judge-classify status (num n) = same_test status (num n) none (λ e. cc)
judge-classify status (str s) = same_test status (str s) none (λ e. cc)
judge-classify status (arr vs) =
    same_test status (arr vs) (property (text "code") (some (arr vs))) (λ e. refl)
judge-classify status (obj fs) =
    same_test status (obj fs) (property (text "code") (some (obj fs))) (λ e. refl)
