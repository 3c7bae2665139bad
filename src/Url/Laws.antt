-- ===== src/Url/Laws.antt =====
-- What the URL helpers promise: one slash between base and path, and encoded texts that cannot end
-- a path segment or a query part.
use airway_im_plugin.Base.{
  ℕ, ◌+◌, ◌≡◌, refl, Bool, true, false, Option, none, some, [], ◌∷◌, ◌++◌, ◌==◌, arith, All,
  All-append, ap, ◌||◌, ◌-◌, ◌*◌, ltb, ◌/◌, ◌%◌, Bool-cases, Option-cases, inl, inr,
}
use airway_im_plugin.Text.{Text}
use airway_im_plugin.Url.{
  trim_start, trim_end, join_url, keep_slash, encode_uri_component, encode_from, encode_unit,
  percent, percent_utf8, is_unreserved, hex_digit, after, is_low, is_high,
}

abbrev pub slash : Text
slash = b'/' ∷ []

trim_end-slash : (s : Text) → trim_end (s ++ slash) ≡ trim_end s
unfolding trim_end
trim_end-slash [] = refl
trim_end-slash (c ∷ s) = ap (keep_slash c) (trim_end-slash s)

-- However many slashes end the base or begin the path, the joined URL is the same.
join_url_one_slash :
    (base path : Text)
    → (join_url (base ++ slash) path ≡ join_url base path)
      × (join_url base (b'/' ∷ path) ≡ join_url base path)
unfolding join_url trim_start
join_url_one_slash base path = (ap (λ t. t ++ b'/' ∷ trim_start path) (trim_end-slash base), refl)

-- A character that ends a path segment, or a part, key or whole of a query.
unfoldable pub is_separator : ℕ → Bool
is_separator c = c == b'/' || c == b'?' || c == b'&' || c == b'=' || c == b'#'

abbrev pub IsPlain : ℕ → Type 0
IsPlain c = is_separator c ≡ false

hex_digit-IsPlain : (n : ℕ) → IsPlain (hex_digit n)
unfolding is_separator hex_digit
hex_digit-IsPlain n = ground arith

percent-IsPlain : (b : ℕ) → All IsPlain (percent b)
unfolding percent is_separator
percent-IsPlain b = (refl, (hex_digit-IsPlain (b / 16), (hex_digit-IsPlain (b % 16), tt)))

percent_utf8-IsPlain : (p : ℕ) → All IsPlain (percent_utf8 p)
unfolding percent_utf8
percent_utf8-IsPlain p =
    let join = All-append IsPlain in
    elim (Bool-cases (ltb p 128)) [
      | inl h ↦ rw h (percent-IsPlain p)
      | inr h ↦ rw h (elim (Bool-cases (ltb p 2048)) [
        | inl k ↦ rw k (join _ _ (percent-IsPlain _) (percent-IsPlain _))
        | inr k ↦ rw k (elim (Bool-cases (ltb p 65536)) [
          | inl l ↦
              rw l (join _ _ (join _ _ (percent-IsPlain _) (percent-IsPlain _)) (percent-IsPlain _))
          | inr l ↦ rw l (
              join _ _
                (join _ _ (join _ _ (percent-IsPlain _) (percent-IsPlain _)) (percent-IsPlain _))
                (percent-IsPlain _))
        ])
      ])
    ]

unreserved-IsPlain : (c : ℕ) → is_unreserved c ≡ true → IsPlain c
unfolding is_unreserved is_separator
unreserved-IsPlain c h = ground arith

encode_unit-IsPlain : (c : ℕ) → All IsPlain (encode_unit c)
unfolding encode_unit
encode_unit-IsPlain c = elim (Bool-cases (is_unreserved c)) [
  | inl h ↦ rw h (unreserved-IsPlain c h, tt)
  | inr h ↦ rw h (percent_utf8-IsPlain c)
]

some_injective : (s t : Text) → some s ≡ some t → s ≡ t
some_injective s t e = cc

not_some : (t : Text) → none ≡ some t → ⊥
not_some t e = cc

abbrev joined : ℕ → ℕ → ℕ
joined high c = (high - 55296) * 1024 + (c - 56320) + 65536

after-IsPlain :
    (s : Text) (o : Option Text) {t : Text}
    → All IsPlain s
    → ((u : Text) → o ≡ some u → All IsPlain u)
    → after s o ≡ some t
    → All IsPlain t
unfolding after
after-IsPlain s none h k e = cc
after-IsPlain s (some u) h k e = rw (← some_injective _ _ e) (All-append IsPlain s u h (k u refl))

encode_from-IsPlain : (p : Option ℕ) (s t : Text) → encode_from p s ≡ some t → All IsPlain t
unfolding encode_from
encode_from-IsPlain none [] t e = rw (← some_injective _ _ e) tt
encode_from-IsPlain (some high) [] t e = cc
encode_from-IsPlain none (c ∷ s) t e = elim (Bool-cases (is_low c)) [
  | inl p ↦ absurd (not_some t (rw p at e))
  | inr p ↦ elim (Bool-cases (is_high c)) [
    | inl q ↦ encode_from-IsPlain (some c) s t (rw q at (rw p at e))
    | inr q ↦
        after-IsPlain (encode_unit c) (encode_from none s) (encode_unit-IsPlain c)
          (λ u k. encode_from-IsPlain none s u k) (rw q at (rw p at e))
  ]
]
encode_from-IsPlain (some high) (c ∷ s) t e = elim (Bool-cases (is_low c)) [
  | inl p ↦
      after-IsPlain (percent_utf8 (joined high c)) (encode_from none s)
        (percent_utf8-IsPlain (joined high c)) (λ u k. encode_from-IsPlain none s u k) (rw p at e)
  | inr p ↦ absurd (not_some t (rw p at e))
]

-- Whatever text encodeURIComponent encodes, the result has none of / ? & = #: in a path it is one
-- segment, and in a query one key or value.
encode_uri_component-IsPlain : (s t : Text) → encode_uri_component s ≡ some t → All IsPlain t
unfolding encode_uri_component
encode_uri_component-IsPlain s t e = encode_from-IsPlain none s t e

abbrev pub prefixed : ℕ → Option Text → Option Text
prefixed c none = none
prefixed c (some t) = some (c ∷ t)

unreserved_alone : (c : ℕ) → is_unreserved c ≡ true → (is_low c ≡ false) × (is_high c ≡ false)
unfolding is_unreserved is_low is_high
unreserved_alone c h = ground arith

-- A character that is left stands as it is before the rest.
pub encode_unreserved :
    (c : ℕ) (p : Text)
    → is_unreserved c ≡ true
    → encode_uri_component (c ∷ p) ≡ prefixed c (encode_uri_component p)
unfolding encode_uri_component encode_from encode_unit after
encode_unreserved c p h =
    let (low, high) = unreserved_alone c h in
    elim (Option-cases (encode_from none p)) [
      | inl n ↦ rw (low, high, n) refl
      | inr (t, n) ↦ rw (low, high, n, h) refl
    ]

pub encode_empty : encode_uri_component [] ≡ some []
unfolding encode_uri_component encode_from
encode_empty = refl
