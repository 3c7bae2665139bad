-- ===== src/Http/Storage/Keys.antt =====
-- The urls of stored files: a key keeps its slashes.
use airway_im_plugin.Base.{
  ℕ, ◌≡◌, refl, ◌∙◌, true, ◌||◌, some, List, [], ◌∷◌, ◌++◌, ◌==◌, All, arith, Bool-cases, inl, inr,
  Option-cases,
}
use airway_im_plugin.Text.{Text, text}
use airway_im_plugin.Url.{encode_uri_component, is_unreserved, join_url}
use airway_im_plugin.Url.Laws.{prefixed, encode_unreserved, encode_empty}
use airway_im_plugin.Http.{ImHttpClient}
use airway_im_plugin.Http.Storage.{storage_url, split_slash, join_encoded, onto_first}

-- A slash, or a character that encodeURIComponent leaves.
abbrev pub IsKeyUnit : ℕ → Type 0
IsKeyUnit c = is_unreserved c || c == b'/' ≡ true

join_encoded-slash :
    (q : Text) (ps : List Text) → join_encoded ([] ∷ q ∷ ps) ≡ prefixed b'/' (join_encoded (q ∷ ps))
unfolding join_encoded
join_encoded-slash q ps = elim (Option-cases (join_encoded (q ∷ ps))) [
  | inl n ↦ rw (encode_empty, join_encoded) (rw (n, join_encoded) refl)
  | inr (t, n) ↦ rw (encode_empty, join_encoded) (rw (n, join_encoded) refl)
]

join_encoded-onto_first :
    (c : ℕ) (parts : List Text)
    → is_unreserved c ≡ true
    → join_encoded (onto_first c parts) ≡ prefixed c (join_encoded parts)
unfolding join_encoded onto_first
join_encoded-onto_first c [] h = encode_unreserved c [] h ∙ rw encode_empty refl
join_encoded-onto_first c (p ∷ []) h = encode_unreserved c p h
join_encoded-onto_first c (p ∷ q ∷ ps) h =
    rw (encode_unreserved c p h, join_encoded)
      (elim (Option-cases (encode_uri_component p)) [
        | inl n ↦ rw (n, join_encoded) refl
        | inr (t, n) ↦ elim (Option-cases (join_encoded (q ∷ ps))) [
          | inl m ↦ rw (n, m, join_encoded) refl
          | inr (u, m) ↦ rw (n, m, join_encoded) refl
        ]
      ])

split_slash-nonempty : (s : Text) → (p : Text) × (ps : List Text) × (split_slash s ≡ p ∷ ps)
unfolding split_slash
split_slash-nonempty [] = ([], [], refl)
split_slash-nonempty (c ∷ s) =
    let (p, ps, e) = split_slash-nonempty s in
    elim (Bool-cases (c == b'/')) [
      | inl q ↦ ([], split_slash s, rw q refl)
      | inr q ↦ (c ∷ p, ps, rw (q, e) refl)
    ]

empty_key : join_encoded ([] ∷ []) ≡ some []
unfolding join_encoded
empty_key = encode_empty

slash_before :
    (s : Text) → join_encoded ([] ∷ split_slash s) ≡ prefixed b'/' (join_encoded (split_slash s))
slash_before s = let (p, ps, e) = split_slash-nonempty s in rw e (join_encoded-slash p ps)

join_encoded-split_slash : (s : Text) → All IsKeyUnit s → join_encoded (split_slash s) ≡ some s
unfolding split_slash
join_encoded-split_slash [] h = empty_key
join_encoded-split_slash (c ∷ s) (h, hs) =
    let ih = join_encoded-split_slash s hs in
    elim (Bool-cases (c == b'/')) [
      | inl q ↦ rw q (rw (slash_before s, ih) (ground arith))
      | inr q ↦ rw q (rw (join_encoded-onto_first c (split_slash s) (ground arith), ih) refl)
    ]

-- A key of slashes and characters that encodeURIComponent leaves stands as it is in the url.
storage_url_plain :
    (c : ImHttpClient) (key : Text)
    → All IsKeyUnit key
    → storage_url c key ≡ some (join_url c.base_url (text "/api/v1/storage/" ++ key))
unfolding storage_url
storage_url_plain c key h = rw (join_encoded-split_slash key h, storage_url) refl
