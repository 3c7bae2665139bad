-- ===== src/Client/Screen/Colors.antt =====
-- Names keep their colors, and up to twelve names have different ones.
use airway_im_plugin.Base.{
  ℕ, zero, suc, ◌+◌, ◌≡◌, ◌≢◌, ◌≤◌, ◌<◌, refl, sym, ◌∙◌, ap, none, some, List, [], ◌∷◌, ◌==◌, arith,
  length, get_elem?, if◌then◌else◌, Option-cases, Bool-cases, inl, inr,
}
use airway_im_plugin.Text.{Text, text_eq, text_eq_iff}
use airway_im_plugin.Dict
use airway_im_plugin.Dict.{Dict}
use airway_im_plugin.Dict.Laws.{get-put}
use airway_im_plugin.Client.Screen.{color_at, color_for_name}

-- The first twelve colors are told apart by their places.
place : ℕ → ℕ
place c =
    if c == 196
    then 0
    else if c == 208
    then 1
    else if c == 214
    then 2
    else if c == 220
    then 3
    else if c == 154
    then 4
    else if c == 82
    then 5
    else if c == 201
    then 6
    else if c == 207
    then 7
    else if c == 218
    then 8
    else if c == 177
    then 9
    else if c == 189
    then 10
    else 11

place-color_at : (i : ℕ) → i < 12 → place (color_at i) ≡ i
unfolding place color_at
place-color_at zero h = refl
place-color_at (suc zero) h = refl
place-color_at (suc (suc zero)) h = refl
place-color_at (suc (suc (suc zero))) h = refl
place-color_at (suc (suc (suc (suc zero)))) h = refl
place-color_at (suc (suc (suc (suc (suc zero))))) h = refl
place-color_at (suc (suc (suc (suc (suc (suc zero)))))) h = refl
place-color_at (suc (suc (suc (suc (suc (suc (suc zero))))))) h = refl
place-color_at (suc (suc (suc (suc (suc (suc (suc (suc zero)))))))) h = refl
place-color_at (suc (suc (suc (suc (suc (suc (suc (suc (suc zero))))))))) h = refl
place-color_at (suc (suc (suc (suc (suc (suc (suc (suc (suc (suc zero)))))))))) h = refl
place-color_at (suc (suc (suc (suc (suc (suc (suc (suc (suc (suc (suc zero))))))))))) h = refl
place-color_at (suc (suc (suc (suc (suc (suc (suc (suc (suc (suc (suc (suc i)))))))))))) h =
    absurd (omega arith)

-- The entries from the place `i` on have the colors of their places.
abbrev IsPainted : ℕ → Dict ℕ → Type 0
IsPainted i [] = Unit
IsPainted i ((name, c) ∷ d) = (c ≡ color_at i) × IsPainted (suc i) d

put-IsPainted :
    (name : Text) (i k : ℕ) (d : Dict ℕ)
    → Dict.get name d ≡ none
    → k ≡ i + length d
    → IsPainted i d
    → IsPainted i (Dict.put name (color_at k) d)
unfolding Dict.put Dict.get
put-IsPainted name i k [] new e h = let e' : k ≡ i = omega arith in (rw e' refl, tt)
put-IsPainted name i k ((n, c) ∷ d) new e h = elim (Bool-cases (text_eq n name)) [
  | inl p ↦ absurd (ground (arith, new, p))
  | inr p ↦ rw p (h.0, put-IsPainted name (suc i) k d (rw p at new) (omega arith) h.1)
]

-- Where a name stands.
found :
    (name : Text) (i c : ℕ) (d : Dict ℕ)
    → IsPainted i d
    → Dict.get name d ≡ some c
    → (j : ℕ) × (j < length d) × (get_elem? (Dict.keys d) j ≡ some name) × (c ≡ color_at (i + j))
unfolding Dict.get Dict.keys
found name i c [] h e = cc
found name i c ((n, b) ∷ d) h e = elim (Bool-cases (text_eq n name)) [
  | inl p ↦
      let z : i ≡ i + 0 = omega arith in
      (
        0,
        omega arith,
        ap some ((text_eq_iff n name).0 p),
        ground (arith, h.0, e, p) ∙ ap color_at z,
      )
  | inr p ↦
      let (j, lt, at, col) = found name (suc i) c d h.1 (rw p at e) in
      let z : suc i + j ≡ i + suc j = omega arith in (suc j, omega arith, at, col ∙ ap color_at z)
]

-- Coloring one name after another, as they come.
unfoldable pub color_all : List Text → Dict ℕ → Dict ℕ
color_all [] d = d
color_all (name ∷ names) d = color_all names (color_for_name name d).1

color_for_name-IsPainted :
    (name : Text) (d : Dict ℕ) → IsPainted 0 d → IsPainted 0 (color_for_name name d).1
unfolding color_for_name
color_for_name-IsPainted name d h = elim (Option-cases (Dict.get name d)) [
  | inl e ↦ rw (e, color_for_name) (put-IsPainted name 0 (length d) d e (omega arith) h)
  | inr (c, e) ↦ rw (e, color_for_name) h
]

color_all-IsPainted :
    (names : List Text) (d : Dict ℕ) → IsPainted 0 d → IsPainted 0 (color_all names d)
unfolding color_all
color_all-IsPainted [] d h = h
color_all-IsPainted (name ∷ names) d h =
    color_all-IsPainted names (color_for_name name d).1 (color_for_name-IsPainted name d h)

color_for_name-keeps :
    (name other : Text) (c : ℕ) (d : Dict ℕ)
    → Dict.get other d ≡ some c
    → Dict.get other (color_for_name name d).1 ≡ some c
unfolding color_for_name
color_for_name-keeps name other c d h = elim (Option-cases (Dict.get name d)) [
  | inl e ↦
      rw (e, color_for_name)
        (ground (arith, get-put name other (color_at (length d)) d, text_eq_iff name other, e, h))
  | inr (b, e) ↦ rw (e, color_for_name) h
]

color_all-keeps :
    (names : List Text) (other : Text) (c : ℕ) (d : Dict ℕ)
    → Dict.get other d ≡ some c
    → Dict.get other (color_all names d) ≡ some c
unfolding color_all
color_all-keeps [] other c d h = h
color_all-keeps (name ∷ names) other c d h =
    color_all-keeps names other c (color_for_name name d).1 (color_for_name-keeps name other c d h)

some_injective : (a b : Text) → some a ≡ some b → a ≡ b
some_injective a b e = cc

place_of : (i : ℕ) (c : ℕ) → i < 12 → c ≡ color_at (0 + i) → place c ≡ i
place_of i c lt e =
    let z : 0 + i ≡ i = omega arith in ap place (e ∙ ap color_at z) ∙ place-color_at i lt

-- On a screen that has colored some names, at most twelve: two different ones do not have the same color, and
-- whatever names come later, they keep theirs.
colors_apart :
    (names later : List Text) (a b : Text) (c e : ℕ)
    → Dict.get a (color_all names []) ≡ some c
    → Dict.get b (color_all names []) ≡ some e
    → length (color_all names []) ≤ 12
    → a ≢ b
    → (c ≢ e)
      × (Dict.get a (color_all later (color_all names [])) ≡ some c)
      × (Dict.get b (color_all later (color_all names [])) ≡ some e)
colors_apart names later a b c e at_a at_b few apart =
    let d = color_all names [] in
    let painted = color_all-IsPainted names [] tt in
    let (i, lt, here, col) = found a 0 c d painted at_a in
    let (j, lt', here', col') = found b 0 e d painted at_b in
    let place_a = place_of i c (omega arith) col in
    let place_b = place_of j e (omega arith) col' in
    (
      λ same.
          let same_place : i ≡ j = sym place_a ∙ ap place same ∙ place_b in
          apart (some_injective a b (sym here ∙ ap (get_elem? (Dict.keys d)) same_place ∙ here')),
      color_all-keeps later a c d at_a,
      color_all-keeps later b e d at_b,
    )
