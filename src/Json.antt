-- ===== src/Json.antt =====
-- The values that `JSON.parse` returns, and what the SDK reads of them: properties, entries,
-- `typeof`, truth in a condition, and sameness in a `Set`. The numbers are the integers.
use airway_im_plugin.Base.{
  ℕ, zero, suc, ◌+◌, ◌/◌, ◌%◌, Bool, true, false, Option, none, some, List, [], ◌∷◌, ltb, not, ◌≡◌,
  refl, ap, if◌then◌else◌,
}
use airway_im_plugin.Base.Int.{ℤ, pos, negsuc, ◌==ℤ◌}
use airway_im_plugin.Text.{Text, text_eq, is_truthy}

mutual
  pub data Json : Type 0 where
    null : Json
    bool : Bool → Json
    num : ℤ → Json
    str : Text → Json
    arr : Items → Json
    obj : Fields → Json

  pub data Items : Type 0 where
    nil : Items
    cons : Json → Items → Items

  pub data Fields : Type 0 where
    end : Fields
    field : Text → Json → Fields → Fields

-- The digits of a number, most significant first; more fuel than the number has digits is enough.
unfoldable pub decimal_onto : ℕ → ℕ → Text → Text
decimal_onto zero n acc = acc
decimal_onto (suc fuel) n acc =
    let digit = 48 + n % 10 in
    let rest = decimal_onto fuel (n / 10) (digit ∷ acc) in if ltb n 10 then digit ∷ acc else rest

-- String(n)
unfoldable pub decimal : ℕ → Text
unfolding decimal_onto
decimal n = decimal_onto (suc n) n []

unfoldable pub decimal_ℤ : ℤ → Text
unfolding decimal
decimal_ℤ (pos n) = decimal n
decimal_ℤ (negsuc n) = b'-' ∷ decimal (suc n)

-- JSON.parse keeps the last of two equal keys.
find_field : Text → Fields → Option Json
find_field k end = none
find_field k (field j v fs) = elim (find_field k fs) [
  | some w ↦ some w
  | none ↦ if text_eq j k then some v else none
]

-- Reading `v.k`: it throws on null, and gives undefined (`some none`) on a missing property.
unfoldable pub read : Text → Json → Option (Option Json)
unfolding find_field
read k null = none
read k (obj fs) = some (find_field k fs)
read k _ = some none

field_entries : Fields → List (Text × Json)
field_entries end = []
field_entries (field k v fs) = (k, v) ∷ field_entries fs

item_entries : ℕ → Items → List (Text × Json)
item_entries i nil = []
item_entries i (cons v vs) = (decimal i, v) ∷ item_entries (i + 1) vs

char_entries : ℕ → Text → List (Text × Json)
char_entries i [] = []
char_entries i (c ∷ s) = (decimal i, str (c ∷ [])) ∷ char_entries (i + 1) s

-- Object.entries(v), which throws on null.
unfoldable pub entries : Json → Option (List (Text × Json))
unfolding field_entries item_entries char_entries
entries null = none
entries (bool b) = some []
entries (num n) = some []
entries (str s) = some (char_entries 0 s)
entries (arr vs) = some (item_entries 0 vs)
entries (obj fs) = some (field_entries fs)

-- The object built by `out[k] = v` over entries with distinct keys.
unfoldable pub from_entries : List (Text × Json) → Fields
from_entries [] = end
from_entries ((k, v) ∷ es) = field k v (from_entries es)

field_entries-from_entries : (es : List (Text × Json)) → field_entries (from_entries es) ≡ es
unfolding from_entries field_entries
field_entries-from_entries [] = refl
field_entries-from_entries ((k, v) ∷ es) = ap (◌∷◌ (k, v)) (field_entries-from_entries es)

pub entries-from_entries : (es : List (Text × Json)) → entries (obj (from_entries es)) ≡ some es
unfolding entries
entries-from_entries es = ap some (field_entries-from_entries es)

-- Whether a value that may be undefined counts as true in a condition.
unfoldable pub truthy : Option Json → Bool
truthy none = false
truthy (some null) = false
truthy (some (bool b)) = b
truthy (some (num n)) = not (n ==ℤ pos 0)
truthy (some (str s)) = is_truthy s
truthy (some v) = true

-- Sameness of members of a `Set`: two parsed objects are never the same.
unfoldable pub same : Json → Json → Bool
same null null = true
same (bool true) (bool true) = true
same (bool false) (bool false) = true
same (num m) (num n) = m ==ℤ n
same (str s) (str t) = text_eq s t
same _ _ = false

-- v === 0
unfoldable pub is_zero : Option Json → Bool
is_zero (some (num n)) = n ==ℤ pos 0
is_zero _ = false
