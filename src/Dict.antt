-- ===== src/Dict.antt =====
-- JavaScript's `Map` with string keys: its entries in the order of their first insertion, which
-- `keys()` and `for...of` follow. A `set` on a key that is there leaves it in its place.
pub mod Laws
use airway_im_plugin.Base.{Option, none, some, List, [], ◌∷◌, Bool, is_some, if◌then◌else◌}
use airway_im_plugin.Text.{Text, text_eq}

abbrev pub Dict {ℓ} : Type ℓ → Type ℓ
Dict V = List (Text × V)

module _ {ℓ} {V : Type ℓ} where
  -- m.get(k)
  unfoldable pub get : Text → Dict V → Option V
  get k [] = none
  get k ((j, v) ∷ m) = if text_eq j k then some v else get k m

  -- m.has(k)
  unfoldable pub has : Text → Dict V → Bool
  has k m = is_some (get k m)

  -- m.set(k, v)
  unfoldable pub put : Text → V → Dict V → Dict V
  put k v [] = (k, v) ∷ []
  put k v ((j, w) ∷ m) = if text_eq j k then (j, v) ∷ m else (j, w) ∷ put k v m

  -- m.delete(k)
  unfoldable pub remove : Text → Dict V → Dict V
  remove k [] = []
  remove k ((j, w) ∷ m) = let rest = remove k m in if text_eq j k then rest else (j, w) ∷ rest

  -- m.keys()
  unfoldable pub keys : Dict V → List Text
  keys [] = []
  keys ((k, v) ∷ m) = k ∷ keys m
