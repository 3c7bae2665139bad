-- ===== src/Dict/Laws.antt =====
-- The laws of `Map`: each reading after each writing, and keys that stay distinct.
use airway_im_plugin.Base.{◌≡◌, refl, false, none, some, [], ◌∷◌, arith, if◌then◌else◌}
use airway_im_plugin.Text.{Text, text_eq, text_eq_iff}
use airway_im_plugin.Dict.{Dict, get, put, remove}

module _ {ℓ} {V : Type ℓ} where
  pub get-put :
      (k j : Text) (v : V) (m : Dict V)
      → get j (put k v m) ≡ (if text_eq k j then some v else get j m)
  unfolding get put
  get-put k j v [] = refl
  get-put k j v ((i, w) ∷ m) =
      ground (arith, text_eq_iff k j, text_eq_iff i k, text_eq_iff i j, get-put k j v m)

  pub get-remove :
      (k j : Text) (m : Dict V) → get j (remove k m) ≡ (if text_eq k j then none else get j m)
  unfolding get remove
  get-remove k j [] = ground arith
  get-remove k j ((i, w) ∷ m) =
      ground (arith, text_eq_iff k j, text_eq_iff i k, text_eq_iff i j, get-remove k j m)

  -- No key of the map is `k`.
  abbrev pub Fresh : Text → Dict V → Type 0
  Fresh k [] = Unit
  Fresh k ((j, v) ∷ m) = (text_eq j k ≡ false) × Fresh k m

  -- The keys are distinct, as in every `Map`.
  abbrev pub IsMap : Dict V → Type 0
  IsMap [] = Unit
  IsMap ((k, v) ∷ m) = Fresh k m × IsMap m

  Fresh-put :
      (j k : Text) (v : V) (m : Dict V) → text_eq k j ≡ false → Fresh j m → Fresh j (put k v m)
  unfolding put
  Fresh-put j k v [] e h = (e, tt)
  Fresh-put j k v ((i, w) ∷ m) e h = ground (arith, Fresh-put j k v m e)

  Fresh-remove : (j k : Text) (m : Dict V) → Fresh j m → Fresh j (remove k m)
  unfolding remove
  Fresh-remove j k [] h = tt
  Fresh-remove j k ((i, w) ∷ m) h = ground (arith, Fresh-remove j k m)

  pub put-IsMap : (k : Text) (v : V) (m : Dict V) → IsMap m → IsMap (put k v m)
  unfolding put
  put-IsMap k v [] h = (tt, tt)
  put-IsMap k v ((i, w) ∷ m) h =
      ground (arith, text_eq_iff i k, text_eq_iff k i, put-IsMap k v m, Fresh-put i k v m)

  pub remove-IsMap : (k : Text) (m : Dict V) → IsMap m → IsMap (remove k m)
  unfolding remove
  remove-IsMap k [] h = tt
  remove-IsMap k ((i, w) ∷ m) h = ground (arith, remove-IsMap k m, Fresh-remove i k m)

  pub get_of_Fresh : (k : Text) (m : Dict V) → Fresh k m → get k m ≡ none
  unfolding get
  get_of_Fresh k [] h = refl
  get_of_Fresh k ((i, w) ∷ m) h = ground (arith, get_of_Fresh k m)

pub ruleset dict_laws = (get-put, get-remove)
