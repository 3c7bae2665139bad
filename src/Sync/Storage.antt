-- ===== src/Sync/Storage.antt =====
-- persist() and load(): what a restarted engine reads back from the storage.
use airway_im_plugin.Base.{
  ◌≡◌, refl, Option, none, some, [], ◌∷◌, arith, get_or, if◌then◌else◌, Option-cases, Bool-cases,
  inl, inr,
}
use airway_im_plugin.Base.Int.{max_ℤ, max_ℤ-le, ltb_ℤ→lt, ℤ, pos, ◌≤ℤ◌, ltb_ℤ}
use airway_im_plugin.Text.{Text, text_eq_iff}
use airway_im_plugin.Dict
use airway_im_plugin.Dict.{Dict, get, put}
use airway_im_plugin.Dict.Laws.{Fresh, IsMap, get_of_Fresh, get-put, put-IsMap, remove-IsMap}
use airway_im_plugin.Json.{obj, entries-from_entries, from_entries}
use airway_im_plugin.Sync.{
  SyncEngine, Stored, parsed, persist, track, last_sequence, forget_sequence, load_entries,
  number_entries, new,
}

-- The entries that load() takes over.
unfoldable pub positive : Dict ℤ → Dict ℤ
positive [] = []
positive ((k, s) ∷ m) = let rest = positive m in if ltb_ℤ (pos 0) s then (k, s) ∷ rest else rest

abbrev pub IsNonneg : Dict ℤ → Type 0
IsNonneg [] = Unit
IsNonneg ((k, s) ∷ m) = (pos 0 ≤ℤ s) × IsNonneg m

Fresh-positive : (k : Text) (m : Dict ℤ) → Fresh k m → Fresh k (positive m)
unfolding positive
Fresh-positive k [] h = tt
Fresh-positive k ((j, s) ∷ m) h = ground (arith, Fresh-positive k m)

abbrev or_else : Option ℤ → Option ℤ → Option ℤ
or_else none o = o
or_else (some s) o = some s

get-load_entries :
    (j : Text) (m acc : Dict ℤ)
    → IsMap m
    → get j (load_entries (number_entries m) acc) ≡ or_else (get j (positive m)) (get j acc)
unfolding load_entries number_entries positive get
get-load_entries j [] acc h = refl
get-load_entries j ((k, s) ∷ m) acc h = ground (
  arith,
  get-load_entries j m acc,
  get-load_entries j m (put k s acc),
  get-put k j s acc,
  get_of_Fresh k (positive m),
  Fresh-positive k m,
  text_eq_iff k j,
)

get-positive :
    (j : Text) (m : Dict ℤ)
    → IsMap m
    → IsNonneg m
    → get_or (get j (positive m)) (pos 0) ≡ get_or (get j m) (pos 0)
unfolding get positive
get-positive j [] d h = refl
get-positive j ((k, s) ∷ m) d h = ground (
  arith,
  get-positive j m d.1 h.1,
  get_of_Fresh k (positive m),
  Fresh-positive k m,
  text_eq_iff k j,
)

-- What an engine with a storage is between two calls: its map has distinct keys and no negative
-- sequence, and the storage holds the object of its entries.
pub record IsSynced (e : SyncEngine) : Type 0 where
  pub distinct : IsMap e.last_seq
  pub nonneg : IsNonneg e.last_seq
  pub stored : e.storage ≡ some (parsed (obj (from_entries (number_entries e.last_seq))))

pub put-IsNonneg : (k : Text) (s : ℤ) (m : Dict ℤ) → pos 0 ≤ℤ s → IsNonneg m → IsNonneg (put k s m)
unfolding put
put-IsNonneg k s [] p h = (p, tt)
put-IsNonneg k s ((j, r) ∷ m) p h = ground (arith, put-IsNonneg k s m)

pub remove-IsNonneg : (k : Text) (m : Dict ℤ) → IsNonneg m → IsNonneg (Dict.remove k m)
unfolding Dict.remove
remove-IsNonneg k [] h = tt
remove-IsNonneg k ((j, r) ∷ m) h = ground (arith, remove-IsNonneg k m)

pub get-IsNonneg : (k : Text) (m : Dict ℤ) (s : ℤ) → IsNonneg m → get k m ≡ some s → pos 0 ≤ℤ s
unfolding get
get-IsNonneg k [] s h e = cc
get-IsNonneg k ((j, r) ∷ m) s h e = ground (arith, get-IsNonneg k m s)

persist-IsSynced :
    (e : SyncEngine) {s : Stored}
    → e.storage ≡ some s
    → IsMap e.last_seq
    → IsNonneg e.last_seq
    → IsSynced (persist e)
unfolding persist
persist-IsSynced e p d n = ground arith

-- Tracking keeps the storage and the map in step: the keys stay distinct, the sequences nonnegative,
-- and the storage holds the object of exactly the map's entries.
track-IsSynced : (conv : Text) (seq : ℤ) (e : SyncEngine) → IsSynced e → IsSynced (track conv seq e)
unfolding track
track-IsSynced conv seq e v = elim (Option-cases (get conv e.last_seq)) [
  | inl p ↦
      rw (p, track)
        (let m = put conv (max_ℤ (pos 0) seq) e.last_seq in
          persist-IsSynced (record e { last_seq = m }) v.stored (put-IsMap conv _ _ v.distinct)
            (put-IsNonneg conv _ _ (max_ℤ-le (pos 0) seq).0 v.nonneg))
  | inr (c, p) ↦ elim (Bool-cases (ltb_ℤ c seq)) [
    | inl q ↦
        rw (p, track)
          (rw q (
            persist-IsSynced (record e { last_seq = put conv seq e.last_seq }) v.stored
              (put-IsMap conv _ _ v.distinct)
              (put-IsNonneg conv _ _
                (omega (arith, ltb_ℤ→lt c seq q, get-IsNonneg conv e.last_seq c v.nonneg p))
                v.nonneg)))
    | inr q ↦ rw (p, track) (rw q v)
  ]
]

-- Forgetting a conversation keeps the storage and the map in step.
forget-IsSynced : (conv : Text) (e : SyncEngine) → IsSynced e → IsSynced (forget_sequence conv e)
unfolding forget_sequence
forget-IsSynced conv e v =
    persist-IsSynced (record e { last_seq = Dict.remove conv e.last_seq }) v.stored
      (remove-IsMap conv e.last_seq v.distinct) (remove-IsNonneg conv e.last_seq v.nonneg)

-- An engine built from the storage that a synced one left resumes each conversation where it was.
pub restart_resumes :
    (j : Text) (e : SyncEngine) → IsSynced e → last_sequence j (new e.storage) ≡ last_sequence j e
unfolding last_sequence new get
restart_resumes j e v = rw v.stored (
    ground (
      arith,
      entries-from_entries (number_entries e.last_seq),
      get-load_entries j e.last_seq [],
      get-positive j e.last_seq v.distinct v.nonneg,
    ))
