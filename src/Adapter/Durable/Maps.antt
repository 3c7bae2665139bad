-- ===== src/Adapter/Durable/Maps.antt =====
-- Maps of sequences as they are stored and read back.
use airway_im_plugin.Base.{
  ◌≡◌, ◌≢◌, refl, Option, none, some, List, [], ◌∷◌, arith, Option-cases, Bool-cases, inl, inr,
  false,
}
use airway_im_plugin.Base.Int.{ℤ, pos, ltb_ℤ, ◌≤ℤ◌, ltb_ℤ→lt}
use airway_im_plugin.Text.{Text, text_eq, text_eq_iff}
use airway_im_plugin.Dict
use airway_im_plugin.Dict.{Dict}
use airway_im_plugin.Dict.Laws.{IsMap, get-put, get-remove, put-IsMap, remove-IsMap}
use airway_im_plugin.Json.{Json, num, entries}
use airway_im_plugin.Sync.{
  Stored, blank, corrupt, parsed, load_stored, load_entries, load_entry, new, last_sequence,
}
use airway_im_plugin.Sync.Storage.{
  IsNonneg, put-IsNonneg, get-IsNonneg, remove-IsNonneg, restart_resumes,
}
use airway_im_plugin.Adapter.Durable.{snapshot, load_or_empty, sequence_of}

-- A map of distinct keys without negative sequences.
pub record IsTidy (m : Dict ℤ) : Type 0 where
  pub distinct : IsMap m
  pub nonneg : IsNonneg m

pub put-IsTidy : (k : Text) (s : ℤ) (m : Dict ℤ) → pos 0 ≤ℤ s → IsTidy m → IsTidy (Dict.put k s m)
put-IsTidy k s m p h = record {
  distinct = put-IsMap k s m h.distinct;
  nonneg = put-IsNonneg k s m p h.nonneg;
}

load_entries-IsTidy : (es : List (Text × Json)) (m : Dict ℤ) → IsTidy m → IsTidy (load_entries es m)
unfolding load_entries load_entry
load_entries-IsTidy [] m h = h
load_entries-IsTidy ((k, num s) ∷ es) m h = elim (Bool-cases (ltb_ℤ (pos 0) s)) [
  | inl p ↦ rw p (
      load_entries-IsTidy es (Dict.put k s m)
        (put-IsTidy k s m (omega (arith, ltb_ℤ→lt (pos 0) s p)) h))
  | inr p ↦ rw p (load_entries-IsTidy es m h)
]
load_entries-IsTidy ((k, _) ∷ es) m h = load_entries-IsTidy es m h

empty-IsTidy : IsTidy []
empty-IsTidy = record { distinct = tt; nonneg = tt }

pub load_or_empty-IsTidy : (o : Option Stored) → IsTidy (load_or_empty o)
unfolding load_or_empty load_stored
load_or_empty-IsTidy none = empty-IsTidy
load_or_empty-IsTidy (some blank) = empty-IsTidy
load_or_empty-IsTidy (some corrupt) = empty-IsTidy
load_or_empty-IsTidy (some (parsed v)) = elim (Option-cases (entries v)) [
  | inl e ↦ rw (e, load_or_empty, load_stored) empty-IsTidy
  | inr (es, e) ↦ rw (e, load_or_empty, load_stored) (load_entries-IsTidy es [] empty-IsTidy)
]

-- A snapshot reads back as what it was taken of.
pub load-snapshot :
    (j : Text) (m : Dict ℤ)
    → IsTidy m
    → sequence_of j (load_or_empty (some (snapshot m))) ≡ sequence_of j m
unfolding load_or_empty snapshot
load-snapshot j m h =
    unfold new last_sequence in
    restart_resumes j (record { last_seq = m; storage = some (snapshot m) })
      (record { distinct = h.distinct; nonneg = h.nonneg; stored = refl })

pub sequence_of-put :
    (k j : Text) (s : ℤ) (m : Dict ℤ)
    → sequence_of k m ≤ℤ s
    → sequence_of j m ≤ℤ sequence_of j (Dict.put k s m)
sequence_of-put k j s m h = ground (arith, get-put k j s m, text_eq_iff k j, h)

pub sequence_of-remove :
    (k j : Text) (m : Dict ℤ)
    → text_eq k j ≡ false
    → sequence_of j (Dict.remove k m) ≡ sequence_of j m
sequence_of-remove k j m h = ground (arith, get-remove k j m, h)

pub remove-IsTidy : (k : Text) (m : Dict ℤ) → IsTidy m → IsTidy (Dict.remove k m)
remove-IsTidy k m h = record {
  distinct = remove-IsMap k m h.distinct;
  nonneg = remove-IsNonneg k m h.nonneg;
}

pub nonneg_at : (k : Text) (m : Dict ℤ) → IsTidy m → pos 0 ≤ℤ sequence_of k m
nonneg_at k m h = elim (Option-cases (Dict.get k m)) [
  | inl e ↦ rw e (omega arith)
  | inr (s, e) ↦ rw e (get-IsNonneg k m s h.nonneg e)
]

pub le_of_eq : {a b : ℤ} → a ≡ b → a ≤ℤ b
le_of_eq {a} {b} e = rw e (omega arith)

pub snapshot_there : (m : Dict ℤ) → snapshot m ≢ blank
unfolding snapshot
snapshot_there m e = ground (arith, e)
