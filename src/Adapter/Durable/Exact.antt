-- ===== src/Adapter/Durable/Exact.antt =====
-- A storage that takes what it is given: a program that starts again has what the engine had.
use airway_im_plugin.Base.{
  ◌≡◌, ◌≢◌, refl, some, List, [], ◌∷◌, arith, Option-cases, Bool-cases, inl, inr,
}
use airway_im_plugin.Base.Int.{ℤ, pos, ltb_ℤ, max_ℤ, ◌≤ℤ◌, max_ℤ-le, ltb_ℤ→lt}
use airway_im_plugin.Text.{Text}
use airway_im_plugin.Dict
use airway_im_plugin.Dict.{Dict}
use airway_im_plugin.Sync.{Stored, blank}
use airway_im_plugin.Sync.Storage.{get-IsNonneg}
use airway_im_plugin.Adapter.{StorageAdapter}
use airway_im_plugin.Adapter.Durable.{
  Durable, snapshot, load_or_empty, persist_to, track_to, forget_to, restart, Call, tracks, forgets,
  restarts, call, run, sequence_of,
}
use airway_im_plugin.Adapter.Durable.Maps.{
  IsTidy, put-IsTidy, load_or_empty-IsTidy, load-snapshot, remove-IsTidy, snapshot_there,
}

-- Every call of `set` succeeds.
abbrev pub Stores : StorageAdapter → Type 0
Stores S = (w : S.State) (k : Text) (v : Stored) → v ≢ blank → S.get (S.set w k v) k ≡ some v

module _ (S : StorageAdapter) (key : Text) where
  record IsExact (d : Durable S) : Type 0 where
    pub tidy : IsTidy d.last_seq
    pub exact :
        (j : Text) → sequence_of j (load_or_empty (S.get d.world key)) ≡ sequence_of j d.last_seq

  restart-IsExact : (w : S.State) → IsExact (restart S key w)
  unfolding restart
  restart-IsExact w = record { tidy = load_or_empty-IsTidy (S.get w key); exact = λ j. refl }

  module _ (stores : Stores S) where
    persist_to-IsExact : (m : Dict ℤ) (w : S.State) → IsTidy m → IsExact (persist_to S key m w)
    unfolding persist_to
    persist_to-IsExact m w t = record {
      tidy = t;
      exact = λ j. rw (stores w key (snapshot m) (snapshot_there m)) (load-snapshot j m t);
    }

    track_to-IsExact :
        (conv : Text) (seq : ℤ) (d : Durable S) → IsExact d → IsExact (track_to S key conv seq d)
    unfolding track_to
    track_to-IsExact conv seq d h = elim (Option-cases (Dict.get conv d.last_seq)) [
      | inl e ↦
          let s = max_ℤ (pos 0) seq in
          rw (e, track_to)
            (persist_to-IsExact (Dict.put conv s d.last_seq) d.world
              (put-IsTidy conv s d.last_seq (max_ℤ-le (pos 0) seq).0 h.tidy))
      | inr (c, e) ↦ elim (Bool-cases (ltb_ℤ c seq)) [
        | inl p ↦
            let positive : pos 0 ≤ℤ seq =
              omega (arith, ltb_ℤ→lt c seq p, get-IsNonneg conv d.last_seq c h.tidy.nonneg e) in
            rw (e, track_to)
              (rw p (
                persist_to-IsExact (Dict.put conv seq d.last_seq) d.world
                  (put-IsTidy conv seq d.last_seq positive h.tidy)))
        | inr p ↦ rw (e, track_to) (rw p h)
      ]
    ]

    call-IsExact : (v : Call) (d : Durable S) → IsExact d → IsExact (call S key v d)
    unfolding call forget_to
    call-IsExact (tracks conv seq) d h = track_to-IsExact conv seq d h
    call-IsExact (forgets conv) d h =
        persist_to-IsExact (Dict.remove conv d.last_seq) d.world
          (remove-IsTidy conv d.last_seq h.tidy)
    call-IsExact restarts d h = restart-IsExact d.world

    run-IsExact : (vs : List Call) (d : Durable S) → IsExact d → IsExact (run S key vs d)
    unfolding run
    run-IsExact [] d h = h
    run-IsExact (v ∷ vs) d h = run-IsExact vs (call S key v d) (call-IsExact v d h)

-- Over a storage that takes what it is given, from whatever it holds at the start, and over any calls of track
-- and forget and any restarts in between: a program that starts again then has the sequence of every
-- conversation that the engine has.
pub restart_exact :
    (S : StorageAdapter) (key j : Text) (vs : List Call) (w : S.State)
    → Stores S
    → let d = run S key vs (restart S key w) in
      sequence_of j (restart S key d.world).last_seq ≡ sequence_of j d.last_seq
unfolding restart
restart_exact S key j vs w stores =
    (run-IsExact S key stores vs (restart S key w) (restart-IsExact S key w)).exact j
