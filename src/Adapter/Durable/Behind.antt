-- ===== src/Adapter/Durable/Behind.antt =====
-- What a program that starts again reads back: never a sequence above the one that the engine had, and
-- the very one where the storage takes what it is given.
use airway_im_plugin.Base.{
  ◌≡◌, refl, ◌∙◌, some, List, [], ◌∷◌, arith, Option-cases, Bool-cases, inl, inr, false,
}
use airway_im_plugin.Base.Int.{ℤ, pos, ltb_ℤ, max_ℤ, ◌≤ℤ◌, max_ℤ-le, ltb_ℤ→lt}
use airway_im_plugin.Text.{Text, text_eq, text_eq_refl}
use airway_im_plugin.Dict
use airway_im_plugin.Dict.{Dict}
use airway_im_plugin.Adapter.{StorageAdapter, IsBestEffort}
use airway_im_plugin.Adapter.Durable.{
  Durable, snapshot, load_or_empty, persist_to, track_to, forget_to, restart, Call, tracks, forgets,
  restarts, call, run, sequence_of,
}
use airway_im_plugin.Adapter.Durable.Maps.{
  IsTidy, put-IsTidy, load_or_empty-IsTidy, load-snapshot, sequence_of-put, sequence_of-remove,
  remove-IsTidy, nonneg_at, snapshot_there, le_of_eq,
}

module _ (S : StorageAdapter) (key : Text) where
  -- The map that a program reads back from a storage.
  abbrev pub read_back : S.State → Dict ℤ
  read_back w = load_or_empty (S.get w key)

  -- A conversation is read back at no higher sequence than the engine has.
  record IsBehind (j : Text) (d : Durable S) : Type 0 where
    pub tidy : IsTidy d.last_seq
    pub behind : sequence_of j (read_back d.world) ≤ℤ sequence_of j d.last_seq

  stored_sequence :
      (j : Text) (m : Dict ℤ) (w : S.State)
      → IsTidy m
      → S.get w key ≡ some (snapshot m)
      → sequence_of j (read_back w) ≡ sequence_of j m
  stored_sequence j m w t e = rw e (load-snapshot j m t)

  restart-IsBehind : (j : Text) (w : S.State) → IsBehind j (restart S key w)
  unfolding restart
  restart-IsBehind j w = record { tidy = load_or_empty-IsTidy (S.get w key); behind = omega arith }

  module _ (L : IsBestEffort S) where
    persist_to-IsBehind :
        (j : Text) (m : Dict ℤ) (w : S.State)
        → IsTidy m
        → sequence_of j (read_back w) ≤ℤ sequence_of j m
        → IsBehind j (persist_to S key m w)
    unfolding persist_to
    persist_to-IsBehind j m w t le = elim (L.get-set w key (snapshot m) (snapshot_there m)) [
      | inl same ↦ record { tidy = t; behind = rw same le }
      | inr sets ↦ record {
        tidy = t;
        behind = le_of_eq (
            stored_sequence j m (S.set w key (snapshot m)) t
              (sets key ∙ rw (text_eq_refl key) refl));
      }
    ]

    track_to-IsBehind :
        (j conv : Text) (seq : ℤ) (d : Durable S)
        → IsBehind j d
        → IsBehind j (track_to S key conv seq d)
    unfolding track_to
    track_to-IsBehind j conv seq d h = elim (Option-cases (Dict.get conv d.last_seq)) [
      | inl e ↦
          let s = max_ℤ (pos 0) seq in
          let le : sequence_of conv d.last_seq ≤ℤ s = rw e (max_ℤ-le (pos 0) seq).0 in
          rw (e, track_to) (grow conv s (max_ℤ-le (pos 0) seq).0 le)
      | inr (c, e) ↦ elim (Bool-cases (ltb_ℤ c seq)) [
        | inl p ↦
            let lt = ltb_ℤ→lt c seq p in
            let le : sequence_of conv d.last_seq ≤ℤ seq = rw e (omega (arith, lt)) in
            rw (e, track_to)
              (rw p (grow conv seq (omega (arith, le, nonneg_at conv d.last_seq h.tidy)) le))
        | inr p ↦ rw (e, track_to) (rw p h)
      ]
    ]
      where
        grow :
            (k : Text) (s : ℤ)
            → pos 0 ≤ℤ s
            → sequence_of k d.last_seq ≤ℤ s
            → IsBehind j (persist_to S key (Dict.put k s d.last_seq) d.world)
        grow k s p le =
            persist_to-IsBehind j (Dict.put k s d.last_seq) d.world
              (put-IsTidy k s d.last_seq p h.tidy)
              (omega (arith, h.behind, sequence_of-put k j s d.last_seq le))

    forget_to-IsBehind :
        (j conv : Text) (d : Durable S)
        → text_eq conv j ≡ false
        → IsBehind j d
        → IsBehind j (forget_to S key conv d)
    unfolding forget_to
    forget_to-IsBehind j conv d ne h =
        persist_to-IsBehind j (Dict.remove conv d.last_seq) d.world
          (remove-IsTidy conv d.last_seq h.tidy)
          (rw (sequence_of-remove conv j d.last_seq ne) h.behind)

  -- No call forgets the conversation.
  abbrev pub NeverForgets : Text → List Call → Type 0
  NeverForgets j [] = Unit
  NeverForgets j (tracks conv seq ∷ vs) = NeverForgets j vs
  NeverForgets j (forgets conv ∷ vs) = (text_eq conv j ≡ false) × NeverForgets j vs
  NeverForgets j (restarts ∷ vs) = NeverForgets j vs

  run-IsBehind :
      (j : Text) (vs : List Call) (d : Durable S)
      → IsBestEffort S
      → NeverForgets j vs
      → IsBehind j d
      → IsBehind j (run S key vs d)
  unfolding run call
  run-IsBehind j [] d L k h = h
  run-IsBehind j (tracks conv seq ∷ vs) d L k h =
      run-IsBehind j vs (track_to S key conv seq d) L k (track_to-IsBehind L j conv seq d h)
  run-IsBehind j (forgets conv ∷ vs) d L k h =
      run-IsBehind j vs (forget_to S key conv d) L k.1 (forget_to-IsBehind L j conv d k.0 h)
  run-IsBehind j (restarts ∷ vs) d L k h =
      run-IsBehind j vs (restart S key d.world) L k (restart-IsBehind j d.world)

-- Over a storage that keeps what it is given or stays as it was, from whatever it holds at the start, and
-- over any calls of track and forget and any restarts in between, of which none forgets the conversation:
-- a program that starts again then reads it back at no higher sequence than the engine has.
pub restart_never_ahead :
    (S : StorageAdapter) (key j : Text) (vs : List Call) (w : S.State)
    → IsBestEffort S
    → NeverForgets S key j vs
    → let d = run S key vs (restart S key w) in
      sequence_of j (restart S key d.world).last_seq ≤ℤ sequence_of j d.last_seq
unfolding restart
restart_never_ahead S key j vs w L k =
    (run-IsBehind S key j vs (restart S key w) L k
      (unfold restart in restart-IsBehind S key j w)).behind
