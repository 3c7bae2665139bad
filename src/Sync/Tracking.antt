-- ===== src/Sync/Tracking.antt =====
-- What tracking promises: the last-seen sequence of a conversation never falls, no call touches
-- another conversation's, and the storage stays in step with the map.
use airway_im_plugin.Base.{◌≡◌, ◌≢◌, true, none, some, arith, get_or, if◌then◌else◌}
use airway_im_plugin.Base.Int.{ℤ, pos, ◌≤ℤ◌, max_ℤ, eq_of_parts}
use airway_im_plugin.Text.{Text, text_eq, text_eq_iff, text_eq_refl}
use airway_im_plugin.Dict
use airway_im_plugin.Dict.{Dict}
use airway_im_plugin.Dict.Laws.{get-put, get-remove, IsMap, put-IsMap, remove-IsMap}
use airway_im_plugin.Sync.{SyncEngine, persist, track, is_tracked, last_sequence, forget_sequence}

pub last_seq-persist : (e : SyncEngine) → (persist e).last_seq ≡ e.last_seq
unfolding persist
last_seq-persist e = ground arith

-- What `track` leaves in the map, for every conversation.
pub get-track :
    (conv j : Text) (seq : ℤ) (e : SyncEngine)
    → Dict.get j (track conv seq e).last_seq ≡ (
        if text_eq conv j
        then some (max_ℤ (get_or (Dict.get conv e.last_seq) (pos 0)) seq)
        else Dict.get j e.last_seq)
unfolding track
get-track conv j seq e = ground (
  arith,
  text_eq_iff conv j,
  last_seq-persist (record e { last_seq = Dict.put conv (max_ℤ (pos 0) seq) e.last_seq }),
  last_seq-persist (record e { last_seq = Dict.put conv seq e.last_seq }),
  get-put conv j (max_ℤ (pos 0) seq) e.last_seq,
  get-put conv j seq e.last_seq,
)

pub get-forget :
    (conv j : Text) (e : SyncEngine)
    → Dict.get j (forget_sequence conv e).last_seq
      ≡ (if text_eq conv j then none else Dict.get j e.last_seq)
unfolding forget_sequence
get-forget conv j e = rw last_seq-persist (get-remove conv j e.last_seq)

-- Tracking never lowers the last-seen sequence of any conversation, whatever the number, and
-- reaches the number given.
pub track_monotone :
    (conv j : Text) (seq : ℤ) (e : SyncEngine)
    → (last_sequence j e ≤ℤ last_sequence j (track conv seq e))
      × (seq ≤ℤ last_sequence conv (track conv seq e))
unfolding last_sequence
track_monotone conv j seq e = ground (
  arith,
  get-track conv j seq e,
  get-track conv conv seq e,
  text_eq_iff conv j,
  text_eq_refl conv,
)

-- Tracking a conversation makes it a tracked one, and leaves what is stored for another as it was.
pub track_frame :
    (conv j : Text) (seq : ℤ) (e : SyncEngine)
    → conv ≢ j
    → (is_tracked conv (track conv seq e) ≡ true)
      × (Dict.get j (track conv seq e).last_seq ≡ Dict.get j e.last_seq)
unfolding is_tracked Dict.has
track_frame conv j seq e ne = ground (
  arith,
  get-track conv j seq e,
  get-track conv conv seq e,
  text_eq_iff conv j,
  text_eq_refl conv,
)

-- The map of sequences keeps its keys distinct.
pub track-IsMap :
    (conv : Text) (seq : ℤ) (e : SyncEngine) → IsMap e.last_seq → IsMap (track conv seq e).last_seq
unfolding track
track-IsMap conv seq e h = ground (
  arith,
  last_seq-persist (record e { last_seq = Dict.put conv (max_ℤ (pos 0) seq) e.last_seq }),
  last_seq-persist (record e { last_seq = Dict.put conv seq e.last_seq }),
  put-IsMap conv (max_ℤ (pos 0) seq) e.last_seq,
  put-IsMap conv seq e.last_seq,
)

pub forget-IsMap :
    (conv : Text) (e : SyncEngine) → IsMap e.last_seq → IsMap (forget_sequence conv e).last_seq
unfolding forget_sequence
forget-IsMap conv e h = rw last_seq-persist (remove-IsMap conv e.last_seq h)

pub last_sequence-track :
    (conv : Text) (seq : ℤ) (e : SyncEngine)
    → last_sequence conv e ≤ℤ seq
    → last_sequence conv (track conv seq e) ≡ seq
unfolding last_sequence
last_sequence-track conv seq e h = ground (
  arith,
  get-track conv conv seq e,
  text_eq_refl conv,
  eq_of_parts seq (get_or (Dict.get conv e.last_seq) (pos 0)),
)
