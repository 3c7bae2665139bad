-- ===== src/Adapter/Durable.antt =====
-- The engine's sequences in an adapter's storage (install/ignore/sdk/ts/dist/esm/sync.js: the constructor,
-- track, load and persist, with the calls of the storage).
pub mod Maps
pub mod Behind
pub mod Exact
use airway_im_plugin.Base.{Option, none, some, List, [], ◌∷◌, if◌then◌else◌, get_or}
use airway_im_plugin.Base.Int.{ℤ, pos, ltb_ℤ, max_ℤ}
use airway_im_plugin.Text.{Text}
use airway_im_plugin.Dict
use airway_im_plugin.Dict.{Dict}
use airway_im_plugin.Json.{obj, from_entries}
use airway_im_plugin.Sync.{Stored, parsed, load_stored, number_entries}
use airway_im_plugin.Adapter.{StorageAdapter}

-- The engine's map, and the storage as it is.
pub record Durable (S : StorageAdapter) : Type 0 where
  pub last_seq : Dict ℤ
  pub world : S.State

-- JSON.stringify(out)
unfoldable pub snapshot : Dict ℤ → Stored
snapshot m = parsed (obj (from_entries (number_entries m)))

-- load(), on what `get` gives.
unfoldable pub load_or_empty : Option Stored → Dict ℤ
load_or_empty none = []
load_or_empty (some s) = load_stored s

module _ (S : StorageAdapter) (key : Text) where
  -- persist(), after the map has become `m`.
  unfoldable pub persist_to : Dict ℤ → S.State → Durable S
  persist_to m w = record { last_seq = m; world = S.set w key (snapshot m) }

  -- track(conversationId, sequence)
  unfoldable pub track_to : Text → ℤ → Durable S → Durable S
  track_to conv seq d = elim (Dict.get conv d.last_seq) [
    | none ↦ persist_to (Dict.put conv (max_ℤ (pos 0) seq) d.last_seq) d.world
    | some current ↦
        if ltb_ℤ current seq then persist_to (Dict.put conv seq d.last_seq) d.world else d
  ]

  -- forget(conversationId)
  unfoldable pub forget_to : Text → Durable S → Durable S
  forget_to conv d = persist_to (Dict.remove conv d.last_seq) d.world

  -- The constructor, over a storage that is there.
  unfoldable pub restart : S.State → Durable S
  restart w = record { last_seq = load_or_empty (S.get w key); world = w }

-- What happens to the sequences: a call of track, one of forget, or the program starts again.
pub data Call : Type 0 where
  tracks : Text → ℤ → Call
  forgets : Text → Call
  restarts : Call

unfoldable pub call : (S : StorageAdapter) → Text → Call → Durable S → Durable S
call S key (tracks conv seq) d = track_to S key conv seq d
call S key (forgets conv) d = forget_to S key conv d
call S key restarts d = restart S key d.world

unfoldable pub run : (S : StorageAdapter) → Text → List Call → Durable S → Durable S
run S key [] d = d
run S key (v ∷ vs) d = run S key vs (call S key v d)

-- The sequence of a conversation in a map.
abbrev pub sequence_of : Text → Dict ℤ → ℤ
sequence_of j m = get_or (Dict.get j m) (pos 0)
