-- ===== src/Sync.antt =====
-- SyncEngine's bookkeeping (install/ignore/sdk/ts/dist/esm/sync.js): the last-seen sequence of each
-- tracked conversation and its copy in the adapter's storage. The children hold the fetch loop,
-- the promise queues, and the proofs.
pub mod Tracking
pub mod Storage
pub mod Fetch
pub mod Queue
pub mod Events
use airway_im_plugin.Base.{Bool, Option, none, some, List, [], ◌∷◌, get_or, if◌then◌else◌}
use airway_im_plugin.Base.Int.{ℤ, pos, ltb_ℤ, max_ℤ}
use airway_im_plugin.Text.{Text}
use airway_im_plugin.Dict
use airway_im_plugin.Dict.{Dict}
use airway_im_plugin.Json.{Json, num, obj, entries, from_entries}

pub record ChatMessage : Type 0 where
  pub id : Text
  pub conversation_id : Text
  pub content : Text
  pub sequence : ℤ

-- A gateway frame with an event, as far as the engine and the session read it.
pub record GatewayEvent : Type 0 where
  pub event : Text
  pub conversation_id : Text
  pub message_id : Option Text
  pub sequence : Option ℤ
  pub added_user_uuids : Option (List Text)
  pub removed_user_uuid : Option Text

-- The text that the storage holds under the engine's key, by what the engine does with it: no text
-- or the empty one, a text that is not JSON, or the value that it parses to.
pub data Stored : Type 0 where
  blank : Stored
  corrupt : Stored
  parsed : Json → Stored

-- `storage` is `none` where the adapter has none or `persistSequences` is false.
pub record SyncEngine : Type 0 where
  pub last_seq : Dict ℤ
  pub storage : Option Stored

unfoldable pub number_entries : Dict ℤ → List (Text × Json)
number_entries [] = []
number_entries ((id, seq) ∷ m) = (id, num seq) ∷ number_entries m

-- persist(): the object of all entries replaces what was stored.
unfoldable pub persist : SyncEngine → SyncEngine
unfolding number_entries from_entries
persist e = elim e.storage [
  | none ↦ e
  | some old ↦ record e { storage = some (parsed (obj (from_entries (number_entries e.last_seq)))) }
]

-- track(conversationId, sequence)
unfoldable pub track : Text → ℤ → SyncEngine → SyncEngine
track conv seq e = elim (Dict.get conv e.last_seq) [
  | none ↦ persist (record e { last_seq = Dict.put conv (max_ℤ (pos 0) seq) e.last_seq })
  | some current ↦
      if ltb_ℤ current seq
      then persist (record e { last_seq = Dict.put conv seq e.last_seq })
      else e
]

-- isTracked(conversationId)
unfoldable pub is_tracked : Text → SyncEngine → Bool
is_tracked conv e = Dict.has conv e.last_seq

-- lastSequence(conversationId)
unfoldable pub last_sequence : Text → SyncEngine → ℤ
last_sequence conv e = get_or (Dict.get conv e.last_seq) (pos 0)

-- forget(conversationId), but for the queue's entry, which `Queue.forget` deletes.
unfoldable pub forget_sequence : Text → SyncEngine → SyncEngine
forget_sequence conv e = persist (record e { last_seq = Dict.remove conv e.last_seq })

-- One entry of the stored object: only positive numbers are taken over.
unfoldable pub load_entry : Text → Json → Dict ℤ → Dict ℤ
load_entry id (num seq) m = if ltb_ℤ (pos 0) seq then Dict.put id seq m else m
load_entry id _ m = m

unfoldable pub load_entries : List (Text × Json) → Dict ℤ → Dict ℤ
unfolding load_entry
load_entries [] m = m
load_entries ((id, v) ∷ es) m = load_entries es (load_entry id v m)

unfoldable pub load_stored : Stored → Dict ℤ
unfolding load_entries
load_stored blank = []
load_stored corrupt = []
load_stored (parsed v) = elim (entries v) [ none ↦ [] | some es ↦ load_entries es [] ]

-- The constructor: an empty map, filled by load().
unfoldable pub new : Option Stored → SyncEngine
unfolding load_stored
new none = record { last_seq = []; storage = none }
new (some s) = record { last_seq = load_stored s; storage = some s }
