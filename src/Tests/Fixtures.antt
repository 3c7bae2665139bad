-- ===== src/Tests/Fixtures.antt =====
-- The data that the tests share: a conversation, its messages, its server, and an engine.
use airway_im_plugin.Base.{ℕ, ◌≡◌, none, some, List, [], ◌∷◌, take, arith}
use mathlib.Core.Path.{subst}
use airway_im_plugin.Base.Int.{pos}
use airway_im_plugin.Text.{Text, text}
use airway_im_plugin.Sync.{ChatMessage, GatewayEvent, SyncEngine, parsed}
use airway_im_plugin.Json.{num, obj, end, field}
use airway_im_plugin.Sync.Fetch.{ListMessages}
use airway_im_plugin.Sync.Fetch.Order.{Ascending, IsOrdered}
use airway_im_plugin.Sync.Fetch.Complete.{newer, newer-Ascending, Ascending-take}

abbrev pub room : Text
room = text "c1"

abbrev pub message : Text → ℕ → ChatMessage
message id n = record { id = id; conversation_id = room; content = text "hi"; sequence = pos n }

abbrev pub log : List ChatMessage
log = message (text "a") 1 ∷ message (text "b") 2 ∷ message (text "c") 4 ∷ []

-- The server's side of listMessages, over that log.
abbrev pub serve : ListMessages Unit
serve conv after limit w = (some (take limit (newer after log)), w)

some_injective : (xs ys : List ChatMessage) → some xs ≡ some ys → xs ≡ ys
some_injective xs ys e = cc

pub log-Ascending : Ascending (pos 0) log
log-Ascending = omega arith

pub serve-IsOrdered : IsOrdered serve
serve-IsOrdered conv after limit w page e =
    subst (Ascending after) (some_injective _ page e) (
      Ascending-take limit after (newer after log)
        (newer-Ascending (pos 0) after log log-Ascending))

-- An engine that has seen the first message, with a storage that says so.
abbrev pub engine : SyncEngine
engine = record {
  last_seq = (room, pos 1) ∷ [];
  storage = some (parsed (obj (field room (num (pos 1)) end)));
}

abbrev pub created_event : ℕ → GatewayEvent
created_event n = record {
  event = text "message.created";
  conversation_id = room;
  message_id = some (text "c");
  sequence = some (pos n);
  added_user_uuids = none;
  removed_user_uuid = none;
}
