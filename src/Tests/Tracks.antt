-- ===== src/Tests/Tracks.antt =====
-- The bookkeeping of sequences at concrete inputs.
use airway_im_plugin.Base.{◌≡◌, ◌≢◌, refl, arith}
use airway_im_plugin.Base.Int.{pos}
use airway_im_plugin.Text.{Text, text, text_eq_iff, text_eq}
use airway_im_plugin.Dict
use airway_im_plugin.Sync.{track, last_sequence, number_entries, persist}
use airway_im_plugin.Json.{from_entries}
use airway_im_plugin.Sync.Storage.{IsSynced}
use airway_im_plugin.Tests.Fixtures.{room, engine}

abbrev other_room : Text
other_room = text "c2"

apart : room ≢ other_room
unfolding text_eq
apart e = ground (arith, text_eq_iff room other_room)

pub engine-IsSynced : IsSynced engine
unfolding number_entries from_entries
engine-IsSynced = record { distinct = _; nonneg = omega arith; stored = refl }

-- A lower sequence leaves the engine where it was, and a higher one moves it.
test_track : last_sequence room (track room (pos 3) (track room (pos 0) engine)) ≡ pos 3
unfolding last_sequence track Dict.get Dict.put persist number_entries from_entries text_eq
test_track = refl
