-- ===== src/Tests/Storages.antt =====
-- The adapters' storages and requests at concrete inputs.
use airway_im_plugin.Base.{
  ℕ, zero, suc, ◌≡◌, refl, true, Option, none, some, List, [], ◌∷◌, arith, if◌then◌else◌,
}
use airway_im_plugin.Base.Int.{pos, ◌≤ℤ◌}
use airway_im_plugin.Text.{Text, text, text_eq, text_eq_refl}
use airway_im_plugin.Dict
use airway_im_plugin.Dict.{Dict}
use airway_im_plugin.Dict.Laws.{get-put, get-remove}
use airway_im_plugin.Json.{from_entries, entries}
use airway_im_plugin.Sync.{
  Stored, blank, corrupt, parsed, load_stored, load_entries, load_entry, number_entries,
}
use airway_im_plugin.Adapter.{StorageAdapter, or_same}
use airway_im_plugin.Adapter.Browser.{
  LocalStorage, IsLocalStorage, browser_storage, browser_storage-IsBestEffort,
}
use airway_im_plugin.Adapter.Wechat.{WxStorage, text_value, text_or_null, wechat_storage}
use airway_im_plugin.Adapter.Durable.{
  Call, tracks, restarts, run, restart, sequence_of, call, track_to, persist_to, snapshot,
  load_or_empty,
}
use airway_im_plugin.Adapter.Durable.Behind.{restart_never_ahead}
use airway_im_plugin.Adapter.Durable.Exact.{Stores, restart_exact}
use airway_im_plugin.Tests.Fixtures.{room}

-- A localStorage with a quota: so many calls of setItem succeed.
abbrev set_within : Dict Stored × ℕ → Text → Stored → Option (Dict Stored × ℕ)
set_within (m, zero) k v = none
set_within (m, suc n) k v = some (Dict.put k v m, n)

abbrev or_empty : Option Stored → Stored
or_empty none = blank
or_empty (some v) = v

abbrev small : LocalStorage
small = record {
  State = Dict Stored × ℕ;
  accessible = λ w. true;
  get_item = λ w k. Dict.get k w.0;
  set_item = set_within;
  remove_item = λ w k. some (Dict.remove k w.0, w.1);
}

set_within-get :
    (w w' : Dict Stored × ℕ) (k j : Text) (v : Stored)
    → set_within w k v ≡ some w'
    → Dict.get j w'.0 ≡ (if text_eq k j then some v else Dict.get j w.0)
set_within-get (m, zero) w' k j v e = absurd (ground (arith, e))
set_within-get (m, suc n) (m', n') k j v e = ground (arith, e, get-put k j v m)

removed-get :
    (w w' : Dict Stored × ℕ) (k j : Text)
    → ◌≡◌ {A = Option (Dict Stored × ℕ)} (some (Dict.remove k w.0, w.1)) (some w')
    → Dict.get j w'.0 ≡ (if text_eq k j then none else Dict.get j w.0)
removed-get (m, n) (m', n') k j e = ground (arith, e, get-remove k j m)

small-IsLocalStorage : IsLocalStorage small
small-IsLocalStorage = record {
  set_accessible = λ w w' k v e. refl;
  set_get = set_within-get;
  remove_accessible = λ w w' k e. refl;
  remove_get = removed-get;
}

abbrev browser : StorageAdapter
browser = browser_storage small

-- An empty storage that takes two texts.
abbrev unused : browser.State
unfolding browser_storage
unused = ([], 2)

abbrev chat : List Call
chat =
    tracks room (pos 3)
    ∷ tracks room (pos 5)
    ∷ restarts
    ∷ tracks room (pos 4)
    ∷ tracks room (pos 9)
    ∷ []

-- It takes two of the three texts that the engine stores.
test_small :
    let d = run browser (text "k") chat (restart browser (text "k") unused) in
    (sequence_of room d.last_seq ≡ pos 9)
    × (sequence_of room (restart browser (text "k") d.world).last_seq ≡ pos 5)
unfolding browser_storage or_same run call track_to restart persist_to snapshot load_or_empty
    load_stored load_entries load_entry number_entries from_entries entries text_eq Dict.get
    Dict.put
test_small = (refl, refl)

restart_never_ahead_example :
    let d = run browser (text "k") chat (restart browser (text "k") unused) in
    sequence_of room (restart browser (text "k") d.world).last_seq ≤ℤ sequence_of room d.last_seq
restart_never_ahead_example =
    restart_never_ahead browser (text "k") room chat unused
      (browser_storage-IsBestEffort small small-IsLocalStorage) tt

-- wx storage without a quota.
abbrev wx : WxStorage
wx = record {
  State = Dict Stored;
  get_storage_sync = λ m k. some (text_value (or_empty (Dict.get k m)));
  set_storage_sync = λ m k v. some (Dict.put k v m);
  remove_storage_sync = λ m k. some (Dict.remove k m);
}

abbrev wechat : StorageAdapter
wechat = wechat_storage wx

abbrev fresh : wechat.State
unfolding wechat_storage
fresh = []

wechat-Stores : Stores wechat
unfolding wechat_storage or_same text_or_null
wechat-Stores m k blank ne = absurd (ne refl)
wechat-Stores m k corrupt ne = ground (arith, get-put k k corrupt m, text_eq_refl k)
wechat-Stores m k (parsed v) ne = ground (arith, get-put k k (parsed v) m, text_eq_refl k)

restart_exact_example :
    let d = run wechat (text "k") chat (restart wechat (text "k") fresh) in
    sequence_of room (restart wechat (text "k") d.world).last_seq ≡ sequence_of room d.last_seq
restart_exact_example = restart_exact wechat (text "k") room chat fresh wechat-Stores
