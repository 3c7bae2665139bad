-- ===== src/Adapter.antt =====
-- The platform adapters of the SDK (install/ignore/sdk/ts/dist/esm/browser.js and wechat.js): their storage,
-- as the interface that the engine is given (src/adapter.ts: StorageAdapter), and their answers to requests.
-- A text of the storage stands as the engine reads it (Sync.Stored).
pub mod Browser
pub mod Wechat
pub mod Durable
pub mod Requests
use airway_im_plugin.Base.{◌≡◌, ◌≢◌, ◌⊎◌, Option, none, some, if◌then◌else◌}
use airway_im_plugin.Text.{Text, text_eq}
use airway_im_plugin.Sync.{Stored, blank}

pub record StorageAdapter : Type 1 where
  pub State : Type 0
  pub get : State → Text → Option Stored
  pub set : State → Text → Stored → State
  pub remove : State → Text → State

-- What the engine relies on: a text that is not empty is stored under its key and nowhere else, or nothing
-- changes; and a key is removed, or nothing changes.
pub record IsBestEffort (S : StorageAdapter) : Type 0 where
  pub get-set :
      (w : S.State) (k : Text) (v : Stored)
      → v ≢ blank
      → (S.set w k v ≡ w)
        ⊎ ((j : Text) → S.get (S.set w k v) j ≡ (if text_eq k j then some v else S.get w j))
  pub get-remove :
      (w : S.State) (k : Text)
      → (S.remove w k ≡ w)
        ⊎ ((j : Text) → S.get (S.remove w k) j ≡ (if text_eq k j then none else S.get w j))

-- try { … } catch { }, where a call that throws has changed nothing.
unfoldable pub or_same {ℓ} : {A : Type ℓ} → A → Option A → A
or_same a none = a
or_same a (some b) = b
