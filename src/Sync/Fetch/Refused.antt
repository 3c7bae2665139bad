-- ===== src/Sync/Fetch/Refused.antt =====
-- A fetch whose endpoint refuses a later page: what it emitted stays emitted, and the tracker is
-- not moved.
use airway_im_plugin.Base.{ℕ, ◌≤◌, ◌<◌, ◌≡◌, false, none, some, List, take, ◌⊎◌}
use airway_im_plugin.Base.Int.{ℤ}
use airway_im_plugin.Text.{Text}
use airway_im_plugin.Sync.{ChatMessage, SyncEngine}
use airway_im_plugin.Sync.Fetch.{Run, Fetched, ListMessages, run_fetch, FetchOptions}
use airway_im_plugin.Sync.Fetch.Complete.{newer}

-- The endpoint over an unchanging log, where any request may be refused.
abbrev pub ServesOrRefuses : {W : Type 0} → ListMessages W → Text → List ChatMessage → Type 0
ServesOrRefuses {W} list_messages conv log =
    (after : ℤ) (limit : ℕ) (w : W)
    → 0 < limit
    → limit ≤ 200
    → ((list_messages conv after limit w).0 ≡ none)
      ⊎ ((list_messages conv after limit w).0 ≡ some (take limit (newer after log)))

-- A fetch that is refused leaves the engine exactly as it was: its map and its storage.
pub run_fetch_refused :
    {W : Type 0} (list_messages : ListMessages W) (conv : Text) (o : FetchOptions) (e : SyncEngine)
    (w : W)
    → (run_fetch list_messages conv o e w).1.resolved ≡ false
    → (run_fetch list_messages conv o e w).0 ≡ e
unfolding run_fetch
run_fetch_refused list_messages conv o e w h = rw h

module _ {W : Type 0} (list_messages : ListMessages W) (conv : Text) (log : List ChatMessage) where
  -- The fetch has emitted a prefix of what is above where it began.
  abbrev EmitsPrefix : Run → Fetched W → Type 0
  EmitsPrefix r f =
      r.conversation ≡ conv
      → 0 < r.limit
      → r.limit ≤ 200
      → (j : ℕ) × (f.emitted ≡ take j (newer r.from log))
