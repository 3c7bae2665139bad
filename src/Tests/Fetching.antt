-- ===== src/Tests/Fetching.antt =====
-- The fetch loop at concrete inputs.
use airway_im_plugin.Base.{ℕ, ◌≡◌, refl, none, some, List, [], ◌∷◌, take, zero, suc}
use airway_im_plugin.Base.Int.{pos}
use airway_im_plugin.Text.{text}
use airway_im_plugin.Dict
use airway_im_plugin.Sync.{ChatMessage, last_sequence}
use airway_im_plugin.Sync.Fetch.{Run, ListMessages, fetch_pages, accept_page}
use airway_im_plugin.Sync.Fetch.Complete.{newer, fetch_rounds, fetch_rounds_complete}
use airway_im_plugin.Tests.Fixtures.{room, message, log, log-Ascending, serve, engine}

-- Pages of one message.
abbrev one_by_one : Run
one_by_one = record { conversation = room; limit = 1; from = pos 1; pages_left = 5; all = [] }

test_pages :
    (fetch_pages serve 5 one_by_one tt).emitted ≡ message (text "b") 2 ∷ message (text "c") 4 ∷ []
unfolding fetch_pages accept_page
test_pages = refl

fetch_rounds_complete_example :
    (fetch_rounds serve room log 2 engine tt).1 ≡ take 4000 (newer (last_sequence room engine) log)
fetch_rounds_complete_example =
    fetch_rounds_complete serve room log (pos 0) 2 4000 engine tt log-Ascending
      (λ after limit w lo hi. refl) refl

-- The messages numbered from n + 1 on, k of them.
count_up : ℕ → ℕ → List ChatMessage
count_up zero n = []
count_up (suc k) n = message (text "m") (suc n) ∷ count_up k (suc n)

-- A log of more than one page, and two servers over it: one refuses every request but the first.
abbrev long_log : List ChatMessage
long_log = count_up 202 0

steady : ListMessages ℕ
steady conv after limit n = (some (take limit (newer after long_log)), suc n)

flaky : ListMessages ℕ
unfolding steady
flaky conv after limit zero = steady conv after limit zero
flaky conv after limit (suc n) = (none, suc n)
