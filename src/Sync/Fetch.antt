-- ===== src/Sync/Fetch.antt =====
-- SyncEngine's fetch loop: runFetch (install/ignore/sdk/ts/dist/esm/sync.js), over the REST client's
-- listMessages as a function of the outside world.
pub mod Order
pub mod Complete
pub mod Refused
use airway_im_plugin.Base.{
  ℕ, zero, suc, ◌-◌, Bool, true, false, Option, none, some, List, [], ◌∷◌, ◌++◌, get_or, ltb,
  length, get_last_or, if◌then◌else◌,
}
use airway_im_plugin.Base.Int.{ℤ}
use airway_im_plugin.Text.{Text}
use airway_im_plugin.Sync.{ChatMessage, SyncEngine, track, last_sequence}

abbrev pub page_limit : ℕ
page_limit = 200

abbrev pub max_sync_pages : ℕ
max_sync_pages = 10

pub record FetchOptions : Type 0 where
  pub from_sequence : Option ℤ
  pub limit : Option ℕ
  pub max_pages : Option ℕ

-- fetchFrom's default options
abbrev pub no_options : FetchOptions
no_options = record { from_sequence = none; limit = none; max_pages = none }

-- The loop's variables: `pages_left` is `maxPages - page`.
pub record Run : Type 0 where
  pub conversation : Text
  pub limit : ℕ
  pub from : ℤ
  pub pages_left : ℕ
  pub all : List ChatMessage

-- The part of runFetch before the loop.
unfoldable pub begin : Text → FetchOptions → SyncEngine → Run
begin conv o e = record {
  conversation = conv;
  limit = get_or o.limit page_limit;
  from = get_or o.from_sequence (last_sequence conv e);
  pages_left = get_or o.max_pages max_sync_pages;
  all = [];
}

-- Whether the loop breaks after a page or goes on to its test.
pub data Next : Type 0 where
  more : Run → Next
  stop : Run → Next

advance : ChatMessage → List ChatMessage → Run → Run
advance m ms r = record r { from = (get_last_or m ms).sequence; all = r.all ++ m ∷ ms }

-- One turn of the loop: the messages that it hands to onMessages, and whether it goes on. The
-- turn's `page += 1` takes one from the pages left.
unfoldable pub accept_page : Run → List ChatMessage → List ChatMessage × Next
unfolding advance
accept_page r [] = ([], stop r)
accept_page r (m ∷ ms) =
    let r' = advance m ms r in
    (
      m ∷ ms,
      if ltb (length (m ∷ ms)) r.limit
          then stop r'
          else more (record r' { pages_left = r.pages_left - 1 }),
    )

-- What a fetch leaves: what it emitted, the loop's variables at its end, whether the promise
-- resolves (a rejected listMessages ends the fetch), and the world.
pub record Fetched (W : Type 0) : Type 0 where
  pub emitted : List ChatMessage
  pub run : Run
  pub resolved : Bool
  pub world : W

-- listMessages(conversationId, {afterSequence, limit}); `none` where it rejects.
abbrev pub ListMessages : Type 0 → Type 0
ListMessages W = Text → ℤ → ℕ → W → Option (List ChatMessage) × W

module _ {W : Type 0} (list_messages : ListMessages W) where
  -- The loop, by recursion on the pages left.
  unfoldable pub fetch_pages : ℕ → Run → W → Fetched W
  fetch_pages zero r w = record { emitted = []; run = r; resolved = true; world = w }
  fetch_pages (suc n) r w =
      let (reply, w') = list_messages r.conversation r.from r.limit w in
      elim reply [
        | none ↦ record { emitted = []; run = r; resolved = false; world = w' }
        | some page ↦
            let (out, next) = accept_page r page in
            elim next [
              | stop r' ↦ record { emitted = out; run = r'; resolved = true; world = w' }
              | more r' ↦
                  let rest = fetch_pages n r' w' in record rest { emitted = out ++ rest.emitted }
            ]
      ]

  -- runFetch, with nothing else running: the fetch and the engine after it.
  unfoldable pub run_fetch : Text → FetchOptions → SyncEngine → W → SyncEngine × Fetched W
  run_fetch conv o e w =
      let r = begin conv o e in
      let f = fetch_pages r.pages_left r w in (if f.resolved then track conv f.run.from e else e, f)
