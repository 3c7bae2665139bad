-- ===== src/Sync/Fetch/Order.antt =====
-- A fetch emits in order: over any pages that keep the endpoint's contract, at whatever state of
-- the conversation each was taken, and also where a later page is refused.
use airway_im_plugin.Base.{
  Option-cases, ◌⊎◌, inl, inr, ℕ, zero, suc, ◌-◌, ◌≤◌, ◌<◌, ◌≡◌, refl, true, false, some, List, [],
  ◌∷◌, ◌++◌, arith, length, get_last_or, append_assoc, append-nil,
}
use airway_im_plugin.Base.Int.{ℤ, ◌<ℤ◌, ◌≤ℤ◌}
use airway_im_plugin.Text.{Text}
use airway_im_plugin.Sync.{ChatMessage}
use airway_im_plugin.Sync.Fetch.{
  Run, Next, more, stop, advance, accept_page, Fetched, ListMessages, fetch_pages,
}

-- The sequences rise strictly, and the first is above `s`.
abbrev pub Ascending : ℤ → List ChatMessage → Type 0
Ascending s [] = Unit
Ascending s (m ∷ ms) = (s <ℤ m.sequence) × Ascending m.sequence ms

-- The sequence of the last message, or `s` if there is none.
abbrev pub last_of : ℤ → List ChatMessage → ℤ
last_of s [] = s
last_of s (m ∷ ms) = last_of m.sequence ms

-- The contract of the endpoint: ordered messages with sequences above `after_sequence`.
abbrev pub IsOrdered : {W : Type 0} → ListMessages W → Type 0
IsOrdered {W} list_messages =
    (conv : Text) (after : ℤ) (limit : ℕ) (w : W) (page : List ChatMessage)
    → (list_messages conv after limit w).0 ≡ some page
    → Ascending after page

pub Ascending-append :
    (s : ℤ) (ms ns : List ChatMessage)
    → Ascending s ms
    → Ascending (last_of s ms) ns
    → Ascending s (ms ++ ns)
Ascending-append s [] ns h k = k
Ascending-append s (m ∷ ms) ns h k = (h.0, Ascending-append m.sequence ms ns h.1 k)

pub Ascending-weaken : (s t : ℤ) (ms : List ChatMessage) → s ≤ℤ t → Ascending t ms → Ascending s ms
Ascending-weaken s t [] h k = tt
Ascending-weaken s t (m ∷ ms) h k = (omega (arith, k.0), k.1)

pub last_of-mono : (s t : ℤ) (ms : List ChatMessage) → s ≤ℤ t → last_of s ms ≤ℤ last_of t ms
last_of-mono s t [] h = h
last_of-mono s t (m ∷ ms) h = omega arith

pub last_of-append :
    (s : ℤ) (ms ns : List ChatMessage) → last_of s (ms ++ ns) ≡ last_of (last_of s ms) ns
last_of-append s [] ns = refl
last_of-append s (m ∷ ms) ns = last_of-append m.sequence ms ns

pub last_of-get_last :
    (m : ChatMessage) (ms : List ChatMessage) → (get_last_or m ms).sequence ≡ last_of m.sequence ms
last_of-get_last m [] = refl
last_of-get_last m (n ∷ ms) = last_of-get_last n ms

pub last_of-ge : (s : ℤ) (ms : List ChatMessage) → Ascending s ms → s ≤ℤ last_of s ms
last_of-ge s [] h = omega arith
last_of-ge s (m ∷ ms) h = omega (arith, last_of-ge m.sequence ms h.1)

abbrev pub next_run : Next → Run
next_run (more r) = r
next_run (stop r) = r

-- What a page does to the loop's variables.
pub record Accepts (r : Run) (page : List ChatMessage) (r' : Run) : Type 0 where
  pub conversation : r'.conversation ≡ r.conversation
  pub limit : r'.limit ≡ r.limit
  pub from : r'.from ≡ last_of r.from page
  pub all : r'.all ≡ r.all ++ page

pub accept_page-Accepts :
    (r : Run) (page : List ChatMessage)
    → ((accept_page r page).0 ≡ page) × Accepts r page (next_run (accept_page r page).1)
unfolding accept_page
accept_page-Accepts r [] =
    (refl, record { conversation = refl; limit = refl; from = refl; all = rw append-nil })
accept_page-Accepts r (m ∷ ms) = (refl, ground (arith, last_of-get_last m ms))

-- A page with fewer messages than asked for is the last.
pub accept_page_short :
    (r : Run) (page : List ChatMessage)
    → length page < r.limit
    → (r' : Run) × (accept_page r page ≡ (page, stop r'))
unfolding accept_page
accept_page_short r [] h = (r, refl)
accept_page_short r (m ∷ ms) h = (advance m ms r, ground arith)

-- After a full page the loop goes on.
pub accept_page_full :
    (r : Run) (page : List ChatMessage)
    → 0 < r.limit
    → r.limit ≤ length page
    → (r' : Run) × (accept_page r page ≡ (page, more r')) × Accepts r page r'
unfolding accept_page
accept_page_full r [] p h = absurd (omega arith)
accept_page_full r (m ∷ ms) p h = (
  record (advance m ms r) { pages_left = r.pages_left - 1 },
  ground arith,
  ground (arith, last_of-get_last m ms),
)

pub Next-cases : (x : Next) → ((r : Run) × (x ≡ stop r)) ⊎ ((r : Run) × (x ≡ more r))
Next-cases (stop r) = inl (r, refl)
Next-cases (more r) = inr (r, refl)

-- What the loop's variables are at the end of a fetch from the variables `r`.
pub record Collects {W : Type 0} (r : Run) (f : Fetched W) : Type 0 where
  pub from : f.run.from ≡ last_of r.from f.emitted
  pub all : f.run.all ≡ r.all ++ f.emitted

module _ {W : Type 0} (r r' : Run) (page : List ChatMessage) (acc : Accepts r page r') where
  stop-Collects : (f : Fetched W) → f.emitted ≡ page → f.run ≡ r' → Collects r f
  stop-Collects f e q = record { from = rw (q, e) acc.from; all = rw (q, e) acc.all }

  more-Collects :
      (f : Fetched W) → Collects r' f → Collects r (record f { emitted = page ++ f.emitted })
  more-Collects f h = record {
    from = rw (last_of-append, ← acc.from) h.from;
    all = rw (← append_assoc, ← acc.all) h.all;
  }

-- The two ways on from a page, for any statement about a fetch.
module _ {W : Type 0} (list_messages : ListMessages W) (P : Run → Fetched W → Type 0) where
  pub fetch_induction :
      ((r : Run) (w : W) → P r (record { emitted = []; run = r; resolved = true; world = w }))
      → ((r : Run) (w : W) → P r (record { emitted = []; run = r; resolved = false; world = w }))
      → ((r r' : Run) (page : List ChatMessage) (w : W)
          → (list_messages r.conversation r.from r.limit w).0 ≡ some page
          → Accepts r page r'
          → P r (record {
            emitted = page;
            run = r';
            resolved = true;
            world = (list_messages r.conversation r.from r.limit w).1;
          }))
      → ((r r' : Run) (page : List ChatMessage) (w : W) (f : Fetched W)
          → (list_messages r.conversation r.from r.limit w).0 ≡ some page
          → Accepts r page r'
          → P r' f
          → P r (record f { emitted = page ++ f.emitted }))
      → (n : ℕ) (r : Run) (w : W) → P r (fetch_pages list_messages n r w)
  unfolding fetch_pages
  fetch_induction none_left refused stops goes_on zero r w = none_left r w
  fetch_induction none_left refused stops goes_on (suc n) r w =
      let call = list_messages r.conversation r.from r.limit w in
      elim (Option-cases call.0) [
        | inl e ↦ rw (e, fetch_pages) (refused r call.1)
        | inr (page, e) ↦
            let (same, acc) = accept_page-Accepts r page in
            elim (Next-cases (accept_page r page).1) [
              | inl (r', q) ↦
                  rw (e, fetch_pages)
                    (rw (q, same, fetch_pages) (stops r r' page w e (rw q at acc)))
              | inr (r', q) ↦
                  rw (e, fetch_pages)
                    (rw (q, same, fetch_pages)
                      (goes_on r r' page w _ e (rw q at acc)
                        (fetch_induction none_left refused stops goes_on n r' call.1)))
            ]
      ]

module _ {W : Type 0} (list_messages : ListMessages W) where
  -- However a fetch ends, it ends at the last message that it emitted, having collected exactly
  -- the messages that it emitted.
  pub fetch_pages-Collects :
      (n : ℕ) (r : Run) (w : W) → Collects r (fetch_pages list_messages n r w)
  fetch_pages-Collects =
      fetch_induction list_messages Collects (λ r w. record { from = refl; all = rw append-nil })
        (λ r w. record { from = refl; all = rw append-nil })
        (λ r r' page w e acc. stop-Collects r r' page acc _ refl refl)
        (λ r r' page w f e acc h. more-Collects r r' page acc f h)

  -- If the endpoint gives ordered pages above `after_sequence`, then a fetch emits messages of
  -- strictly rising sequences, all above where it began, and so none of them twice; also if the
  -- conversation grows meanwhile, and if a request is refused after some pages.
  pub fetch_pages-Ascending :
      IsOrdered list_messages
      → (n : ℕ) (r : Run) (w : W) → Ascending r.from (fetch_pages list_messages n r w).emitted
  fetch_pages-Ascending ordered =
      fetch_induction list_messages (λ r f. Ascending r.from f.emitted) (λ r w. tt) (λ r w. tt)
        (λ r r' page w e acc. ordered r.conversation r.from r.limit w page e)
        (λ r r' page w f e acc h.
          Ascending-append r.from page f.emitted (ordered r.conversation r.from r.limit w page e)
            (rw (← acc.from) h))
