-- ===== src/Sync/Fetch/Complete.antt =====
-- A fetch misses nothing: over a conversation whose log stays as it is, it emits the messages above
-- where it began, up to its bound of pages.
use airway_im_plugin.Base.{
  ℕ, zero, suc, ◌*◌, ◌≤◌, ◌<◌, ◌≡◌, refl, true, some, List, [], ◌∷◌, ◌++◌, arith, length,
  if◌then◌else◌, take, drop, take-add, take-all, length-take-lt, ltb, ltb→lt, ltb→le, Bool-cases,
  inl, inr, ap, sym, ◌∙◌,
}
use airway_im_plugin.Base.Int.{ℤ, ◌≤ℤ◌, ltb_ℤ, ltb_ℤ→lt}
use airway_im_plugin.Text.{Text}
use airway_im_plugin.Sync.{ChatMessage, SyncEngine, last_sequence}
use airway_im_plugin.Sync.Tracking.{last_sequence-track}
use airway_im_plugin.Sync.Fetch.{Run, ListMessages, fetch_pages, run_fetch, begin, no_options}
use airway_im_plugin.Sync.Fetch.Order.{
  fetch_pages-Collects, Ascending, last_of, last_of-ge, accept_page_short, accept_page_full,
}

-- The messages of a log with sequences above `s`.
abbrev pub newer : ℤ → List ChatMessage → List ChatMessage
newer s [] = []
newer s (m ∷ ms) = if ltb_ℤ s m.sequence then m ∷ newer s ms else newer s ms

-- The documented endpoint over a log that does not change: the first `limit` messages above
-- `after_sequence`, for a limit from 1 through 200.
abbrev pub Serves : {W : Type 0} → ListMessages W → Text → List ChatMessage → Type 0
Serves {W} list_messages conv log =
    (after : ℤ) (limit : ℕ) (w : W)
    → 0 < limit
    → limit ≤ 200
    → (list_messages conv after limit w).0 ≡ some (take limit (newer after log))

pub newer_all : (s t : ℤ) (ms : List ChatMessage) → t ≤ℤ s → Ascending s ms → newer t ms ≡ ms
newer_all s t [] h k = refl
newer_all s t (m ∷ ms) h k = ground (arith, newer_all m.sequence t ms)

pub newer-Ascending : (b s : ℤ) (ms : List ChatMessage) → Ascending b ms → Ascending s (newer s ms)
newer-Ascending b s [] h = tt
newer-Ascending b s (m ∷ ms) h = elim (Bool-cases (ltb_ℤ s m.sequence)) [
  | inl q ↦
      let lt = ltb_ℤ→lt s m.sequence q in
      let e : newer s ms ≡ ms = newer_all m.sequence s ms (omega arith) h.1 in rw q (lt, rw e h.1)
  | inr q ↦ rw q (newer-Ascending m.sequence s ms h.1)
]

newer-newer : (s t : ℤ) (ms : List ChatMessage) → s ≤ℤ t → newer t (newer s ms) ≡ newer t ms
newer-newer s t [] h = refl
newer-newer s t (m ∷ ms) h = ground (arith, newer-newer s t ms)

pub Ascending-take :
    (k : ℕ) (s : ℤ) (ms : List ChatMessage) → Ascending s ms → Ascending s (take k ms)
Ascending-take zero s ms h = tt
Ascending-take (suc k) s [] h = tt
Ascending-take (suc k) s (m ∷ ms) h = (h.0, Ascending-take k m.sequence ms h.1)

newer_past :
    (k : ℕ) (s : ℤ) (ms : List ChatMessage)
    → Ascending s ms
    → newer (last_of s (take k ms)) ms ≡ drop k ms
newer_past zero s ms h = newer_all s s ms (omega arith) h
newer_past (suc k) s [] h = refl
newer_past (suc k) s (m ∷ ms) h = ground (
  arith,
  last_of-ge m.sequence (take k ms) (Ascending-take k m.sequence ms h.1),
  newer_past k m.sequence ms h.1,
)

-- After a page of the messages above `s`, those above its last message are the rest.
pub newer_rest :
    (b s : ℤ) (k : ℕ) (log : List ChatMessage)
    → Ascending b log
    → newer (last_of s (take k (newer s log))) log ≡ drop k (newer s log)
newer_rest b s k log h =
    let asc = newer-Ascending b s log h in
    let le = last_of-ge s (take k (newer s log)) (Ascending-take k s (newer s log) asc) in
    sym (newer-newer s (last_of s (take k (newer s log))) log le) ∙ newer_past k s (newer s log) asc

module _ {W : Type 0} (list_messages : ListMessages W) (conv : Text) (log : List ChatMessage) where
  fetch_pages_complete :
      (b : ℤ)
      → Ascending b log
      → Serves list_messages conv log
      → (n j : ℕ) (r : Run) (w : W) → r.conversation ≡ conv
      → 0 < r.limit
      → r.limit ≤ 200
      → j ≡ n * r.limit
      → ((fetch_pages list_messages n r w).resolved ≡ true)
        × ((fetch_pages list_messages n r w).emitted ≡ take j (newer r.from log))
  unfolding fetch_pages
  fetch_pages_complete b asc serves zero j r w c lo hi e =
      let z : j ≡ 0 = omega arith in (refl, rw z)
  fetch_pages_complete b asc serves (suc n) j r w c lo hi e =
      let call = list_messages r.conversation r.from r.limit w in
      let xs = newer r.from log in
      let page = take r.limit xs in
      let reply : call.0 ≡ some page = rw c (serves r.from r.limit w lo hi) in
      elim (Bool-cases (ltb (length page) r.limit)) [
        | inl q ↦
            let short = ltb→lt _ _ q in
            let (r', s) = accept_page_short r page short in
            let none_left = length-take-lt r.limit xs short in
            rw (reply, fetch_pages)
              (rw (ap (λ x. x.1) s, ap (λ x. x.0) s, fetch_pages)
                (refl, take-all r.limit xs (omega arith) ∙ sym (take-all j xs (omega arith))))
        | inr q ↦
            let full = ltb→le _ _ q in
            let (r', s, acc) = accept_page_full r page lo full in
            let ih =
              fetch_pages_complete b asc serves n (n * r.limit) r' call.1 (acc.conversation ∙ c)
                (rw acc.limit lo) (rw acc.limit hi) (rw acc.limit) in
            let rest = ap (λ t. newer t log) acc.from ∙ newer_rest b r.from r.limit log asc in
            rw (reply, fetch_pages)
              (rw (ap (λ x. x.1) s, ap (λ x. x.0) s, fetch_pages)
                (
                  ih.0,
                  ap (λ t. page ++ t) (ih.1 ∙ ap (take (n * r.limit)) rest)
                      ∙ sym (take-add r.limit (n * r.limit) j xs (omega arith)),
                ))
      ]

  -- The state after a fetch with default options over a log that stays as it is.
  pub run_fetch_catches :
      (b : ℤ) (e : SyncEngine) (w : W)
      → Ascending b log
      → Serves list_messages conv log
      → let s = last_sequence conv e in
        let done = run_fetch list_messages conv no_options e w in
        (done.1.resolved ≡ true)
        × (done.1.emitted ≡ take 2000 (newer s log))
        × (last_sequence conv done.0 ≡ last_of s (take 2000 (newer s log)))
  unfolding run_fetch begin
  run_fetch_catches b e w asc serves =
      let r = begin conv no_options e in
      let f = fetch_pages list_messages 10 r w in
      let s = last_sequence conv e in
      let (ok, out) =
        fetch_pages_complete b asc serves 10 2000 r w refl (omega arith) (omega arith)
          (omega arith) in
      let io = fetch_pages-Collects list_messages 10 r w in
      let at : f.run.from ≡ last_of s (take 2000 (newer s log)) = io.from ∙ ap (last_of s) out in
      let le =
        last_of-ge s (take 2000 (newer s log))
          (Ascending-take 2000 s _ (newer-Ascending b s log asc)) in
      (ok, out, rw ok (last_sequence-track conv f.run.from e (rw at le) ∙ at))

  -- `k` fetches with default options, one after the other: the engine and all that they emitted.
  unfoldable pub fetch_rounds : ℕ → SyncEngine → W → SyncEngine × List ChatMessage
  fetch_rounds zero e w = (e, [])
  fetch_rounds (suc k) e w =
      let (e', f) = run_fetch list_messages conv no_options e w in
      let (e'', out) = fetch_rounds k e' f.world in (e'', f.emitted ++ out)

  -- Over a conversation whose log rises in sequence and stays as it is, `k` fetches in a row emit
  -- the first 2000 * k messages above the last-seen sequence, each once and in order.
  pub fetch_rounds_complete :
      (b : ℤ) (k j : ℕ) (e : SyncEngine) (w : W)
      → Ascending b log
      → Serves list_messages conv log
      → j ≡ k * 2000
      → (fetch_rounds k e w).1 ≡ take j (newer (last_sequence conv e) log)
  unfolding fetch_rounds
  fetch_rounds_complete b zero j e w asc serves q = let z : j ≡ 0 = omega arith in rw z
  fetch_rounds_complete b (suc k) j e w asc serves q =
      let s = last_sequence conv e in
      let (e', f) = run_fetch list_messages conv no_options e w in
      let (ok, out, at) = run_fetch_catches b e w asc serves in
      let rest = ap (λ t. newer t log) at ∙ newer_rest b s 2000 log asc in
      let ih = fetch_rounds_complete b k (k * 2000) e' f.world asc serves refl in
      rw out (
        ap (λ t. take 2000 (newer s log) ++ t) (ih ∙ ap (take (k * 2000)) rest)
        ∙ sym (take-add 2000 (k * 2000) j (newer s log) (omega arith)))
