-- ===== src/Sync/Queue/Alone.antt =====
-- A task of the queue that nothing interrupts, against the fetch loop as one computation
-- (Sync/Fetch): the steps between its awaits, each answered by listMessages in its turn.
use airway_im_plugin.Base.{
  ℕ, zero, suc, ◌-◌, if_cases, take, ◌≡◌, refl, ◌∙◌, ap, true, Option, none, some, List, [], ◌∷◌,
  ◌++◌, arith, ◌==◌, append-nil, append_assoc, if◌then◌else◌, Option-cases, inl, inr,
}
use airway_im_plugin.Text.{Text, text_eq_refl}
use airway_im_plugin.Base.Int.{ℤ}
use airway_im_plugin.Sync.{ChatMessage, SyncEngine, track, last_sequence}
use airway_im_plugin.Sync.Fetch.{
  Run, FetchOptions, Fetched, ListMessages, begin, accept_page, more, fetch_pages, run_fetch,
  no_options,
}
use airway_im_plugin.Sync.Fetch.Order.{accept_page-Accepts, Next-cases, Ascending, last_of}
use airway_im_plugin.Sync.Fetch.Complete.{newer, Serves, run_fetch_catches}
use airway_im_plugin.Sync.Queue.{
  Chain, Job, fetching, Task, fetch, Output, Effect, request, chain_start, chain_reply, start_next,
  begin_task, continue_fetch, finish, reply_next, reply_job, emits, prepend,
}
use airway_im_plugin.Sync.Queue.Cursor.{emitted}

pub record Driven (W : Type 0) : Type 0 where
  pub chain : Chain
  pub engine : SyncEngine
  pub out : List Output
  pub world : W

-- The messages that a page hands on.
emitted-emits :
    (conv : Text) (page : List ChatMessage) (os : List Output)
    → emitted conv (emits conv page ++ os) ≡ page ++ emitted conv os
unfolding emits
emitted-emits conv [] os = refl
emitted-emits conv (m ∷ ms) os = rw (text_eq_refl conv) refl

-- A turn that goes on leaves one page less.
pages_after :
    (r r' : Run) (page : List ChatMessage)
    → (accept_page r page).1 ≡ more r'
    → r'.pages_left ≡ r.pages_left - 1
unfolding accept_page
pages_after r r' [] q = ground arith
pages_after r r' (m ∷ ms) q = ground arith

asking : Run → Chain → SyncEngine → Effect
asking r ch e = record {
  chain = record ch { running = some (fetching r) };
  engine = e;
  out = request ch.conversation r.from r.limit ∷ [];
}

continue-last :
    (r : Run) (ch : Chain) (e : SyncEngine)
    → r.pages_left ≡ 0
    → continue_fetch r ch e ≡ finish r ch e
unfolding continue_fetch
continue-last r ch e h =
    if_cases (λ (t : Effect). t ≡ finish r ch e) (r.pages_left == 0) _ _ (λ p. refl)
      (λ p. ground (arith, h))

continue-more :
    (n : ℕ) (r : Run) (ch : Chain) (e : SyncEngine)
    → r.pages_left ≡ suc n
    → continue_fetch r ch e ≡ asking r ch e
unfolding continue_fetch asking
continue-more n r ch e h =
    if_cases (λ (t : Effect). t ≡ asking r ch e) (r.pages_left == 0) _ _ (λ p. ground (arith, h))
      (λ p. refl)

module _ {W : Type 0} (list_messages : ListMessages W) where
  -- The fetch that runs in a chain is answered, again and again, `n` times at most.
  abbrev pub drive : ℕ → Option Job → Chain → SyncEngine → W → Driven W
  drive (suc n) (some (fetching r)) ch e w =
      let (reply, w') = list_messages r.conversation r.from r.limit w in
      let t = chain_reply reply ch e in
      let rest = drive n t.chain.running t.chain t.engine w' in
      record rest { out = t.out ++ rest.out }
  drive _ _ ch e w = record { chain = ch; engine = e; out = []; world = w }

  -- The chain has ended the task as the loop ends: with what it emits, its engine and its world.
  pub record Ends (ch : Chain) (e : SyncEngine) (f : Fetched W) (out : List Output) (d : Driven W)
      : Type 0 where
    pub emits_same : emitted ch.conversation (out ++ d.out) ≡ f.emitted
    pub engine_same : d.engine ≡ (if f.resolved then track ch.conversation f.run.from e else e)
    pub idle : d.chain ≡ record ch { running = none }
    pub world_same : d.world ≡ f.world

  drive-idle :
      (n : ℕ) (ch : Chain) (e : SyncEngine) (w : W)
      → drive n none ch e w ≡ record { chain = ch; engine = e; out = []; world = w }
  drive-idle zero ch e w = refl
  drive-idle (suc n) ch e w = refl

  -- The effect of a step, and the answers after it, end as the loop.
  abbrev Follows : ℕ → Chain → SyncEngine → Fetched W → W → Effect → Type 0
  Follows n ch e f w t = Ends ch e f t.out (drive n t.chain.running t.chain t.engine w)

  finish-Follows :
      (n : ℕ) (r : Run) (ch : Chain) (e : SyncEngine) (w : W)
      → Follows n ch e
          (record { emitted = []; run = r; resolved = true; world = w })
          w
          (finish r ch e)
  unfolding finish
  finish-Follows n r ch e w =
      rw (drive-idle n (record ch { running = none }) (track ch.conversation r.from e) w)
        (record { emits_same = refl; engine_same = refl; idle = refl; world_same = refl })

  -- A page comes before what follows it.
  Follows-page :
      (n : ℕ) (r : Run) (ch : Chain) (e : SyncEngine) (f : Fetched W) (page : List ChatMessage)
      (w w' : W) (t : Effect)
      → Follows n (record ch { running = some (fetching r) }) e f w' t
      → Ends ch e
          (record f { emitted = page ++ f.emitted })
          (asking r ch e).out
          (record (drive n t.chain.running t.chain t.engine w') {
            out =
                (prepend (emits ch.conversation page) t).out
                ++ (drive n t.chain.running t.chain t.engine w').out;
          })
  unfolding asking prepend
  Follows-page n r ch e f page w w' t h = record {
    emits_same =
        rw
          (append_assoc (emits ch.conversation page) t.out
            (drive n t.chain.running t.chain t.engine w').out)
          (emitted-emits ch.conversation page _
            ∙ ap (λ (ms : List ChatMessage). page ++ ms) h.emits_same);
    engine_same = h.engine_same;
    idle = h.idle;
    world_same = h.world_same;
  }

  -- What the rest of the loop does is known for one page less.
  answered :
      (n : ℕ) (r : Run) (ch : Chain) (e : SyncEngine) (w : W)
      → r.pages_left ≡ suc n
      → ((r' : Run) (ch' : Chain) (w' : W)
          → r'.pages_left ≡ n
          → Follows n ch' e (fetch_pages list_messages n r' w') w' (continue_fetch r' ch' e))
      → Follows (suc n) ch e (fetch_pages list_messages (suc n) r w) w (asking r ch e)
  unfolding fetch_pages asking chain_reply reply_next reply_job
  answered n r ch e w left rest =
      let ch' : Chain = record ch { running = some (fetching r) } in
      let w' = (list_messages r.conversation r.from r.limit w).1 in
      elim (Option-cases (list_messages r.conversation r.from r.limit w).0) [
        | inl q ↦
            rw (q, fetch_pages)
              (rw (drive-idle n (record ch { running = none }) e w')
                (record { emits_same = refl; engine_same = refl; idle = refl; world_same = refl }))
        | inr (page, q) ↦
            let (same, acc) = accept_page-Accepts r page in
            elim (Next-cases (accept_page r page).1) [
              | inl (r', p) ↦
                  rw (q, fetch_pages)
                    (rw (p, same, fetch_pages, reply_job)
                      (rw (append-nil page) at (
                        Follows-page n r ch e
                          (record { emitted = []; run = r'; resolved = true; world = w' }) page w w'
                          (finish r' ch' e) (finish-Follows n r' ch' e w'))))
              | inr (r', p) ↦
                  rw (q, fetch_pages)
                    (rw (p, same, fetch_pages, reply_job)
                      (Follows-page n r ch e (fetch_pages list_messages n r' w') page w w'
                        (continue_fetch r' ch' e)
                        (rest r' ch' w' (pages_after r r' page p ∙ rw left (omega arith)))))
            ]
      ]

  follow :
      (n : ℕ) (r : Run) (ch : Chain) (e : SyncEngine) (w : W)
      → r.pages_left ≡ n
      → Follows n ch e (fetch_pages list_messages n r w) w (continue_fetch r ch e)
  follow zero r ch e w left =
      rw (continue-last r ch e left) (unfold fetch_pages in finish-Follows zero r ch e w)
  follow (suc n) r ch e w left =
      rw (continue-more n r ch e left)
        (answered n r ch e w left (λ r' ch' w' h. follow n r' ch' e w' h))

-- A fetch that is next in an idle chain, whose requests are answered by listMessages while nothing else
-- happens, emits what runFetch as one loop emits, and leaves the chain idle with the tasks behind it, and
-- the engine and the world as the loop does; as many answers as it may take pages are enough.
drive_fetches :
    {W : Type 0} (list_messages : ListMessages W) (o : FetchOptions) (ts : List Task) (ch : Chain)
    (e : SyncEngine) (w : W)
    → ch.running ≡ none
    → ch.waiting ≡ fetch o ∷ ts
    → let t = chain_start ch e in
      let d =
        drive list_messages
          (begin ch.conversation o e).pages_left
          t.chain.running
          t.chain
          t.engine
          w in
      let (e', f) = run_fetch list_messages ch.conversation o e w in
      (emitted ch.conversation (t.out ++ d.out) ≡ f.emitted)
      × (d.engine ≡ e')
      × (d.chain ≡ record ch { running = none; waiting = ts })
      × (d.world ≡ f.world)
unfolding chain_start start_next begin_task run_fetch
drive_fetches list_messages o ts ch e w idle next =
    let h =
      follow list_messages (begin ch.conversation o e).pages_left (begin ch.conversation o e)
        (record ch { waiting = ts }) e w refl in
    rw (idle, next, chain_start, start_next) (h.emits_same, h.engine_same, h.idle, h.world_same)

-- Over a conversation whose log rises in sequence and stays as it is: a fetch with default options that is next
-- in an idle chain, whose requests are answered by listMessages while nothing else happens, emits the first
-- 2000 messages of the log above the last-seen sequence, in order; that sequence is then the last of theirs;
-- and the chain is idle, with the tasks behind the fetch. Ten answers are enough.
pub drive_catches :
    {W : Type 0} (list_messages : ListMessages W) (log : List ChatMessage) (b : ℤ) (ts : List Task)
    (ch : Chain) (e : SyncEngine) (w : W)
    → Ascending b log
    → Serves list_messages ch.conversation log
    → ch.running ≡ none
    → ch.waiting ≡ fetch no_options ∷ ts
    → let t = chain_start ch e in
      let d = drive list_messages 10 t.chain.running t.chain t.engine w in
      let s = last_sequence ch.conversation e in
      (emitted ch.conversation (t.out ++ d.out) ≡ take 2000 (newer s log))
      × (last_sequence ch.conversation d.engine ≡ last_of s (take 2000 (newer s log)))
      × (d.chain ≡ record ch { running = none; waiting = ts })
unfolding begin
drive_catches list_messages log b ts ch e w asc serves idle next =
    let (out, engine, chain, world) = drive_fetches list_messages no_options ts ch e w idle next in
    let (ok, all, at) = run_fetch_catches list_messages ch.conversation log b e w asc serves in
    (out ∙ all, ap (last_sequence ch.conversation) engine ∙ at, chain)
