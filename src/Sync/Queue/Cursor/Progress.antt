-- ===== src/Sync/Queue/Cursor/Progress.antt =====
-- Steps of a chain that go forward from a cursor, and how they are put together.
use airway_im_plugin.Base.{
  ◌≡◌, ◌≢◌, refl, none, some, Option, List, [], ◌∷◌, ◌++◌, arith, if◌then◌else◌, ◌==◌, Bool-cases,
  inl, inr, get_or, ap, sym, append-nil,
}
use airway_im_plugin.Base.Int.{ℤ, pos, ◌≤ℤ◌}
use airway_im_plugin.Text.{Text, text_eq, text_eq_refl, text_eq_iff}
use airway_im_plugin.Sync.{ChatMessage, SyncEngine, track, last_sequence}
use airway_im_plugin.Sync.Tracking.{track_monotone, track_frame}
use airway_im_plugin.Sync.Fetch.{Run}
use airway_im_plugin.Sync.Fetch.Order.{Ascending, last_of}
use airway_im_plugin.Sync.Queue.{
  Task, fetch, reload, Job, fetching, Chain, Output, request, messages, updated, resolved, reloaded,
  rejected, Effect, continue_fetch, finish, emits, prepend,
}

-- Where the next message of a chain's conversation must lie above: the running fetch's `from`, or
-- else the last-seen sequence.
abbrev pub job_cursor : Option Job → ℤ → ℤ
job_cursor (some (fetching r)) last = r.from
job_cursor _ last = last

abbrev pub chain_cursor : Chain → SyncEngine → ℤ
chain_cursor ch e = job_cursor ch.running (last_sequence ch.conversation e)

-- The messages of a conversation's fetches among the outputs.
abbrev pub emitted : Text → List Output → List ChatMessage
emitted conv [] = []
emitted conv (messages c ms ∷ os) =
    let rest = emitted conv os in if text_eq c conv then ms ++ rest else rest
emitted conv (request _ _ _ ∷ os) = emitted conv os
emitted conv (updated _ ∷ os) = emitted conv os
emitted conv (resolved _ ∷ os) = emitted conv os
emitted conv (reloaded _ ∷ os) = emitted conv os
emitted conv (rejected ∷ os) = emitted conv os

-- A fetch that begins where the tracker stands.
abbrev pub IsDefault : Task → Type 0
IsDefault (fetch o) = o.from_sequence ≡ none
IsDefault (reload ev) = Unit

abbrev pub AllDefault : List Task → Type 0
AllDefault [] = Unit
AllDefault (t ∷ ts) = IsDefault t × AllDefault ts

-- The step goes forward from the cursor `s` of the chain's conversation: what it emits of it rises
-- from `s`, its cursor is then at least the last of that, and no other conversation is touched.
pub record Forward (conv : Text) (s : ℤ) (e : SyncEngine) (t : Effect) : Type 0 where
  pub own : t.chain.conversation ≡ conv
  pub rises : Ascending s (emitted conv t.out)
  pub reaches :
      last_of s (emitted conv t.out) ≤ℤ job_cursor t.chain.running (last_sequence conv t.engine)
  pub waits : AllDefault t.chain.waiting
  pub others : (c : Text) → c ≢ conv → last_sequence c t.engine ≡ last_sequence c e
  pub silent : (c : Text) → c ≢ conv → emitted c t.out ≡ []

last_sequence-track_ne :
    (conv c : Text) (s : ℤ) (e : SyncEngine)
    → c ≢ conv
    → last_sequence c (track conv s e) ≡ last_sequence c e
unfolding last_sequence
last_sequence-track_ne conv c s e h =
    ap (λ o. get_or o (pos 0)) ((track_frame conv c s e (λ p. h (sym p))).1)

pub finish-Forward :
    (r : Run) (ch : Chain) (e : SyncEngine)
    → AllDefault ch.waiting
    → Forward ch.conversation r.from e (finish r ch e)
unfolding finish
finish-Forward r ch e d = record {
  own = refl;
  rises = tt;
  reaches = (track_monotone ch.conversation ch.conversation r.from e).1;
  waits = d;
  others = λ c h. last_sequence-track_ne ch.conversation c r.from e h;
  silent = λ c h. refl;
}

pub finish-silent :
    (r : Run) (ch : Chain) (e : SyncEngine) (c : Text) → emitted c (finish r ch e).out ≡ []
unfolding finish
finish-silent r ch e c = refl

pub continue_fetch-silent :
    (r : Run) (ch : Chain) (e : SyncEngine) (c : Text) → emitted c (continue_fetch r ch e).out ≡ []
unfolding continue_fetch
continue_fetch-silent r ch e c = ground arith

pub continue_fetch-Forward :
    (r : Run) (ch : Chain) (e : SyncEngine)
    → AllDefault ch.waiting
    → Forward ch.conversation r.from e (continue_fetch r ch e)
unfolding continue_fetch
continue_fetch-Forward r ch e d = elim (Bool-cases (r.pages_left == 0)) [
  | inl p ↦ rw p (finish-Forward r ch e d)
  | inr p ↦ rw p (record {
    own = refl;
    rises = tt;
    reaches = omega arith;
    waits = d;
    others = λ c h. refl;
    silent = λ c h. refl;
  })
]

-- A step that emits nothing and leaves the engine as it is.
pub quiet-Forward :
    (conv : Text) (s : ℤ) (e : SyncEngine) (t : Effect)
    → t.chain.conversation ≡ conv
    → t.engine ≡ e
    → ((c : Text) → emitted c t.out ≡ [])
    → s ≤ℤ job_cursor t.chain.running (last_sequence conv e)
    → AllDefault t.chain.waiting
    → Forward conv s e t
quiet-Forward conv s e t own same silent reaches waits = record {
  own = own;
  rises = rw (silent conv) tt;
  reaches = rw (silent conv, same) reaches;
  waits = waits;
  others = λ c h. ap (last_sequence c) same;
  silent = λ c h. silent c;
}

-- A page that is emitted in front of the rest of a step.
pub prepend-Forward :
    (conv : Text) (s : ℤ) (e : SyncEngine) (page : List ChatMessage) (t : Effect)
    → Ascending s page
    → ((c : Text) → emitted c t.out ≡ [])
    → Forward conv (last_of s page) e t
    → Forward conv s e (prepend (emits conv page) t)
unfolding prepend emits
prepend-Forward conv s e [] t asc quiet f = f
prepend-Forward conv s e (m ∷ ms) t asc quiet f =
    let out : emitted conv (messages conv (m ∷ ms) ∷ t.out) ≡ m ∷ ms =
      rw (text_eq_refl conv, quiet conv, append-nil) in
    record {
      own = f.own;
      rises = rw out asc;
      reaches = rw out (rw (quiet conv) at f.reaches);
      waits = f.waits;
      others = f.others;
      silent = λ c h. ground (arith, text_eq_iff conv c, quiet c);
    }
