-- ===== src/Sync/Events/Cursor.antt =====
-- Exactly once, in order: what the engine emits of a conversation over a whole history.
pub mod Queued
pub mod Once
use airway_im_plugin.Base.{
  ℕ, ◌≡◌, ◌≢◌, refl, false, none, some, Option, List, [], arith, ◌==◌, get_elem?, set,
  get_elem?-set, Bool-cases, Option-cases, inl, inr, ap, sym, ◌∙◌,
}
use mathlib.Core.Path.{subst}
use airway_im_plugin.Base.Int.{ℤ, ◌≤ℤ◌}
use airway_im_plugin.Text.{Text, text_eq, text_eq_iff}
use airway_im_plugin.Dict
use airway_im_plugin.Sync.{ChatMessage, last_sequence}
use airway_im_plugin.Sync.Fetch.Order.{Ascending, last_of}
use airway_im_plugin.Sync.Queue.{
  Machine, Chain, Effect, Output, chain_start, chain_reply, starts, replies, on_chain_cases,
}
use airway_im_plugin.Sync.Queue.Cursor.{
  job_cursor, chain_cursor, emitted, AllDefault, Forward, IsGood, chain_start-Forward,
  chain_reply-Forward,
}
use airway_im_plugin.Sync.Events.Serial.{IsSerial}

abbrev chain_at : Option ℕ → List Chain → Option Chain
chain_at none chs = none
chain_at (some i) chs = get_elem? chs i

abbrev cursor_of : Option Chain → ℤ → ℤ
cursor_of none last = last
cursor_of (some ch) last = job_cursor ch.running last

-- Where the next message of a conversation must lie above: its running fetch's `from`, or else its
-- last-seen sequence.
unfoldable pub cursor : Text → Machine → ℤ
cursor conv m = cursor_of (chain_at (Dict.get conv m.queues) m.chains) (last_sequence conv m.engine)

-- From `m` to `m'` with the outputs `out`: what is emitted of the conversation rises from its
-- cursor, and the cursor then stands at least at the last of that.
pub record Advances (conv : Text) (m m' : Machine) (out : List Output) : Type 0 where
  pub rises : Ascending (cursor conv m) (emitted conv out)
  pub reaches : last_of (cursor conv m) (emitted conv out) ≤ℤ cursor conv m'

pub record IsOrderly (m : Machine) : Type 0 where
  pub serial : IsSerial m
  pub waits : (i : ℕ) (ch : Chain) → get_elem? m.chains i ≡ some ch → AllDefault ch.waiting

quiet-Advances :
    (conv : Text) (m m' : Machine) (out : List Output)
    → emitted conv out ≡ []
    → cursor conv m ≤ℤ cursor conv m'
    → Advances conv m m' out
quiet-Advances conv m m' out q h = record { rises = rw q tt; reaches = rw q h }

some_injective : (a b : Chain) → some a ≡ some b → a ≡ b
some_injective a b e = cc

apart_of : (a b : Text) → text_eq a b ≡ false → a ≢ b
apart_of a b h e = ground (arith, text_eq_iff a b)

abbrev moved : Machine → ℕ → Effect → Machine
moved m i t = record m { engine = t.engine; chains = set m.chains i t.chain }

module _ (m : Machine) (i : ℕ) (ch : Chain) (t : Effect) (v : IsSerial m)
    (at : get_elem? m.chains i ≡ some ch)
    (f : Forward ch.conversation (chain_cursor ch m.engine) m.engine t) where
  own-Advances : Advances ch.conversation m (moved m i t) t.out
  unfolding cursor
  own-Advances =
      let name = v.named i ch at in
      let after : get_elem? (set m.chains i t.chain) i ≡ some t.chain =
        get_elem?-set m.chains i i t.chain at ∙ ground arith in
      record { rises = rw (name, at) f.rises; reaches = rw (name, after) (rw at f.reaches) }

  other-cursor : (conv : Text) → conv ≢ ch.conversation → cursor conv (moved m i t) ≡ cursor conv m
  unfolding cursor
  other-cursor conv ne = elim (Option-cases (Dict.get conv m.queues)) [
    | inl p ↦ rw p (f.others conv ne)
    | inr (k, p) ↦
        let (c, here, own) = v.linked conv k p in
        let apart : i ≢ k = λ e. ne (
          sym own
          ∙ ap (λ x. x.conversation)
              (some_injective c ch (sym here ∙ ap (get_elem? m.chains) (sym e) ∙ at))) in
        let still : get_elem? (set m.chains i t.chain) k ≡ some c =
          get_elem?-set m.chains i k t.chain at ∙ ground arith in
        rw p (rw (still, here) (ap (job_cursor c.running) (f.others conv ne)))
  ]

  chain-Advances : (conv : Text) → Advances conv m (moved m i t) t.out
  chain-Advances conv = elim (Bool-cases (text_eq ch.conversation conv)) [
    | inl p ↦ subst (λ c. Advances c m (moved m i t) t.out) ((text_eq_iff _ _).0 p) own-Advances
    | inr p ↦
        let ne : conv ≢ ch.conversation = λ e. apart_of _ _ p (sym e) in
        quiet-Advances conv m (moved m i t) t.out (f.silent conv ne)
          (rw (other-cursor conv ne) (omega arith))
  ]

  chain-waits :
      ((j : ℕ) (c : Chain) → get_elem? m.chains j ≡ some c → AllDefault c.waiting)
      → (j : ℕ) (c : Chain) → get_elem? (moved m i t).chains j ≡ some c
      → AllDefault c.waiting
  chain-waits w j c h = elim (Bool-cases (i == j)) [
    | inl p ↦
        let e : t.chain ≡ c =
          some_injective t.chain c (sym (get_elem?-set m.chains i j t.chain at ∙ rw p) ∙ h) in
        rw (← e) f.waits
    | inr p ↦ w j c (sym (get_elem?-set m.chains i j t.chain at ∙ rw p) ∙ h)
  ]

-- What a step must give: a machine that is orderly again, further on for every conversation.
pub record Orderly (m m' : Machine) (out : List Output) : Type 0 where
  pub waits : (i : ℕ) (ch : Chain) → get_elem? m'.chains i ≡ some ch → AllDefault ch.waiting
  pub advances : (conv : Text) → Advances conv m m' out

stay-Orderly : (m : Machine) → IsOrderly m → Orderly m m []
stay-Orderly m v = record {
  waits = v.waits;
  advances = λ conv. quiet-Advances conv m m [] refl (omega arith);
}

starts-Orderly : (i : ℕ) (m : Machine) → IsOrderly m → Orderly m (starts i m).0 (starts i m).1
unfolding starts
starts-Orderly i m v =
    on_chain_cases (λ r. Orderly m r.0 r.1) chain_start i m (stay-Orderly m v)
      λ ch p.
        let f = chain_start-Forward ch m.engine (v.waits i ch p) in
        record {
          waits = chain-waits m i ch (chain_start ch m.engine) v.serial p f v.waits;
          advances = chain-Advances m i ch (chain_start ch m.engine) v.serial p f;
        }

-- The answer keeps the contract of the endpoint towards the task that waits for it.
abbrev pub IsGoodAt : Option Chain → Option (List ChatMessage) → Type 0
IsGoodAt none reply = Unit
IsGoodAt (some ch) reply = IsGood ch.running reply

replies-Orderly :
    (i : ℕ) (reply : Option (List ChatMessage)) (m : Machine)
    → IsGoodAt (get_elem? m.chains i) reply
    → IsOrderly m
    → Orderly m (replies i reply m).0 (replies i reply m).1
unfolding replies
replies-Orderly i reply m g v =
    on_chain_cases (λ r. Orderly m r.0 r.1) (chain_reply reply) i m (stay-Orderly m v)
      λ ch p.
        let f = chain_reply-Forward reply ch m.engine (rw p at g) (v.waits i ch p) in
        record {
          waits = chain-waits m i ch (chain_reply reply ch m.engine) v.serial p f v.waits;
          advances = chain-Advances m i ch (chain_reply reply ch m.engine) v.serial p f;
        }
