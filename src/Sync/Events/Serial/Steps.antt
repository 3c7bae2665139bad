-- ===== src/Sync/Events/Serial/Steps.antt =====
-- The parts of the engine's steps keep the tasks of a conversation in one chain.
use airway_im_plugin.Base.{
  ℕ, ◌≡◌, refl, none, some, Option, List, [], ◌∷◌, ◌++◌, arith, ◌==◌, length, get_elem?, set,
  get_elem?-set, get_elem?-append_end, Option-cases, Bool-cases, get_elem?-length, inl, inr, sym,
  ◌∙◌,
}
use airway_im_plugin.Base.Int.{ℤ}
use airway_im_plugin.Text.{Text, text_eq, text_eq_iff}
use airway_im_plugin.Dict
use airway_im_plugin.Dict.{Dict}
use airway_im_plugin.Dict.Laws.{get-put}
use airway_im_plugin.Sync.{ChatMessage, SyncEngine}
use airway_im_plugin.Sync.Queue.{
  Machine, Chain, Task, chain_start, chain_reply, starts, replies, tracks, enqueue, on_chain_cases,
}
use airway_im_plugin.Sync.Events.{fetch_each}

-- Each chain is the one that its conversation's queue names.
pub record IsSerial (m : Machine) : Type 0 where
  pub named :
      (i : ℕ) (ch : Chain)
      → get_elem? m.chains i ≡ some ch
      → Dict.get ch.conversation m.queues ≡ some i
  pub linked :
      (conv : Text) (i : ℕ)
      → Dict.get conv m.queues ≡ some i
      → (ch : Chain) × (get_elem? m.chains i ≡ some ch) × (ch.conversation ≡ conv)

pub chain_start-conversation :
    (ch : Chain) (e : SyncEngine) → (chain_start ch e).chain.conversation ≡ ch.conversation
unfolding chain_start
chain_start-conversation ch e = ground arith

pub chain_reply-conversation :
    (reply : Option (List ChatMessage)) (ch : Chain) (e : SyncEngine)
    → (chain_reply reply ch e).chain.conversation ≡ ch.conversation
unfolding chain_reply
chain_reply-conversation reply ch e = ground arith

-- A chain replaced by one of the same conversation, and queues that read the same.
set-IsSerial :
    (m : Machine) (i : ℕ) (ch ch' : Chain) (e : SyncEngine) (q : Dict ℕ)
    → get_elem? m.chains i ≡ some ch
    → ch'.conversation ≡ ch.conversation
    → ((conv : Text) → Dict.get conv q ≡ Dict.get conv m.queues)
    → IsSerial m
    → IsSerial (record { engine = e; queues = q; chains = set m.chains i ch' })
set-IsSerial m i ch ch' e q at same reads v = record {
  named = λ j c h. ground (
    arith,
    get_elem?-set m.chains i j ch' at,
    v.named j c,
    v.named i ch at,
    reads c.conversation,
  );
  linked = λ conv j h.
      let (c, here, own) = v.linked conv j (sym (reads conv) ∙ h) in
      elim (Bool-cases (i == j)) [
        | inl p ↦ (ch', ground (arith, get_elem?-set m.chains i j ch' at), ground arith)
        | inr p ↦ (c, ground (arith, get_elem?-set m.chains i j ch' at), own)
      ];
}

pub starts-IsSerial : (i : ℕ) (m : Machine) → IsSerial m → IsSerial (starts i m).0
unfolding starts
starts-IsSerial i m v =
    on_chain_cases (λ r. IsSerial r.0) chain_start i m v
      λ ch p.
        set-IsSerial m i ch _ _ m.queues p (chain_start-conversation ch m.engine) (λ c. refl) v

pub replies-IsSerial :
    (i : ℕ) (reply : Option (List ChatMessage)) (m : Machine)
    → IsSerial m
    → IsSerial (replies i reply m).0
unfolding replies
replies-IsSerial i reply m v =
    on_chain_cases (λ r. IsSerial r.0) (chain_reply reply) i m v
      λ ch p.
        set-IsSerial m i ch _ _ m.queues p (chain_reply-conversation reply ch m.engine) (λ c. refl)
          v

append-IsSerial :
    (m : Machine) (ch : Chain)
    → Dict.get ch.conversation m.queues ≡ none
    → IsSerial m
    → IsSerial (record m {
      queues = Dict.put ch.conversation (length m.chains) m.queues;
      chains = m.chains ++ ch ∷ [];
    })
append-IsSerial m ch fresh v = record {
  named = λ j c h. ground (
    arith,
    get_elem?-append_end m.chains j ch,
    v.named j c,
    get-put ch.conversation c.conversation (length m.chains) m.queues,
    text_eq_iff ch.conversation c.conversation,
  );
  linked = λ conv j h. elim (Bool-cases (text_eq ch.conversation conv)) [
    | inl p ↦ (
      ch,
      ground (
        arith,
        get_elem?-append_end m.chains j ch,
        get-put ch.conversation conv (length m.chains) m.queues,
      ),
      (text_eq_iff _ _).0 p,
    )
    | inr p ↦
        let old : Dict.get conv m.queues ≡ some j =
          ground (arith, get-put ch.conversation conv (length m.chains) m.queues) in
        let (c, here, own) = v.linked conv j old in
        (
          c,
          ground (arith, get_elem?-append_end m.chains j ch, get_elem?-length m.chains, here),
          own,
        )
  ];
}

pub enqueue-IsSerial :
    (conv : Text) (t : Task) (m : Machine) → IsSerial m → IsSerial (enqueue conv t m)
unfolding enqueue
enqueue-IsSerial conv t m v = elim (Option-cases (Dict.get conv m.queues)) [
  | inl p ↦
      rw (p, enqueue)
        (append-IsSerial m (record { conversation = conv; running = none; waiting = t ∷ [] }) p v)
  | inr (i, p) ↦
      let (ch, here, own) = v.linked conv i p in
      rw (p, enqueue)
        (rw (here, enqueue)
          (set-IsSerial m i ch (record ch { waiting = ch.waiting ++ t ∷ [] }) m.engine
            (Dict.put conv i m.queues) here refl
            (λ c. ground (arith, get-put conv c i m.queues, text_eq_iff conv c)) v))
]

pub tracks-IsSerial : (conv : Text) (s : ℤ) (m : Machine) → IsSerial m → IsSerial (tracks conv s m)
unfolding tracks
tracks-IsSerial conv s m v = record { named = v.named; linked = v.linked }

pub fetch_each-IsSerial : (ids : List Text) (m : Machine) → IsSerial m → IsSerial (fetch_each ids m)
unfolding fetch_each
fetch_each-IsSerial [] m v = v
fetch_each-IsSerial (id ∷ ids) m v = fetch_each-IsSerial ids _ (enqueue-IsSerial id _ m v)
