-- ===== src/Sync/Events/Cursor/Queued.antt =====
-- A task that is put in the queue, and a number that is tracked, emit nothing and keep the cursors.
use airway_im_plugin.Base.{
  ℕ, ◌≡◌, refl, none, some, Option, List, [], ◌∷◌, ◌++◌, arith, ◌==◌, length, get_elem?, set,
  get_elem?-set, get_elem?-append_end, get_elem?-length, Bool-cases, Option-cases, inl, inr, sym,
  ◌∙◌,
}
use airway_im_plugin.Base.Int.{ℤ, ◌≤ℤ◌}
use airway_im_plugin.Text.{Text, text_eq_iff}
use airway_im_plugin.Dict
use airway_im_plugin.Dict.Laws.{get-put}
use airway_im_plugin.Sync.{track, last_sequence}
use airway_im_plugin.Sync.Tracking.{track_monotone}
use airway_im_plugin.Sync.Queue.{Machine, Chain, Task, tracks, enqueue}
use airway_im_plugin.Sync.Queue.Cursor.{IsDefault, AllDefault}
use airway_im_plugin.Sync.Events.Serial.{IsSerial}
use airway_im_plugin.Sync.Events.Cursor.{
  chain_at, cursor_of, cursor, quiet-Advances, some_injective, IsOrderly, Orderly,
}

cursor_of-mono : (o : Option Chain) (a b : ℤ) → a ≤ℤ b → cursor_of o a ≤ℤ cursor_of o b
cursor_of-mono o a b h = ground arith

pub tracks-Orderly :
    (conv : Text) (s : ℤ) (m : Machine) → IsOrderly m → Orderly m (tracks conv s m) []
unfolding tracks cursor
tracks-Orderly conv s m v = record {
  waits = v.waits;
  advances = λ c. quiet-Advances c m (tracks conv s m) [] refl (
      cursor_of-mono (chain_at (Dict.get c m.queues) m.chains) (last_sequence c m.engine)
        (last_sequence c (track conv s m.engine)) (track_monotone conv c s m.engine).0);
}

AllDefault-append :
    (ts : List Task) (t : Task) → AllDefault ts → IsDefault t → AllDefault (ts ++ t ∷ [])
AllDefault-append [] t h p = (p, tt)
AllDefault-append (u ∷ ts) t h p = (h.0, AllDefault-append ts t h.1 p)

-- A chain put at the end, for a conversation that had none.
module _ (m : Machine) (b : Chain) (v : IsSerial m) (idle : b.running ≡ none)
    (new : Dict.get b.conversation m.queues ≡ none) where
  abbrev appended : Machine
  appended = record m {
    queues = Dict.put b.conversation (length m.chains) m.queues;
    chains = m.chains ++ b ∷ [];
  }

  appended-cursor : (c : Text) → cursor c appended ≡ cursor c m
  unfolding cursor
  appended-cursor c = elim (Option-cases (Dict.get c m.queues)) [
    | inl p ↦ ground (
      arith,
      get-put b.conversation c (length m.chains) m.queues,
      get_elem?-append_end m.chains (length m.chains) b,
    )
    | inr (k, p) ↦
        let (d, here, own) = v.linked c k p in
        ground (
          arith,
          get-put b.conversation c (length m.chains) m.queues,
          text_eq_iff b.conversation c,
          get_elem?-append_end m.chains k b,
          get_elem?-length m.chains,
        )
  ]

  appended-Orderly :
      ((i : ℕ) (ch : Chain) → get_elem? m.chains i ≡ some ch → AllDefault ch.waiting)
      → AllDefault b.waiting
      → Orderly m appended []
  appended-Orderly w d = record {
    waits = λ j c h. elim (Bool-cases (length m.chains == j)) [
      | inl p ↦
          let e : b ≡ c = some_injective b c (sym (get_elem?-append_end m.chains j b ∙ rw p) ∙ h) in
          rw (← e) d
      | inr p ↦ w j c (sym (get_elem?-append_end m.chains j b ∙ rw p) ∙ h)
    ];
    advances = λ c. quiet-Advances c m appended [] refl (rw (appended-cursor c) (omega arith));
  }

-- A task put behind those of a chain that is there.
module _ (m : Machine) (i : ℕ) (ch : Chain) (t : Task) (at : get_elem? m.chains i ≡ some ch)
    (named : Dict.get ch.conversation m.queues ≡ some i) where
  abbrev longer : Machine
  longer = record m {
    queues = Dict.put ch.conversation i m.queues;
    chains = set m.chains i (record ch { waiting = ch.waiting ++ t ∷ [] });
  }

  longer-cursor : (c : Text) → cursor c longer ≡ cursor c m
  unfolding cursor
  longer-cursor c = elim (Option-cases (Dict.get c m.queues)) [
    | inl p ↦ ground (arith, get-put ch.conversation c i m.queues, text_eq_iff ch.conversation c)
    | inr (k, p) ↦ ground (
      arith,
      get-put ch.conversation c i m.queues,
      text_eq_iff ch.conversation c,
      get_elem?-set m.chains i k (record ch { waiting = ch.waiting ++ t ∷ [] }) at,
    )
  ]

  longer-Orderly :
      IsDefault t
      → ((j : ℕ) (c : Chain) → get_elem? m.chains j ≡ some c → AllDefault c.waiting)
      → Orderly m longer []
  longer-Orderly d w =
      let ch' : Chain = record ch { waiting = ch.waiting ++ t ∷ [] } in
      record {
        waits = λ j c h. elim (Bool-cases (i == j)) [
          | inl p ↦
              let e : ch' ≡ c =
                some_injective ch' c (sym (get_elem?-set m.chains i j ch' at ∙ rw p) ∙ h) in
              rw (← e) (AllDefault-append ch.waiting t (w i ch at) d)
          | inr p ↦ w j c (sym (get_elem?-set m.chains i j ch' at ∙ rw p) ∙ h)
        ];
        advances = λ c. quiet-Advances c m longer [] refl (rw (longer-cursor c) (omega arith));
      }

pub enqueue-Orderly :
    (conv : Text) (t : Task) (m : Machine)
    → IsDefault t
    → IsOrderly m
    → Orderly m (enqueue conv t m) []
unfolding enqueue
enqueue-Orderly conv t m d v = elim (Option-cases (Dict.get conv m.queues)) [
  | inl p ↦
      rw (p, enqueue)
        (appended-Orderly m (record { conversation = conv; running = none; waiting = t ∷ [] })
          v.serial refl p v.waits (d, tt))
  | inr (i, p) ↦
      let (ch, here, own) = v.serial.linked conv i p in
      rw (p, enqueue)
        (rw (here, ← own, enqueue) (longer-Orderly m i ch t here (rw own p) d v.waits))
]
