-- ===== src/Session/Steps/Registry.antt =====
-- The registry of conversation objects over a history of the session, and what the first listener of an
-- object starts.
use airway_im_plugin.Base.{
  ℕ, suc, ◌≡◌, refl, sym, ◌∙◌, ap, Bool, true, ◌&&◌, Option, none, some, List, [], arith, if_cases,
  Bool-cases, inl, inr,
}
use airway_im_plugin.Base.Int.{pos, ◌<ℤ◌}
use airway_im_plugin.Text.{Text, text_eq, text_eq_iff, text_eq_refl}
use airway_im_plugin.Json.{Json}
use airway_im_plugin.Dict
use airway_im_plugin.Dict.Laws.{get-put}
use airway_im_plugin.Gateway
use airway_im_plugin.Gateway.{GatewaySocket}
use airway_im_plugin.Sync
use airway_im_plugin.Sync.{GatewayEvent, SyncEngine, is_tracked, last_sequence}
use airway_im_plugin.Sync.Storage.{IsSynced, restart_resumes}
use airway_im_plugin.Sync.Events.Serial.{fresh}
use airway_im_plugin.Emitter.{Delivery, Listeners, listeners_of}
use airway_im_plugin.Emitter.Calm.{IsCalm}
use airway_im_plugin.Session.{
  AirwayIm, Conversation, Kind, Options, direct, new, storage_of, conversation_for,
  made_conversation, remember_kind, message_event,
}
use airway_im_plugin.Session.Steps.{
  Move, set_credential, rest_brought, rest_taken, gateway_brought, direct_arrived, conversation_on,
  ensure_tracked, set_listeners, is_empty, run,
}
use airway_im_plugin.Session.Steps.Credentials.{any_moves}
use airway_im_plugin.Session.Steps.Ends.Runs.{Lasts, after_socket, run-EndsIn}

some_same : (a b : Conversation) → some a ≡ some b → a ≡ b
some_same a b e = cc

there :
    (id : Text) (k : Kind) (t : Option Text) (s : AirwayIm) (c : Conversation)
    → Dict.get id s.conversations ≡ some c
    → conversation_for id k t s ≡ (c, s)
unfolding conversation_for
there id k t s c e = rw (e, conversation_for) refl

module _ (id : Text) (kind : Kind) (title : Option Text) where
  -- There is an object for the conversation, of this kind and with this title.
  abbrev pub IsOpen : AirwayIm → Type 0
  IsOpen s =
      (c : Conversation) × (Dict.get id s.conversations ≡ some c)
      × (c.kind ≡ kind)
      × (c.title ≡ title)

  opened-IsOpen :
      (id' : Text) (k : Kind) (t : Option Text) (s : AirwayIm)
      → Dict.get id' s.conversations ≡ none
      → IsOpen s
      → IsOpen
          (record s { conversations = Dict.put id' (made_conversation id' k t) s.conversations })
  opened-IsOpen id' k t s new_one (c, e, k_same, t_same) = (
    c,
    ground (arith, get-put id' id (made_conversation id' k t) s.conversations, text_eq_iff id' id),
    k_same,
    t_same,
  )

  heeded-IsOpen :
      (id' : Text) (c' : Conversation) (ls : Listeners) (s : AirwayIm)
      → Dict.get id' s.conversations ≡ some c'
      → IsOpen s
      → IsOpen
          (record s { conversations = Dict.put id' (record c' { listeners = ls }) s.conversations })
  heeded-IsOpen id' c' ls s here (c, e, k_same, t_same) = elim (Bool-cases (text_eq id' id)) [
    | inl p ↦
        let at : Dict.get id s.conversations ≡ some c' =
          ap (λ i. Dict.get i s.conversations) (sym ((text_eq_iff id' id).0 p)) ∙ here in
        (
          record c' { listeners = ls },
          get-put id' id _ s.conversations ∙ rw p refl,
          ap (λ (d : Conversation). d.kind) (some_same c' c (sym at ∙ e)) ∙ k_same,
          ap (λ (d : Conversation). d.title) (some_same c' c (sym at ∙ e)) ∙ t_same,
        )
    | inr p ↦ (c, get-put id' id _ s.conversations ∙ rw p e, k_same, t_same)
  ]

  socket-IsOpen :
      (o : Option GatewaySocket) (v : Gateway.Move) (s : AirwayIm)
      → IsOpen s
      → IsOpen (after_socket o v s)
  socket-IsOpen none v s h = h
  socket-IsOpen (some g) v s h = h

  IsOpen-Lasts : Lasts IsOpen (λ w. Unit) (λ c. Unit)
  unfolding set_credential rest_brought rest_taken gateway_brought
  IsOpen-Lasts = record {
    loose = record {
      free = record {
        log = λ s log h. h;
        status = λ s st h. h;
        sync = λ s m h. h;
        kinds = λ s d h. h;
      };
      opened = opened-IsOpen;
      heeded = heeded-IsOpen;
      listeners = λ s ls h. h;
      wanted = λ s b h. h;
    };
    calls = λ made. tt;
    leaves = tt;
    socket = λ o v s a e h. socket-IsOpen o v s h;
    replaced = λ c s a h. h;
    brought = λ c s a h. h;
    taken = λ c s a h. h;
    shared = λ c s a h. h;
  }

-- Where the "error" listeners do not throw and there is an object for a conversation: any history comes
-- to its end, and then there is one still, of the same kind and with the same title, and whatever opens
-- the conversation gets this object and leaves the session as it was.
pub run_keeps_object :
    (throws : List Delivery → Delivery → Bool) (fuel : ℕ) (cast : Json → GatewayEvent)
    (vs : List Move) (s : AirwayIm) (id : Text) (c : Conversation)
    → IsCalm throws
    → Dict.get id s.conversations ≡ some c
    → (s' : AirwayIm) × (c' : Conversation) × (run throws (suc (suc fuel)) cast vs s ≡ some s')
      × (c'.kind ≡ c.kind)
      × (c'.title ≡ c.title)
      × ((k : Kind) (t : Option Text) → conversation_for id k t s' ≡ (c', s'))
run_keeps_object throws fuel cast vs s id c calm here =
    let (s', e, (c', at, k_same, t_same)) =
      run-EndsIn throws fuel cast calm (IsOpen id c.kind c.title) (λ w. Unit) (λ c. Unit)
        (IsOpen-Lasts id c.kind c.title) vs s (any_moves vs) (c, here, refl, refl) in
    (s', c', e, k_same, t_same, λ k t. there id k t s' c' at)

tracked_of :
    (conv : Text) (e : SyncEngine) → pos 0 <ℤ last_sequence conv e → is_tracked conv e ≡ true
unfolding is_tracked last_sequence Dict.has
tracked_of conv e h = ground arith

-- A listener of an object starts nothing where the engine tracks the conversation already.
conversation_on-tracked :
    (id event : Text) (l : ℕ) (s : AirwayIm) (c : Conversation)
    → Dict.get id s.conversations ≡ some c
    → is_tracked c.id s.sync.engine ≡ true
    → (conversation_on id event l s).sync ≡ s.sync
unfolding conversation_on ensure_tracked set_listeners
conversation_on-tracked id event l s c e h =
    rw (e, conversation_on)
      (if_cases (λ (t : AirwayIm). t.sync ≡ s.sync)
        (is_empty (listeners_of event c.listeners) && text_eq event message_event) _ _
        (λ p. rw h refl) (λ p. refl))

arrived_there :
    (conv : Text) (o : Options)
    → Dict.get conv (direct_arrived conv (new o)).conversations
      ≡ some (made_conversation conv direct none)
unfolding direct_arrived conversation_for remember_kind new Dict.get
arrived_there conv o =
    get-put conv conv (made_conversation conv direct none) [] ∙ rw (text_eq_refl conv) refl

arrived_sync : (conv : Text) (o : Options) → (direct_arrived conv (new o)).sync ≡ (new o).sync
unfolding direct_arrived conversation_for remember_kind new Dict.get
arrived_sync conv o = refl

-- Where the storage holds a positive sequence of a conversation, as a session of before has left it, the
-- first "message" listener of the conversation's object in a new session starts no fetch: the engine
-- and its queues are those of the new session, in which nothing runs or waits.
pub restored_unfetched :
    (o : Options) (e : SyncEngine) (conv : Text) (l : ℕ)
    → IsSynced e
    → pos 0 <ℤ last_sequence conv e
    → o.storage ≡ e.storage
    → o.persist_sequences ≡ none
    → (conversation_on conv message_event l (direct_arrived conv (new o))).sync
      ≡ fresh (Sync.new e.storage)
unfolding new storage_of fresh made_conversation
restored_unfetched o e conv l synced above same kept =
    let engine : (new o).sync.engine ≡ Sync.new e.storage = rw (kept, same) refl in
    let above' : pos 0 <ℤ last_sequence conv (Sync.new e.storage) =
      rw (restart_resumes conv e synced) above in
    let tracked : is_tracked conv (direct_arrived conv (new o)).sync.engine ≡ true =
      rw (arrived_sync conv o) (rw engine (tracked_of conv (Sync.new e.storage) above')) in
    conversation_on-tracked conv message_event l (direct_arrived conv (new o))
      (made_conversation conv direct none) (arrived_there conv o) tracked
    ∙ arrived_sync conv o
    ∙ rw (kept, same) refl
