-- ===== src/Session/Steps/Order/Moves.antt =====
-- The methods of the session keep the order, and so does a history of them.
use airway_im_plugin.Base.{
  ℕ, ◌≡◌, refl, ◌∙◌, ◌&&◌, Option, none, some, List, [], ◌∷◌, Option-cases, inl, inr, if_cases,
}
use airway_im_plugin.Text.{Text, text_eq}
use airway_im_plugin.Dict
use airway_im_plugin.Dict.{Dict}
use airway_im_plugin.Sync.{is_tracked}
use airway_im_plugin.Sync.Fetch.{FetchOptions, no_options}
use airway_im_plugin.Sync.Events
use airway_im_plugin.Sync.Events.{fetch_from}
use airway_im_plugin.Emitter.{listeners_of, on}
use airway_im_plugin.Session.{AirwayIm, Kind, group, message_event, conversation_for, remember_kind}
use airway_im_plugin.Session.Steps.{
  ConversationInfo, set_listeners, history, ensure_tracked, is_empty, open_known, conversation_on,
  conversation_off, remember_groups, open_conversation,
}
use airway_im_plugin.Session.Steps.Order.{
  IsFit, Goes, Same, Same-IsFit, same-Goes, same-stays, engine-stays, keeps,
}

abbrev pub unchanged : (s : AirwayIm) → Same s s
unchanged s = record { log = refl; sync = refl; listeners = refl }

pub Same-trans : (a b c : AirwayIm) → Same a b → Same b c → Same a c
Same-trans a b c h k = record {
  log = k.log ∙ h.log;
  sync = k.sync ∙ h.sync;
  listeners = k.listeners ∙ h.listeners;
}

-- The methods that only touch credentials and the registry.
conversation_for-Same :
    (id : Text) (kind : Kind) (title : Option Text) (s : AirwayIm)
    → Same s (conversation_for id kind title s).1
unfolding conversation_for
conversation_for-Same id kind title s = elim (Option-cases (Dict.get id s.conversations)) [
  | inl e ↦ rw (e, conversation_for) (record { log = refl; sync = refl; listeners = refl })
  | inr (c, e) ↦ rw (e, conversation_for) (unchanged s)
]

pub arrived-Same :
    (key id : Text) (known kind : Kind) (title : Option Text) (s : AirwayIm)
    → Same s (conversation_for id kind title (remember_kind key known s)).1
unfolding remember_kind
arrived-Same key id known kind title s =
    Same-trans s (remember_kind key known s) _
      (record { log = refl; sync = refl; listeners = refl })
      (conversation_for-Same id kind title (remember_kind key known s))

pub remember_groups-Same :
    (cs : List ConversationInfo) (s : AirwayIm) → Same s (remember_groups cs s)
unfolding remember_groups remember_kind
remember_groups-Same [] s = unchanged s
remember_groups-Same (c ∷ cs) s =
    Same-trans s (remember_kind c.id group s) _
      (record { log = refl; sync = refl; listeners = refl })
      (remember_groups-Same cs (remember_kind c.id group s))

open_known-Same : (k : Option Kind) (id : Text) (s : AirwayIm) → Same s (open_known k id s)
unfolding open_known
open_known-Same none id s = unchanged s
open_known-Same (some kind) id s = conversation_for-Same id kind none s

pub open_conversation-Same : (id : Text) (s : AirwayIm) → Same s (open_conversation id s)
unfolding open_conversation
open_conversation-Same id s = elim (Option-cases (Dict.get id s.conversations)) [
  | inl e ↦ rw (e, open_conversation) (open_known-Same (Dict.get id s.conversation_kinds) id s)
  | inr (c, e) ↦ rw (e, open_conversation) (unchanged s)
]

pub conversation_off-Same :
    (id event : Text) (k : ℕ) (s : AirwayIm) → Same s (conversation_off id event k s)
unfolding conversation_off set_listeners
conversation_off-Same id event k s = elim (Option-cases (Dict.get id s.conversations)) [
  | inl e ↦ rw (e, conversation_off) (unchanged s)
  | inr (c, e) ↦ rw (e, conversation_off) (record { log = refl; sync = refl; listeners = refl })
]

module _ (conv : Text) (l : ℕ) where
  pub history-Goes :
      (id : Text) (o : FetchOptions) (s : AirwayIm)
      → o.from_sequence ≡ none
      → IsFit s
      → Goes conv l s (some (history id o s))
  unfolding history Events.step
  history-Goes id o s e fit =
      engine-stays conv l (Events.fetches id o) s (fetch_from id o s.sync) e refl fit

  ensure_tracked-Goes :
      (id : Text) (s : AirwayIm) → IsFit s → Goes conv l s (some (ensure_tracked id s))
  unfolding ensure_tracked
  ensure_tracked-Goes id s fit =
      if_cases (λ s'. Goes conv l s (some s')) (is_tracked id s.sync.engine) _ _
        (λ p. keeps conv l s fit) (λ p. history-Goes id no_options s refl fit)

  pub conversation_on-Goes :
      (id event : Text) (k : ℕ) (s : AirwayIm)
      → IsFit s
      → Goes conv l s (some (conversation_on id event k s))
  unfolding conversation_on
  conversation_on-Goes id event k s fit = elim (Option-cases (Dict.get id s.conversations)) [
    | inl e ↦ rw (e, conversation_on) (keeps conv l s fit)
    | inr (c, e) ↦
        let s' = set_listeners id (record c { listeners = on event k c.listeners }) s in
        let same : Same s s' =
          unfold set_listeners in record { log = refl; sync = refl; listeners = refl } in
        let fit' = Same-IsFit s s' same fit in
        rw (e, conversation_on)
          (if_cases (λ t. Goes conv l s (some t))
            (is_empty (listeners_of event c.listeners) && text_eq event message_event) _ _
            (λ p. same-Goes conv l s s' _ same (ensure_tracked-Goes c.id s' fit'))
            (λ p. same-stays conv l s s' same fit))
  ]
