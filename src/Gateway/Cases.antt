-- ===== src/Gateway/Cases.antt =====
-- The callback on a frame, by what the frame is taken for.
use airway_im_plugin.Base.{
  ℕ, ◌≡◌, Bool, true, false, some, List, [], ◌∷◌, if_cases, Option-cases, inl, inr,
}
use airway_im_plugin.Text.{text}
use airway_im_plugin.Json.{Json, read, truthy, is_zero}
use airway_im_plugin.Gateway.{
  GatewaySocket, Effect, event, throws, property, is_reply, has_seen, remember, active_frame,
  dispatch_event, on_frame, on_message, auth_reply,
}

active_frame_cases :
    (P : GatewaySocket × List Effect → Type 0) (frame : Json) (s : GatewaySocket)
    → P (s, [])
    → ((id : Json)
        → property (text "event_id") frame ≡ some id
        → truthy (some id) ≡ true
        → has_seen id s.seen ≡ false
        → P (record s { seen = remember id s.seen }, event frame ∷ []))
    → P (active_frame frame s)
unfolding active_frame
active_frame_cases P frame s kept delivered =
    if_cases P (is_reply (property (text "cmd") frame) (property (text "event") frame)) _ _
      (λ p. kept)
      (λ p. elim (Option-cases (property (text "event_id") frame)) [
        | inl e ↦ rw (e, dispatch_event) kept
        | inr (id, e) ↦
            rw (e, dispatch_event)
              (if_cases P (truthy (some id)) _ _
                (λ t. if_cases P (has_seen id s.seen) _ _ (λ n. kept) (λ n. delivered id e t n))
                (λ t. kept))
      ])

-- A statement about the callback on a parsed frame, by what the frame is taken for.
pub on_message_cases :
    (P : GatewaySocket × List Effect → Type 0) (frame : Json) (timer : ℕ) (s : GatewaySocket)
    → P (s, [])
    → P (s, throws ∷ [])
    → ((accepted : Bool) → s.authenticated ≡ false → P (auth_reply accepted timer s))
    → ((id : Json)
        → s.authenticated ≡ true
        → property (text "event_id") frame ≡ some id
        → truthy (some id) ≡ true
        → has_seen id s.seen ≡ false
        → P (record s { seen = remember id s.seen }, event frame ∷ []))
    → P (on_message (some frame) timer s)
unfolding on_message
on_message_cases P frame timer s kept thrown replied delivered =
    elim (Option-cases (read (text "code") frame)) [
      | inl p ↦ rw (p, on_frame) thrown
      | inr (code, p) ↦
          rw (p, on_frame)
            (if_cases P s.authenticated _ _
              (λ q. active_frame_cases P frame s kept (λ id e t n. delivered id q e t n))
              (λ q. replied (is_zero code) q))
    ]
