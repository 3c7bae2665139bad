-- ===== src/Client/Screen/Width.antt =====
-- A line that has been cut is no wider than the screen, its escape sequences not counted.
use airway_im_plugin.Base.{
  ℕ, zero, suc, ◌+◌, ◌≡◌, ◌≤◌, sym, ◌∙◌, ap, [], ◌∷◌, ◌++◌, ◌==◌, leb, arith, length, length-append,
  take, length-take-le, append_assoc, Bool-cases, inl, inr,
}
use airway_im_plugin.Text.{Text}
use airway_im_plugin.Client.Screen.{
  Matching, outside, escape, parameters, is_parameter, strip_from, strip, reset, truncate,
}

-- A character that is in no match stands where it stood, between what is left of both sides.
pub strip_from-append :
    (mode : Matching) (held s : Text) (c : ℕ) (t : Text)
    → 1000 ≤ c
    → strip_from mode held (s ++ c ∷ t) ≡ strip_from mode held s ++ c ∷ strip_from outside [] t
unfolding strip_from is_parameter
strip_from-append outside held [] c t h = ground (arith, h)
strip_from-append escape held [] c t h = ground (arith, h)
strip_from-append parameters held [] c t h = ground (arith, h)
strip_from-append outside held (b ∷ s) c t h = elim (Bool-cases (b == 27)) [
  | inl p ↦ rw p (strip_from-append escape (27 ∷ []) s c t h)
  | inr p ↦ rw p (ap (◌∷◌ b) (strip_from-append outside [] s c t h))
]
strip_from-append escape held (b ∷ s) c t h = elim (Bool-cases (b == 91)) [
  | inl p ↦ rw p (strip_from-append parameters (held ++ b ∷ []) s c t h)
  | inr p ↦ elim (Bool-cases (b == 27)) [
    | inl q ↦
        rw (p, q)
          (ap (◌++◌ held) (strip_from-append escape (27 ∷ []) s c t h)
            ∙ sym (append_assoc held _ _))
    | inr q ↦
        rw (p, q)
          (ap (λ x. held ++ b ∷ x) (strip_from-append outside [] s c t h)
            ∙ sym (append_assoc held _ _))
  ]
]
strip_from-append parameters held (b ∷ s) c t h = elim (Bool-cases (b == 109)) [
  | inl p ↦ rw p (strip_from-append outside [] s c t h)
  | inr p ↦ elim (Bool-cases (is_parameter b)) [
    | inl q ↦ rw (p, q) (strip_from-append parameters (held ++ b ∷ []) s c t h)
    | inr q ↦ elim (Bool-cases (b == 27)) [
      | inl u ↦
          rw (p, q, u)
            (ap (◌++◌ held) (strip_from-append escape (27 ∷ []) s c t h)
              ∙ sym (append_assoc held _ _))
      | inr u ↦
          rw (p, q, u)
            (ap (λ x. held ++ b ∷ x) (strip_from-append outside [] s c t h)
              ∙ sym (append_assoc held _ _))
    ]
  ]
]

length-strip_from :
    (mode : Matching) (held s : Text) → length (strip_from mode held s) ≤ length held + length s
unfolding strip_from
length-strip_from outside held [] = omega arith
length-strip_from escape held [] = omega arith
length-strip_from parameters held [] = omega arith
length-strip_from outside held (b ∷ s) =
    ground (arith, length-strip_from escape (27 ∷ []) s, length-strip_from outside [] s)
length-strip_from escape held (b ∷ s) = ground (
  arith,
  length-strip_from escape (27 ∷ []) s,
  length-strip_from outside [] s,
  length-strip_from parameters (held ++ b ∷ []) s,
  length-append held (b ∷ []),
  length-append held (b ∷ strip_from outside [] s),
  length-append held (strip_from escape (27 ∷ []) s),
)
length-strip_from parameters held (b ∷ s) = ground (
  arith,
  length-strip_from escape (27 ∷ []) s,
  length-strip_from outside [] s,
  length-strip_from parameters (held ++ b ∷ []) s,
  length-append held (b ∷ []),
  length-append held (b ∷ strip_from outside [] s),
  length-append held (strip_from escape (27 ∷ []) s),
)

pub length-strip : (s : Text) → length (strip s) ≤ length s
unfolding strip
length-strip s = omega (arith, length-strip_from outside [] s)

-- What stands before the ellipsis is all that counts, beside it.
cut_width : (p : Text) → length (strip (p ++ 0x2026 ∷ reset)) ≤ suc (length p)
unfolding strip strip_from
cut_width p =
    let e = strip_from-append outside [] p 0x2026 reset (omega arith) in
    omega (
      arith,
      ap length e,
      length-append (strip_from outside [] p) (0x2026 ∷ []),
      length-strip_from outside [] p,
    )

-- On a screen of at least one column, a line that `truncate` has cut has, without its escape sequences, at most
-- as many characters as there are columns.
pub truncate-Fits : (s : Text) (cols : ℕ) → 1 ≤ cols → length (strip (truncate s cols)) ≤ cols
unfolding truncate
truncate-Fits s zero h = absurd (omega arith)
truncate-Fits s (suc n) h = elim (Bool-cases (leb (length (strip s)) (suc n))) [
  | inl p ↦ rw p (ground (arith, p))
  | inr p ↦ rw p (omega (arith, cut_width (take n (strip s)), length-take-le n (strip s)))
]
