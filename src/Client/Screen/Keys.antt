-- ===== src/Client/Screen/Keys.antt =====
-- What typing does: a line that is typed is handed on, and an arrow key types two characters.
use airway_im_plugin.Base.{
  ℕ, ◌≡◌, ◌≢◌, ◌≤◌, sym, ◌∙◌, ap, false, [], ◌∷◌, ◌++◌, arith, All, append_assoc, append-nil,
  if◌then◌else◌,
}
use airway_im_plugin.Text.{Text}
use airway_im_plugin.Client.Screen.{Prompt, is_exit, is_blank, key, handle_key}

-- A character that is typed into the line: no control character, nor backspace.
abbrev pub IsPrintable : ℕ → Type 0
IsPrintable c = (32 ≤ c) × (c ≢ 127)

handle_key-printable :
    (c : ℕ) (cs : Text) (p : Prompt)
    → IsPrintable c
    → handle_key (c ∷ cs) p ≡ handle_key cs (record p { input = p.input ++ c ∷ [] })
unfolding handle_key key
handle_key-printable c cs p h =
    let stays : is_exit c ≡ false = ground (arith, h.0) in
    let types : key c p ≡ record p { input = p.input ++ c ∷ [] } = ground (arith, h.0, h.1) in
    rw (stays, handle_key) (ap (handle_key cs) types)

handle_key-text :
    (cs rest : Text) (p : Prompt)
    → All IsPrintable cs
    → handle_key (cs ++ rest) p ≡ handle_key rest (record p { input = p.input ++ cs })
handle_key-text [] rest p h =
    ap (λ (t : Text). handle_key rest (record p { input = t })) (sym (append-nil p.input))
handle_key-text (c ∷ cs) rest p h =
    handle_key-printable c (cs ++ rest) p h.0
    ∙ handle_key-text cs rest (record p { input = p.input ++ c ∷ [] }) h.1
    ∙ ap (λ (t : Text). handle_key rest (record p { input = t })) (append_assoc p.input (c ∷ []) cs)

-- Characters that are typed, and the return key after them, hand on the line that they make with the input
-- before, unless it is blank, and leave the input empty for what comes next.
typed_line :
    (cs rest : Text) (p : Prompt)
    → All IsPrintable cs
    → handle_key (cs ++ 13 ∷ rest) p
      ≡ handle_key rest (record p {
        input = [];
        entered = if is_blank (p.input ++ cs) then p.entered else p.entered ++ (p.input ++ cs) ∷ [];
      })
unfolding handle_key key
typed_line cs rest p h = handle_key-text cs (13 ∷ rest) p h

-- An arrow key, which the terminal sends as escape, bracket and a letter, types the bracket and the letter.
arrow_typed :
    (letter : ℕ) (rest : Text) (p : Prompt)
    → 65 ≤ letter
    → letter ≤ 68
    → handle_key (27 ∷ 91 ∷ letter ∷ rest) p
      ≡ handle_key rest (record p { input = p.input ++ 91 ∷ letter ∷ [] })
unfolding handle_key key
arrow_typed letter rest p lo hi =
    handle_key-text (91 ∷ letter ∷ []) rest p (omega arith, (omega arith, tt))
