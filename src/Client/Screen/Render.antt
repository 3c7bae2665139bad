-- ===== src/Client/Screen/Render.antt =====
-- The whole screen (install/ignore/client/src/chat.ts: ChatUI.render): how many lines it has, and how wide.
use airway_im_plugin.Base.{
  ℕ, zero, suc, ◌+◌, ◌-◌, ◌≡◌, ◌≤◌, max, refl, ap, List, [], ◌∷◌, ◌++◌, map, arith, All, All-append,
  length, length-append, drop, if◌then◌else◌,
}
use airway_im_plugin.Text.{Text, text, text_eq}
use airway_im_plugin.Json.{decimal}
use airway_im_plugin.Dict.{Dict}
use airway_im_plugin.Client.Screen.{outside, strip_from, strip, reset, truncate, color_for_name}
use airway_im_plugin.Client.Screen.Buffer.{drop-length}
use airway_im_plugin.Client.Screen.Width.{truncate-Fits}

-- GRAY, and the other escape sequences
abbrev gray : Text
gray = 27 ∷ 91 ∷ 57 ∷ 48 ∷ 109 ∷ []

abbrev green : Text
green = 27 ∷ 91 ∷ 57 ∷ 50 ∷ 109 ∷ []

abbrev clear : Text
clear = 27 ∷ 91 ∷ 50 ∷ 74 ∷ 27 ∷ 91 ∷ 72 ∷ []

name_color : ℕ → Text
name_color c = 27 ∷ 91 ∷ (text "1;38;5;" ++ decimal c ++ text "m")

pub record ChatUi : Type 0 where
  pub title : Text
  pub self_name : Text
  pub lines : List Text
  pub status : Text
  pub input : Text
  pub name_colors : Dict ℕ

-- s.repeat(n), of one character
repeat : ℕ → ℕ → Text
repeat zero c = []
repeat (suc n) c = c ∷ repeat n c

separator : ℕ → Text
unfolding repeat
separator cols = gray ++ repeat cols 0x2500 ++ reset

-- The options have no selfId, which the line of the user shows as undefined.
headers : ℕ → ChatUi → List Text
unfolding separator name_color
headers cols ui =
    (gray ++ text " Airway IM · " ++ ui.title ++ reset)
    ∷ (gray
        ++ text " you: "
        ++ reset
        ++ name_color (color_for_name ui.self_name ui.name_colors).0
        ++ ui.self_name
        ++ reset
        ++ gray
        ++ text " (id undefined) · status: "
        ++ reset
        ++ (if text_eq ui.status (text "online") then green else gray)
        ++ ui.status
        ++ reset
        ++ gray
        ++ text " · /help for commands"
        ++ reset)
    ∷ separator cols
    ∷ []

body_rows : ℕ → ℕ
body_rows rows = max (rows - 5) 1

-- while (visible.length < bodyRows) visible.unshift("")
pad : ℕ → List Text → List Text
pad zero ls = ls
pad (suc n) ls = [] ∷ pad n ls

-- this.lines.slice(-bodyRows), each cut, and as many empty lines before them as there is room for.
visible : ℕ → ℕ → List Text → List Text
unfolding pad
visible n cols lines =
    let last = drop (length lines - n) lines in
    pad (n - length last) (map (λ l. truncate l cols) last)

-- What stands under CLEAR.
unfoldable pub screen_lines : ℕ → ℕ → ChatUi → List Text
unfolding headers body_rows visible separator
screen_lines cols rows ui =
    map (λ l. truncate l cols) (headers cols ui)
    ++ (visible (body_rows rows) cols ui.lines
        ++ (separator cols ∷ truncate (text "> " ++ ui.input) cols ∷ []))

-- What `render` joins by line ends and writes.
unfoldable pub render : ℕ → ℕ → ChatUi → List Text
render cols rows ui = clear ∷ screen_lines cols rows ui

-- No more than `cols` characters count.
abbrev pub Fits : ℕ → Text → Type 0
Fits cols l = length (strip l) ≤ cols

map-Fits : (cols : ℕ) (ls : List Text) → 1 ≤ cols → All (Fits cols) (map (λ l. truncate l cols) ls)
map-Fits cols [] h = tt
map-Fits cols (l ∷ ls) h = (truncate-Fits l cols h, map-Fits cols ls h)

pad-Fits : (n cols : ℕ) (ls : List Text) → All (Fits cols) ls → All (Fits cols) (pad n ls)
unfolding pad strip strip_from
pad-Fits zero cols ls h = h
pad-Fits (suc n) cols ls h = (omega arith, pad-Fits n cols ls h)

strip_dashes : (n : ℕ) → strip_from outside [] (repeat n 0x2500 ++ reset) ≡ repeat n 0x2500
unfolding repeat strip_from
strip_dashes zero = refl
strip_dashes (suc n) = ap (◌∷◌ 0x2500) (strip_dashes n)

length-repeat : (n c : ℕ) → length (repeat n c) ≡ n
unfolding repeat
length-repeat zero c = refl
length-repeat (suc n) c = ap suc (length-repeat n c)

separator-Fits : (cols : ℕ) → Fits cols (separator cols)
unfolding separator strip strip_from
separator-Fits cols = omega (arith, ap length (strip_dashes cols), length-repeat cols 0x2500)

length-pad : (n : ℕ) (ls : List Text) → length (pad n ls) ≡ n + length ls
unfolding pad
length-pad zero ls = omega arith
length-pad (suc n) ls = omega (arith, length-pad n ls)

length-map : (f : Text → Text) (ls : List Text) → length (map f ls) ≡ length ls
length-map f [] = refl
length-map f (l ∷ ls) = ap suc (length-map f ls)

length-visible : (n cols : ℕ) (lines : List Text) → length (visible n cols lines) ≡ n
unfolding visible
length-visible n cols lines =
    let last = drop (length lines - n) lines in
    omega (
      arith,
      length-pad (n - length last) (map (λ l. truncate l cols) last),
      length-map (λ l. truncate l cols) last,
      drop-length (length lines - n) lines,
    )

-- On a terminal of at least one column: every line under CLEAR has at most as many characters as there are
-- columns, its colors not counted, and `render` writes one line more than the terminal has rows, of which it
-- takes at least six, since the line of CLEAR has no other text.
pub render-Fits :
    (cols rows : ℕ) (ui : ChatUi)
    → 1 ≤ cols
    → All (Fits cols) (screen_lines cols rows ui)
      × (length (render cols rows ui) ≡ suc (max rows 6))
unfolding screen_lines render headers body_rows
render-Fits cols rows ui h =
    let n = body_rows rows in
    let last = drop (length ui.lines - n) ui.lines in
    (
      All-append (Fits cols) (map (λ l. truncate l cols) (headers cols ui)) _
          (map-Fits cols (headers cols ui) h)
          (All-append (Fits cols) (visible n cols ui.lines) _
            (unfold visible in
              pad-Fits (n - length last) cols (map (λ l. truncate l cols) last)
                (map-Fits cols last h))
            (separator-Fits cols, (truncate-Fits (text "> " ++ ui.input) cols h, tt))),
      omega (
        arith,
        length-append (visible n cols ui.lines)
            (separator cols ∷ truncate (text "> " ++ ui.input) cols ∷ []),
        length-visible n cols ui.lines,
      ),
    )
