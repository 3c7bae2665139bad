-- ===== src/Client/Screen.antt =====
-- The demo client's screen (install/ignore/client/src/chat.ts): the colors of names, the buffer of lines,
-- the input line and its keys, and the width of a line. Texts are lists of code points here, as the code
-- takes them apart by `for … of` and spreading.
pub mod Colors
pub mod Buffer
pub mod Keys
pub mod Width
pub mod Render
use airway_im_plugin.Base.{
  ℕ, zero, suc, ◌-◌, ◌%◌, Bool, true, false, ◌&&◌, ◌||◌, none, some, List, [], ◌∷◌, ◌++◌, ltb, leb,
  ◌==◌, if◌then◌else◌, get_or, get_elem?, length, take, drop,
}
use airway_im_plugin.Text.{Text}
use airway_im_plugin.Dict
use airway_im_plugin.Dict.{Dict}

-- NAME_COLORS
abbrev pub colors : List ℕ
colors = 196 ∷ 208 ∷ 214 ∷ 220 ∷ 154 ∷ 82 ∷ 201 ∷ 207 ∷ 218 ∷ 177 ∷ 189 ∷ 229 ∷ []

-- NAME_COLORS[n % NAME_COLORS.length]
unfoldable pub color_at : ℕ → ℕ
color_at n = get_or (get_elem? colors (n % 12)) 0

-- colorForName(name), but for the escape sequence around the color.
unfoldable pub color_for_name : Text → Dict ℕ → ℕ × Dict ℕ
unfolding color_at
color_for_name name d = elim (Dict.get name d) [
  | some c ↦ (c, d)
  | none ↦ (color_at (length d), Dict.put name (color_at (length d)) d)
]

-- pushLines(newLines), on the lines that are there.
unfoldable pub push_lines : List Text → List Text → List Text
push_lines new lines =
    let all = lines ++ new in if ltb 2000 (length all) then drop (length all - 2000) all else all

-- Whether a code point is white space to `trim`.
unfoldable pub is_space : ℕ → Bool
is_space c =
    leb 9 c && leb c 13
    || c == 32
    || c == 160
    || c == 0x1680
    || leb 0x2000 c && leb c 0x200a
    || c == 0x2028
    || c == 0x2029
    || c == 0x202f
    || c == 0x205f
    || c == 0x3000
    || c == 0xfeff

-- line.trim().length === 0
unfoldable pub is_blank : Text → Bool
unfolding is_space
is_blank [] = true
is_blank (c ∷ cs) = is_space c && is_blank cs

-- The input, the lines handed to onLine so far, and whether the program has left.
pub record Prompt : Type 0 where
  pub input : Text
  pub entered : List Text
  pub left : Bool

unfoldable pub drop_last : Text → Text
drop_last [] = []
drop_last (c ∷ []) = []
drop_last (c ∷ d ∷ cs) = c ∷ drop_last (d ∷ cs)

-- \x03 and \x04
abbrev pub is_exit : ℕ → Bool
is_exit c = c == 3 || c == 4

-- The branches of handleKey's loop for a character that does not leave the program.
unfoldable pub key : ℕ → Prompt → Prompt
unfolding is_blank drop_last
key c p =
    if c == 13 || c == 10
    then record p {
      input = [];
      entered = if is_blank p.input then p.entered else p.entered ++ p.input ∷ [];
    }
    else if c == 127
    then record p { input = drop_last p.input }
    else if leb 32 c || ltb 127 c
    then record p { input = p.input ++ c ∷ [] }
    else p

-- handleKey(data): nothing is read after the program has left.
unfoldable pub handle_key : Text → Prompt → Prompt
handle_key [] p = p
handle_key (c ∷ cs) p = elim (is_exit c) [
  | true ↦ record p { left = true }
  | false ↦ handle_key cs (key c p)
]

-- Where a match of /\x1b\[[0-9;]*m/ stands: outside one, after its \x1b, or in its parameters.
pub data Matching : Type 0 where
  outside escape parameters : Matching

is_parameter : ℕ → Bool
is_parameter c = leb 48 c && leb c 57 || c == 59

-- s.replace(/\x1b\[[0-9;]*m/g, ""): `held` is what may turn out to be a match.
unfoldable pub strip_from : Matching → Text → Text → Text
unfolding is_parameter
strip_from outside held [] = []
strip_from escape held [] = held
strip_from parameters held [] = held
strip_from outside held (c ∷ cs) =
    let begun = strip_from escape (27 ∷ []) cs in
    let plain = strip_from outside [] cs in if c == 27 then begun else c ∷ plain
strip_from escape held (c ∷ cs) =
    let begun = strip_from escape (27 ∷ []) cs in
    let plain = strip_from outside [] cs in
    let more = strip_from parameters (held ++ c ∷ []) cs in
    if c == 91 then more else if c == 27 then held ++ begun else held ++ c ∷ plain
strip_from parameters held (c ∷ cs) =
    let begun = strip_from escape (27 ∷ []) cs in
    let plain = strip_from outside [] cs in
    let more = strip_from parameters (held ++ c ∷ []) cs in
    if c == 109
    then plain
    else if is_parameter c
    then more
    else if c == 27
    then held ++ begun
    else held ++ c ∷ plain

unfoldable pub strip : Text → Text
strip s = strip_from outside [] s

-- RESET
abbrev pub reset : Text
reset = 27 ∷ 91 ∷ 48 ∷ 109 ∷ []

-- truncate(s, cols); a slice to -1 leaves the last one off.
unfoldable pub truncate : Text → ℕ → Text
truncate s zero = if leb (length (strip s)) 0 then s else drop_last (strip s) ++ 0x2026 ∷ reset
truncate s (suc n) =
    if leb (length (strip s)) (suc n) then s else take n (strip s) ++ 0x2026 ∷ reset
