-- ===== src/Tests/Screens.antt =====
-- The demo client's screen at concrete inputs.
use airway_im_plugin.Base.{
  suc, ◌≡◌, ◌≢◌, refl, true, false, List, [], ◌∷◌, ◌++◌, arith, All, length, max,
}
use airway_im_plugin.Text.{Text, text, text_eq, text_eq_iff}
use airway_im_plugin.Dict
use airway_im_plugin.Client.Screen.{
  Prompt, handle_key, key, is_blank, is_space, drop_last, strip, strip_from, truncate, reset,
  color_at, color_for_name,
}
use airway_im_plugin.Client.Screen.Colors.{color_all}
use airway_im_plugin.Client.Screen.Render.{ChatUi, Fits, screen_lines, render, render-Fits}

abbrev names : List Text
names = text "ann" ∷ text "bob" ∷ text "ann" ∷ []

test_colors : color_all names [] ≡ (text "ann", 196) ∷ (text "bob", 208) ∷ []
unfolding color_all color_for_name color_at Dict.get Dict.put text_eq
test_colors = refl

different : text "ann" ≢ text "bob"
unfolding text_eq
different e = ground (arith, text_eq_iff (text "ann") (text "bob"), e)

abbrev empty_prompt : Prompt
empty_prompt = record { input = []; entered = []; left = false }

-- A letter too many is taken back, the line is handed on, blanks are not, and Ctrl-C ends.
test_keys :
    handle_key (104 ∷ 105 ∷ 106 ∷ 127 ∷ 13 ∷ 32 ∷ 13 ∷ 120 ∷ 3 ∷ 121 ∷ []) empty_prompt
    ≡ record { input = text "x"; entered = text "hi" ∷ []; left = true }
unfolding handle_key key is_blank is_space drop_last
test_keys = refl

abbrev gray_hello : Text
gray_hello = 27 ∷ 91 ∷ 57 ∷ 48 ∷ 109 ∷ (text "hello" ++ reset)

test_truncate :
    (truncate gray_hello 5 ≡ gray_hello) × (truncate gray_hello 3 ≡ text "he" ++ 0x2026 ∷ reset)
unfolding truncate strip strip_from
test_truncate = (refl, refl)

abbrev ui : ChatUi
ui = record {
  title = text "team";
  self_name = text "ann";
  lines = text "bob: hi" ∷ text "ann: hello" ∷ [];
  status = text "online";
  input = text "ok";
  name_colors = [];
}

render-Fits_example :
    All (Fits 12) (screen_lines 12 24 ui) × (length (render 12 24 ui) ≡ suc (max 24 6))
render-Fits_example = render-Fits 12 24 ui (omega arith)
