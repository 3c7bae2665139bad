-- ===== src/Tests/Starts.antt =====
-- The demo client's beginning at concrete inputs.
use airway_im_plugin.Base.{◌≡◌, refl, none, some, List, [], ◌∷◌, true, false}
use airway_im_plugin.Text.{Text, text, text_eq}
use airway_im_plugin.Client.Screen.{is_space, is_blank}
use airway_im_plugin.Client.Arguments.{
  Environment, Flag, parse_args, parse_loop, defaults, is_flag, flag_of, set_flag,
}
use airway_im_plugin.Client.Arguments.Settings.{Settings, render}
use airway_im_plugin.Client.Commands.{
  split_commas, parse_member_uuids, trim_all, trim, trim_start, trim_end,
}
use airway_im_plugin.Client.Startup.{
  Group, mints, asks_me, lists_groups, creates_group, gets_conversation, lists_messages,
  show_conversation, Server, joins, given, create_group_or_exit, has_title, resolve, logged_in,
  log_in, unknown_command, start_with, main,
}
use airway_im_plugin.Client.Startup.Creates.{IsSparing, wants_group, main_creates_sparingly}
use airway_im_plugin.Client.Startup.Joins.{joins_first_titled}

abbrev env : Environment
env = record {
  backend_url = none;
  gateway_url = none;
  internal_url = none;
  internal_secret = some (text "s");
  admin_username = none;
  admin_password = none;
}

abbrev untitled : Group
untitled = record { id = text "g1"; title = none }

abbrev tea : Group
tea = record { id = text "g2"; title = some (text "tea") }

abbrev later_tea : Group
later_tea = record { id = text "g3"; title = some (text "tea") }

abbrev server : Server
server = record {
  minted = true;
  me = true;
  groups = some (untitled ∷ tea ∷ later_tea ∷ []);
  created = λ title members. some record { id = text "new"; title = title };
  details = λ id. true;
  history = λ id. true;
  admin = false;
  all_groups = false;
  typed_title = [];
  typed_members = [];
}

abbrev creating : List Text
creating =
    text "--name"
    ∷ text "ann"
    ∷ text "--create-group"
    ∷ []
    ∷ text "--members"
    ∷ text "bob,, eve"
    ∷ []

main_creates_sparingly_example :
    IsSparing server
      (wants_group (parse_args env creating))
      (main env creating server).0
      false
      (main env creating server).1
main_creates_sparingly_example = main_creates_sparingly env creating server

test_created : main env creating server ≡ (
  joins (text "new") (text "new"),
  mints (text "s") (text "ann") (text "ann") none
      ∷ asks_me
      ∷ creates_group none (text "bob" ∷ text "eve" ∷ [])
      ∷ gets_conversation (text "new")
      ∷ lists_messages (text "new")
      ∷ [],
)
unfolding main show_conversation start_with log_in logged_in resolve create_group_or_exit given
    unknown_command parse_args parse_loop defaults is_flag flag_of set_flag text_eq
    parse_member_uuids trim_all split_commas trim trim_start trim_end is_space is_blank
test_created = refl

abbrev joining : Settings
joining = (Flag.join, text "tea") ∷ (Flag.name, text "ann") ∷ (Flag.credential, text "c") ∷ []

joins_first_titled_example : main env (render joining []) server ≡ (
  joins (text "g2") (text "tea"),
  asks_me ∷ lists_groups ∷ gets_conversation (text "g2") ∷ lists_messages (text "g2") ∷ [],
)
unfolding text_eq has_title
joins_first_titled_example =
    joins_first_titled env joining server (text "ann") (text "c") (text "tea") (untitled ∷ [])
      (later_tea ∷ []) tea refl refl refl refl refl refl refl refl refl (refl, _) refl refl refl
