-- ===== src/Tests/Lines.antt =====
-- The demo client's command line and its slash commands at concrete inputs.
use airway_im_plugin.Base.{◌≡◌, refl, none, some, [], ◌∷◌, ◌++◌}
use airway_im_plugin.Text.{text, text_eq}
use airway_im_plugin.Client.Screen.{is_space, is_blank}
use airway_im_plugin.Client.Arguments.{
  Args, Environment, Flag, parsed, refused, missing_value, unknown_flag, unexpected_argument,
  parse_args, parse_loop, defaults, is_flag, flag_of, set_flag,
}
use airway_im_plugin.Client.Arguments.Settings.{
  Settings, value_of, last_value, fallback, render, word, parse_args-takes,
}
use airway_im_plugin.Client.Commands.{
  adds_members, add_usage, removes_member, unknown_command, sends_message, handle_line,
  handle_command, command_action, add_action, remove_action, remove_target, split_spaces,
  split_commas, join_commas, parse_member_uuids, trim_all, trim, trim_start, trim_end,
}

abbrev env : Environment
env = record {
  backend_url = some (text "http://im");
  gateway_url = none;
  internal_url = none;
  internal_secret = some (text "s");
  admin_username = none;
  admin_password = none;
}

abbrev before : Settings
before = (Flag.name, text "ann") ∷ (Flag.join, text "--x") ∷ []

abbrev after : Settings
after = (Flag.name, text "eve") ∷ []

parse_args-takes_example :
    (a : Args) × (parse_args env (render before (word (some (text "groups")) (render after [])))
      ≡ parsed a)
    × (a.command ≡ some (text "groups"))
    × ((f : Flag) → value_of f a ≡ last_value (before ++ after) f (fallback env f))
parse_args-takes_example =
    parse_args-takes env before after (some (text "groups")) (unfold is_flag in refl)

test_refused :
    (parse_args env (text "--name" ∷ []) ≡ refused (missing_value Flag.name))
    × (parse_args env (text "--nam" ∷ text "ann" ∷ []) ≡ refused (unknown_flag (text "--nam")))
    × (parse_args env (text "a" ∷ text "b" ∷ []) ≡ refused (unexpected_argument (text "b")))
unfolding parse_args parse_loop defaults is_flag flag_of text_eq
test_refused = (refl, refl, refl)

abbrev expected : Args
expected = record {
  command = some (text "groups");
  name = some (text "ann");
  uuid = none;
  nickname = none;
  credential = none;
  internal_secret = some (text "s");
  admin_username = none;
  admin_password = none;
  backend = text "http://im";
  gateway = text "ws://127.0.0.1:1910/ws";
  internal_url = text "http://127.0.0.1:1906";
  conversation = none;
  join = none;
  create_group = none;
  members = none;
}

accepted : parse_args env (text "groups" ∷ text "--name" ∷ text "ann" ∷ []) ≡ parsed expected
unfolding parse_args parse_loop defaults is_flag flag_of set_flag text_eq
accepted = refl

test_lines :
    (handle_line (text "/add  u1, u2 u3") ≡ adds_members (text "u1" ∷ text "u2" ∷ text "u3" ∷ []))
    × (handle_line (text "/add ,") ≡ add_usage)
    × (handle_line (text "/remove u1 u2") ≡ removes_member (text "u1"))
    × (handle_line (text "/adds") ≡ unknown_command (text "/adds"))
    × (handle_line (text " /add u1") ≡ sends_message (text " /add u1"))
unfolding handle_line handle_command command_action add_action remove_action remove_target
    split_spaces split_commas join_commas parse_member_uuids trim_all trim trim_start trim_end
    is_space is_blank text_eq
test_lines = (refl, refl, refl, refl, refl)
