-- ===== src/Client/Commands.antt =====
-- The demo client's slash commands (install/ignore/client/src/main.ts: parseMemberUuids, handleCommand, and
-- the test of ui.start's callback). The answers to their requests are lines of the screen, not kept here.
pub mod Members
use airway_im_plugin.Base.{Bool, true, false, ◌==◌, List, [], ◌∷◌, ◌++◌, if◌then◌else◌}
use airway_im_plugin.Text.{Text, text, text_eq}
use airway_im_plugin.Client.Screen.{is_space, is_blank}

-- s.trim()
unfoldable pub trim_start : Text → Text
unfolding is_space
trim_start [] = []
trim_start (c ∷ cs) = let rest = trim_start cs in if is_space c then rest else c ∷ cs

unfoldable pub trim_end : Text → Text
unfolding is_blank
trim_end [] = []
trim_end (c ∷ cs) = let rest = trim_end cs in if is_blank (c ∷ cs) then [] else c ∷ rest

unfoldable pub trim : Text → Text
trim s = trim_end (trim_start s)

-- raw.split(","), from a piece that has begun.
unfoldable pub split_commas : Text → Text → List Text
split_commas piece [] = piece ∷ []
split_commas piece (c ∷ cs) =
    let next = split_commas [] cs in
    let longer = split_commas (piece ++ c ∷ []) cs in if c == 44 then piece ∷ next else longer

-- .map((s) => s.trim()).filter((s) => s.length > 0)
unfoldable pub trim_all : List Text → List Text
trim_all [] = []
trim_all (s ∷ ss) = elim (trim s) [ [] ↦ trim_all ss | c ∷ cs ↦ (c ∷ cs) ∷ trim_all ss ]

-- parseMemberUuids(raw)
unfoldable pub parse_member_uuids : Text → List Text
parse_member_uuids raw = trim_all (split_commas [] raw)

-- line.split(/\s+/): the flag says that white space came before, after which a new piece has begun.
unfoldable pub split_spaces : Bool → Text → Text → List Text
unfolding is_space
split_spaces gap piece [] = piece ∷ []
split_spaces true piece (c ∷ cs) =
    let wider = split_spaces true piece cs in
    let begun = split_spaces false (piece ++ c ∷ []) cs in if is_space c then wider else begun
split_spaces false piece (c ∷ cs) =
    let next = split_spaces true [] cs in
    let longer = split_spaces false (piece ++ c ∷ []) cs in
    if is_space c then piece ∷ next else longer

-- rest.join(",")
unfoldable pub join_commas : List Text → Text
join_commas [] = []
join_commas (s ∷ []) = s
join_commas (s ∷ t ∷ ss) = s ++ 44 ∷ join_commas (t ∷ ss)

-- What a line that is entered leads to: a call of the client, the sync, the end, or a line on the screen.
pub data Action : Type 0 where
  sends_message : Text → Action
  shows_help : Action
  adds_members : List Text → Action
  add_usage : Action
  removes_member : Text → Action
  remove_usage : Action
  shows_members : Action
  resyncs : Action
  leaves : Action
  unknown_command : Text → Action

-- case "/add"
unfoldable pub add_action : List Text → Action
add_action [] = add_usage
add_action (id ∷ ids) = adds_members (id ∷ ids)

unfoldable pub remove_target : Text → Action
remove_target [] = remove_usage
remove_target (c ∷ cs) = removes_member (c ∷ cs)

-- case "/remove"
unfoldable pub remove_action : List Text → Action
unfolding remove_target
remove_action [] = remove_usage
remove_action (s ∷ ss) = remove_target (trim s)

-- The switch, on the words of the line.
unfoldable pub command_action : List Text → Action
unfolding add_action remove_action
command_action [] = unknown_command []
command_action (cmd ∷ rest) =
    if text_eq cmd (text "/help")
    then shows_help
    else if text_eq cmd (text "/add")
    then add_action (parse_member_uuids (join_commas rest))
    else if text_eq cmd (text "/remove")
    then remove_action rest
    else if text_eq cmd (text "/members")
    then shows_members
    else if text_eq cmd (text "/sync")
    then resyncs
    else if text_eq cmd (text "/exit")
    then leaves
    else unknown_command cmd

-- handleCommand(line, …)
unfoldable pub handle_command : Text → Action
unfolding command_action
handle_command line = command_action (split_spaces false [] line)

-- The callback of ui.start: `line.startsWith("/")`.
unfoldable pub handle_line : Text → Action
handle_line [] = sends_message []
handle_line (c ∷ cs) = if c == 47 then handle_command (c ∷ cs) else sends_message (c ∷ cs)
