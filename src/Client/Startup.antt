-- ===== src/Client/Startup.antt =====
-- How the demo client begins (install/ignore/client/src/main.ts: main up to the history of the conversation that
-- it joins, with createGroupOrExit, promptCreateGroup, mustSecret, listMyGroups and listAllGroups): the calls
-- that it makes, and how it goes on.
pub mod Joins
pub mod Creates
use airway_im_plugin.Base.{
  ℕ, Bool, true, false, not, ◌&&◌, Option, none, some, List, [], ◌∷◌, is_some, get_or,
  if◌then◌else◌,
}
use airway_im_plugin.Text.{Text, text, text_eq, is_truthy}
use airway_im_plugin.Client.Arguments.{Args, Environment, Parsed, parsed, refused, parse_args}
use airway_im_plugin.Client.Commands.{trim, parse_member_uuids}

-- A group conversation as the server gives it.
pub record Group : Type 0 where
  pub id : Text
  pub title : Option Text

-- A call of the server.
pub data Call : Type 0 where
  mints : Text → Text → Text → Option Text → Call
  asks_me : Call
  lists_groups : Call
  creates_group : Option Text → List Text → Call
  gets_conversation : Text → Call
  lists_messages : Text → Call
  logs_in_admin : Text → Text → Call
  lists_all_groups : Call

-- What the server answers, `none` and false where the call throws; and what the user types when asked for a
-- title and for members.
pub record Server : Type 0 where
  pub minted : Bool
  pub me : Bool
  pub groups : Option (List Group)
  pub created : Option Text → List Text → Option Group
  pub details : Text → Bool
  pub history : Text → Bool
  pub admin : Bool
  pub all_groups : Bool
  pub typed_title : Text
  pub typed_members : Text

-- How it goes on: process.exit with a code; the groups have been printed; or a conversation is shown under a
-- title, to which the names of its members are added.
pub data Ending : Type 0 where
  exits : ℕ → Ending
  lists_mine : Ending
  lists_all : Ending
  joins : Text → Text → Ending

abbrev pub Startup : Type 0
Startup = Ending × List Call

abbrev pub after : Call → Startup → Startup
after c x = (x.0, c ∷ x.1)

abbrev pub ends : Ending → Startup
ends e = (e, [])

-- main with a conversationId and a title: getConversation, and then the history.
unfoldable pub show_conversation : Server → Text → Text → Startup
show_conversation s id title = after (gets_conversation id) (
    if s.details id
    then after (lists_messages id) (if s.history id then ends (joins id title) else ends (exits 1))
    else ends (exits 1))

-- A group: its title, or else its id.
abbrev pub joined : Server → Group → Startup
joined s g = show_conversation s g.id (get_or g.title g.id)

-- A text that is there and not empty.
unfoldable pub given : Option Text → Option Text
given none = none
given (some t) = if is_truthy t then some t else none

-- createGroupOrExit(client, title, memberUuids)
unfoldable pub create_group_or_exit : Server → Option Text → List Text → Startup
create_group_or_exit s title [] = ends (exits 2)
create_group_or_exit s title (m ∷ ms) =
    after (creates_group title (m ∷ ms))
      (elim (s.created title (m ∷ ms)) [ none ↦ ends (exits 1) | some g ↦ joined s g ])

-- promptCreateGroup(client), and the exit where it gives null: the title is trimmed.
unfoldable pub prompt_for : Server → Text → List Text → Startup
prompt_for s [] members = ends (exits 2)
prompt_for s (c ∷ cs) [] = ends (exits 2)
prompt_for s (c ∷ cs) (m ∷ ms) =
    after (creates_group (some (c ∷ cs)) (m ∷ ms))
      (elim (s.created (some (c ∷ cs)) (m ∷ ms)) [ none ↦ ends (exits 2) | some g ↦ joined s g ])

unfoldable pub prompt_create_group : Server → Startup
unfolding prompt_for
prompt_create_group s = prompt_for s (trim s.typed_title) (parse_member_uuids s.typed_members)

-- g.title === args.join
unfoldable pub has_title : Text → Option Text → Bool
has_title t none = false
has_title t (some u) = text_eq u t

-- matches[0], and the exit where nothing matches
unfoldable pub join_first : Server → Text → List Group → Startup
unfolding has_title
join_first s t [] = ends (exits 2)
join_first s t (g ∷ gs) =
    let rest = join_first s t gs in if has_title t g.title then joined s g else rest

-- The last case: the group that was active last.
unfoldable pub join_recent : Server → List Group → Startup
unfolding prompt_create_group
join_recent s [] = prompt_create_group s
join_recent s (g ∷ gs) = joined s g

-- client.listGroups(), and what is done with the groups.
with_listed : Option (List Group) → (List Group → Startup) → Startup
with_listed none f = ends (exits 1)
with_listed (some gs) f = f gs

unfoldable pub with_groups : Server → (List Group → Startup) → Startup
unfolding with_listed
with_groups s f = after lists_groups (with_listed s.groups f)

-- Resolve the conversation to join.
unfoldable pub resolve : Args → Server → Startup
unfolding show_conversation create_group_or_exit given join_first join_recent with_groups
resolve a s = elim a.create_group [
  | some t ↦ create_group_or_exit s (given (some t)) (parse_member_uuids (get_or a.members []))
  | none ↦ elim (given a.conversation) [
    | some c ↦ show_conversation s c c
    | none ↦ elim a.join [
      | some t ↦ with_groups s (join_first s t)
      | none ↦ with_groups s (join_recent s)
    ]
  ]
]

-- The calls of getConversation, all made before an answer is awaited, and what comes after them.
unfoldable pub ask_each : List Group → Startup → Startup
ask_each [] x = x
ask_each (g ∷ gs) x = after (gets_conversation g.id) (ask_each gs x)

-- Every one of them is answered.
unfoldable pub all_answered : Server → List Group → Bool
all_answered s [] = true
all_answered s (g ∷ gs) = let rest = all_answered s gs in s.details g.id && rest

-- listMyGroups(client, me.uuid)
list_mine : Server → List Group → Startup
unfolding ask_each all_answered
list_mine s gs = ask_each gs (if all_answered s gs then ends lists_mine else ends (exits 1))

-- From client.me() on; the flag says that the command is `groups`.
unfoldable pub logged_in : Bool → Args → Server → Startup
unfolding resolve with_groups list_mine
logged_in groups a s =
    after asks_me (
      if s.me
      then (if groups then with_groups s (list_mine s) else resolve a s)
      else ends (exits 1))

-- IMClient.withCredential, or else mustSecret and IMClient.mint
unfoldable pub log_in : Bool → Text → Args → Server → Startup
unfolding logged_in given
log_in groups name a s = elim (given a.credential) [
  | some c ↦ logged_in groups a s
  | none ↦ elim (given a.internal_secret) [
    | none ↦ ends (exits 2)
    | some secret ↦
        after (mints secret (get_or a.uuid name) name a.nickname)
          (if s.minted then logged_in groups a s else ends (exits 1))
  ]
]

-- Whether the command is there and is no other than `groups`.
unfoldable pub unknown_command : Option Text → Bool
unknown_command none = false
unknown_command (some c) = not (text_eq c (text "groups"))

-- listAllGroups(args)
with_admin : Option Text → Option Text → Server → Startup
with_admin (some username) (some password) s = after (logs_in_admin username password) (
    if s.admin
    then after lists_all_groups (if s.all_groups then ends lists_all else ends (exits 1))
    else ends (exits 1))
with_admin _ _ s = ends (exits 2)

list_all_groups : Args → Server → Startup
unfolding given with_admin
list_all_groups a s = with_admin (given a.admin_username) (given a.admin_password) s

-- The tests of args.name; the flag says that the command is `groups`.
with_name : Option Text → Bool → Args → Server → Startup
unfolding log_in list_all_groups
with_name (some name) groups a s = log_in groups name a s
with_name none true a s = list_all_groups a s
with_name none false a s = ends (exits 2)

-- main, with the arguments.
unfoldable pub start_with : Args → Server → Startup
unfolding with_name given unknown_command
start_with a s =
    if unknown_command a.command
    then ends (exits 2)
    else with_name (given a.name) (is_some a.command) a s

-- What parseArgs throws ends in an exit with code 1.
start_parsed : Parsed → Server → Startup
unfolding start_with
start_parsed (refused e) s = ends (exits 1)
start_parsed (parsed a) s = start_with a s

-- main()
unfoldable pub main : Environment → List Text → Server → Startup
unfolding start_parsed
main env argv s = start_parsed (parse_args env argv) s
