-- ===== src/Client/Startup/Creates.antt =====
-- When the demo client creates a group as it begins.
use mathlib.Core.List.{cons≢nil}
use airway_im_plugin.Base.{
  ◌≡◌, ◌≢◌, refl, if◌then◌else◌, Bool-cases, Option, none, some, List, [], ◌∷◌, Bool, true, false,
  ◌&&◌, get_or, is_some, if_cases, Option-cases, inl, inr, ◌⊎◌,
}
use airway_im_plugin.Text.{Text}
use airway_im_plugin.Client.Arguments.{Args, Environment, Parsed, parsed, refused, parse_args}
use airway_im_plugin.Client.Commands.{trim, parse_member_uuids}
use airway_im_plugin.Client.Startup.{
  Group, Call, mints, asks_me, lists_groups, creates_group, Server, Ending, exits, joins, Startup,
  given, create_group_or_exit, prompt_for, prompt_create_group, has_title, join_first, join_recent,
  with_groups, resolve, logged_in, log_in, unknown_command, start_with, main, with_listed,
  with_name, list_all_groups, start_parsed, gets_conversation, lists_messages, logs_in_admin,
  lists_all_groups, show_conversation, joined, ask_each, all_answered, list_mine, with_admin,
}

-- The calls are about one conversation: they get it and list its messages.
abbrev pub AllAbout : Text → List Call → Type 0
AllAbout id [] = Unit
AllAbout id (gets_conversation i ∷ cs) = (i ≡ id) × AllAbout id cs
AllAbout id (lists_messages i ∷ cs) = (i ≡ id) × AllAbout id cs
AllAbout id (c ∷ cs) = ⊥

-- What comes of creating a group: where that fails the program exits and calls nothing more; else it calls the
-- server about the new group only, and shows it, or exits where one of these calls fails.
abbrev pub Follows : Server → Ending → List Call → Option Group → Type 0
Follows s e cs none = (cs ≡ []) × ((e ≡ exits 1) ⊎ (e ≡ exits 2))
Follows s e cs (some g) =
    AllAbout g.id cs
    × (e ≡ (if s.details g.id && s.history g.id then joins g.id (get_or g.title g.id) else exits 1))

-- Whether a parsed command line has --create-group.
abbrev pub wants_group : Parsed → Bool
wants_group (refused e) = false
wants_group (parsed a) = is_some a.create_group

-- What the calls may be: `wanted` says whether --create-group is there, `e` is the end, and `listed` says whether
-- the user's groups have been listed. They are listed at most once. A group is created at most once and with
-- members: for --create-group with nothing listed before, or after the server has listed no group.
abbrev pub IsSparing : Server → Bool → Ending → Bool → List Call → Type 0
IsSparing s wanted e listed [] = Unit
IsSparing s wanted e listed (mints secret uuid name nickname ∷ cs) = IsSparing s wanted e listed cs
IsSparing s wanted e listed (asks_me ∷ cs) = IsSparing s wanted e listed cs
IsSparing s wanted e listed (lists_groups ∷ cs) = (listed ≡ false) × IsSparing s wanted e true cs
IsSparing s wanted e listed (gets_conversation id ∷ cs) = IsSparing s wanted e listed cs
IsSparing s wanted e listed (lists_messages id ∷ cs) = IsSparing s wanted e listed cs
IsSparing s wanted e listed (logs_in_admin username password ∷ cs) = IsSparing s wanted e listed cs
IsSparing s wanted e listed (lists_all_groups ∷ cs) = IsSparing s wanted e listed cs
IsSparing s wanted e listed (creates_group title members ∷ cs) =
    (members ≢ [])
    × (((listed ≡ false) × (wanted ≡ true)) ⊎ ((listed ≡ true) × (s.groups ≡ some [])))
    × Follows s e cs (s.created title members)

abbrev Spares : Server → Bool → Bool → Startup → Type 0
Spares s wanted listed x = IsSparing s wanted x.0 listed x.1

show_conversation-Follows :
    (s : Server) (g : Group) → Follows s (joined s g).0 (joined s g).1 (some g)
unfolding show_conversation
show_conversation-Follows s g = elim (Bool-cases (s.details g.id)) [
  | inl d ↦ elim (Bool-cases (s.history g.id)) [
    | inl h ↦ rw (d, h) ((refl, (refl, _)), refl)
    | inr h ↦ rw (d, h) ((refl, (refl, _)), refl)
  ]
  | inr d ↦ rw d ((refl, _), refl)
]

show_conversation-Spares :
    (s : Server) (w listed : Bool) (id title : Text)
    → Spares s w listed (show_conversation s id title)
unfolding show_conversation
show_conversation-Spares s w listed id title =
    if_cases (Spares s w listed) (s.details id) _ _
      (λ d. if_cases (Spares s w listed) (s.history id) _ _ (λ h. _) (λ h. _)) (λ d. _)

create_group_or_exit-Spares :
    (s : Server) (title : Option Text) (members : List Text)
    → Spares s true false (create_group_or_exit s title members)
unfolding create_group_or_exit
create_group_or_exit-Spares s title [] = _
create_group_or_exit-Spares s title (m ∷ ms) = elim (Option-cases (s.created title (m ∷ ms))) [
  | inl e ↦ rw (e, create_group_or_exit) (cons≢nil, inl (refl, refl), (refl, inl refl))
  | inr (g, e) ↦
      rw (e, create_group_or_exit) (cons≢nil, inl (refl, refl), show_conversation-Follows s g)
]

prompt_for-Spares :
    (s : Server) (w : Bool) (title : Text) (members : List Text)
    → s.groups ≡ some []
    → Spares s w true (prompt_for s title members)
unfolding prompt_for
prompt_for-Spares s w [] members h = _
prompt_for-Spares s w (c ∷ cs) [] h = _
prompt_for-Spares s w (c ∷ cs) (m ∷ ms) h =
    elim (Option-cases (s.created (some (c ∷ cs)) (m ∷ ms))) [
      | inl e ↦ rw (e, prompt_for) (cons≢nil, inr (refl, h), (refl, inr refl))
      | inr (g, e) ↦ rw (e, prompt_for) (cons≢nil, inr (refl, h), show_conversation-Follows s g)
    ]

join_first-Spares :
    (s : Server) (w : Bool) (t : Text) (gs : List Group) → Spares s w true (join_first s t gs)
unfolding join_first
join_first-Spares s w t [] = _
join_first-Spares s w t (g ∷ gs) =
    if_cases (Spares s w true) (has_title t g.title) _ _
      (λ h. show_conversation-Spares s w true g.id (get_or g.title g.id))
      (λ h. join_first-Spares s w t gs)

join_recent-Spares :
    (s : Server) (w : Bool) (gs : List Group)
    → s.groups ≡ some gs
    → Spares s w true (join_recent s gs)
unfolding join_recent prompt_create_group
join_recent-Spares s w [] h =
    prompt_for-Spares s w (trim s.typed_title) (parse_member_uuids s.typed_members) h
join_recent-Spares s w (g ∷ gs) h = show_conversation-Spares s w true g.id (get_or g.title g.id)

with_groups-Spares :
    (s : Server) (w : Bool) (f : List Group → Startup)
    → ((gs : List Group) → s.groups ≡ some gs → Spares s w true (f gs))
    → Spares s w false (with_groups s f)
unfolding with_groups with_listed
with_groups-Spares s w f h = (refl, listed s.groups refl)
  where
    listed : (o : Option (List Group)) → s.groups ≡ o → Spares s w true (with_listed o f)
    listed none e = _
    listed (some gs) e = h gs e

resolve-Spares : (a : Args) (s : Server) → Spares s (is_some a.create_group) false (resolve a s)
unfolding resolve
resolve-Spares a s = elim (Option-cases a.create_group) [
  | inr (t, e) ↦
      rw (e, resolve)
        (create_group_or_exit-Spares s (given (some t)) (parse_member_uuids (get_or a.members [])))
  | inl e ↦ elim (Option-cases (given a.conversation)) [
    | inr (c, f) ↦ rw (e, f, resolve) (show_conversation-Spares s false false c c)
    | inl f ↦ elim (Option-cases a.join) [
      | inr (t, g) ↦
          rw (e, f, g, resolve)
            (with_groups-Spares s false (join_first s t) (λ gs h. join_first-Spares s false t gs))
      | inl g ↦
          rw (e, f, g, resolve)
            (with_groups-Spares s false (join_recent s) (join_recent-Spares s false))
    ]
  ]
]

ask_each-Spares :
    (s : Server) (w listed : Bool) (gs : List Group) (x : Startup)
    → Spares s w listed x
    → Spares s w listed (ask_each gs x)
unfolding ask_each
ask_each-Spares s w listed [] x h = h
ask_each-Spares s w listed (g ∷ gs) x h = ask_each-Spares s w listed gs x h

list_mine-Spares : (s : Server) (w : Bool) (gs : List Group) → Spares s w true (list_mine s gs)
unfolding list_mine
list_mine-Spares s w gs =
    ask_each-Spares s w true gs _
      (if_cases (Spares s w true) (all_answered s gs) _ _ (λ a. _) (λ a. _))

logged_in-Spares :
    (groups : Bool) (a : Args) (s : Server)
    → Spares s (is_some a.create_group) false (logged_in groups a s)
unfolding logged_in
logged_in-Spares groups a s =
    if_cases (Spares s (is_some a.create_group) false) s.me _ _
      (λ m.
        if_cases (Spares s (is_some a.create_group) false) groups _ _
          (λ g.
            with_groups-Spares s (is_some a.create_group) (list_mine s)
              (λ gs h. list_mine-Spares s (is_some a.create_group) gs))
          (λ g. resolve-Spares a s))
      (λ m. _)

log_in-Spares :
    (groups : Bool) (name : Text) (a : Args) (s : Server)
    → Spares s (is_some a.create_group) false (log_in groups name a s)
unfolding log_in
log_in-Spares groups name a s = elim (Option-cases (given a.credential)) [
  | inr (c, e) ↦ rw (e, log_in) (logged_in-Spares groups a s)
  | inl e ↦ elim (Option-cases (given a.internal_secret)) [
    | inl f ↦ rw (e, f, log_in) _
    | inr (secret, f) ↦
        rw (e, f, log_in)
          (if_cases (Spares s (is_some a.create_group) false) s.minted _ _
            (λ m. logged_in-Spares groups a s) (λ m. _))
  ]
]

with_admin-Spares :
    (username password : Option Text) (s : Server) (w : Bool)
    → Spares s w false (with_admin username password s)
unfolding with_admin
with_admin-Spares (some username) (some password) s w =
    if_cases (Spares s w false) s.admin _ _
      (λ a. if_cases (Spares s w false) s.all_groups _ _ (λ l. _) (λ l. _)) (λ a. _)
with_admin-Spares (some username) none s w = _
with_admin-Spares none _ s w = _

with_name-Spares :
    (name : Option Text) (groups : Bool) (a : Args) (s : Server)
    → Spares s (is_some a.create_group) false (with_name name groups a s)
unfolding with_name list_all_groups
with_name-Spares (some name) groups a s = log_in-Spares groups name a s
with_name-Spares none true a s =
    with_admin-Spares (given a.admin_username) (given a.admin_password) s (is_some a.create_group)
with_name-Spares none false a s = _

start_parsed-Spares : (x : Parsed) (s : Server) → Spares s (wants_group x) false (start_parsed x s)
unfolding start_parsed start_with
start_parsed-Spares (refused e) s = _
start_parsed-Spares (parsed a) s =
    if_cases (Spares s (is_some a.create_group) false) (unknown_command a.command) _ _ (λ u. _)
      (λ u. with_name-Spares (given a.name) (is_some a.command) a s)

-- However the demo client is started, and whatever the server answers and the user types, up to the history
-- of the conversation: it lists the user's groups at most once, and creates a group at most once and with
-- members, and only where the command line has --create-group and nothing has been listed, or where the server
-- has listed no group. Where creating it fails the program exits and calls nothing more; else it calls the server
-- only to get the new group and its messages, and shows it if both are answered, and exits if not.
pub main_creates_sparingly :
    (env : Environment) (argv : List Text) (s : Server)
    → IsSparing s (wants_group (parse_args env argv)) (main env argv s).0 false (main env argv s).1
unfolding main
main_creates_sparingly env argv s = start_parsed-Spares (parse_args env argv) s
