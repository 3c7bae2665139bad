-- ===== src/Client/Arguments.antt =====
-- The demo client's command line (install/ignore/client/src/main.ts: Args, parseArgs).
pub mod Settings
pub mod Accepted
use airway_im_plugin.Base.{
  Bool, true, false, ◌&&◌, ◌==◌, Option, none, some, List, [], ◌∷◌, if◌then◌else◌, get_or,
}
use airway_im_plugin.Text.{Text, text, text_eq}

pub record Args : Type 0 where
  pub command : Option Text
  pub name : Option Text
  pub uuid : Option Text
  pub nickname : Option Text
  pub credential : Option Text
  pub internal_secret : Option Text
  pub admin_username : Option Text
  pub admin_password : Option Text
  pub backend : Text
  pub gateway : Text
  pub internal_url : Text
  pub conversation : Option Text
  pub join : Option Text
  pub create_group : Option Text
  pub members : Option Text

-- The variables of process.env that are read.
pub record Environment : Type 0 where
  pub backend_url : Option Text
  pub gateway_url : Option Text
  pub internal_url : Option Text
  pub internal_secret : Option Text
  pub admin_username : Option Text
  pub admin_password : Option Text

-- The cases of the switch.
pub data Flag : Type 0 where
  name uuid nickname credential internal_secret admin_username admin_password : Flag
  backend gateway internal_url conversation join create_group members : Flag

-- The errors that are thrown.
pub data Refusal : Type 0 where
  unexpected_argument : Text → Refusal
  missing_value : Flag → Refusal
  unknown_flag : Text → Refusal

pub data Parsed : Type 0 where
  refused : Refusal → Parsed
  parsed : Args → Parsed

-- The object that parseArgs begins with.
unfoldable pub defaults : Environment → Args
defaults env = record {
  command = none;
  name = none;
  uuid = none;
  nickname = none;
  credential = none;
  internal_secret = env.internal_secret;
  admin_username = env.admin_username;
  admin_password = env.admin_password;
  backend = get_or env.backend_url (text "http://127.0.0.1:1905");
  gateway = get_or env.gateway_url (text "ws://127.0.0.1:1910/ws");
  internal_url = get_or env.internal_url (text "http://127.0.0.1:1906");
  conversation = none;
  join = none;
  create_group = none;
  members = none;
}

-- flag.startsWith("--")
unfoldable pub is_flag : Text → Bool
is_flag (c ∷ d ∷ cs) = c == 45 && d == 45
is_flag _ = false

-- The case that a flag belongs to, if any.
unfoldable pub flag_of : Text → Option Flag
flag_of f =
    if text_eq f (text "--name")
    then some name
    else if text_eq f (text "--uuid")
    then some uuid
    else if text_eq f (text "--nickname")
    then some nickname
    else if text_eq f (text "--credential")
    then some credential
    else if text_eq f (text "--internal-secret")
    then some internal_secret
    else if text_eq f (text "--admin-username")
    then some admin_username
    else if text_eq f (text "--admin-password")
    then some admin_password
    else if text_eq f (text "--backend")
    then some backend
    else if text_eq f (text "--gateway")
    then some gateway
    else if text_eq f (text "--internal-url")
    then some internal_url
    else if text_eq f (text "--conversation")
    then some conversation
    else if text_eq f (text "--join")
    then some join
    else if text_eq f (text "--create-group")
    then some create_group
    else if text_eq f (text "--members")
    then some members
    else none

-- The assignment of a case.
unfoldable pub set_flag : Flag → Text → Args → Args
set_flag name v a = record a { name = some v }
set_flag uuid v a = record a { uuid = some v }
set_flag nickname v a = record a { nickname = some v }
set_flag credential v a = record a { credential = some v }
set_flag internal_secret v a = record a { internal_secret = some v }
set_flag admin_username v a = record a { admin_username = some v }
set_flag admin_password v a = record a { admin_password = some v }
set_flag backend v a = record a { backend = v }
set_flag gateway v a = record a { gateway = v }
set_flag internal_url v a = record a { internal_url = v }
set_flag conversation v a = record a { conversation = some v }
set_flag join v a = record a { join = some v }
set_flag create_group v a = record a { create_group = some v }
set_flag members v a = record a { members = some v }

-- The loop over argv. The flag is the one that waits for its value.
unfoldable pub parse_loop : List Text → Option Flag → Args → Parsed
parse_loop [] none a = parsed a
parse_loop [] (some f) a = refused (missing_value f)
parse_loop (v ∷ rest) (some f) a = parse_loop rest none (set_flag f v a)
parse_loop (arg ∷ rest) none a = elim (is_flag arg) [
  | true ↦ elim (flag_of arg) [
    | none ↦ refused (unknown_flag arg)
    | some f ↦ parse_loop rest (some f) a
  ]
  | false ↦ elim a.command [
    | none ↦ parse_loop rest none (record a { command = some arg })
    | some c ↦ refused (unexpected_argument arg)
  ]
]

-- parseArgs(argv)
unfoldable pub parse_args : Environment → List Text → Parsed
parse_args env argv = parse_loop argv none (defaults env)
