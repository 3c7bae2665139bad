-- ===== src/Client/Arguments/Settings.antt =====
-- What a command line sets: the last value given for a flag, else what the environment has, else the
-- default; and which command lines are refused.
use airway_im_plugin.Base.{
  ◌≡◌, refl, sym, ◌∙◌, ap, true, false, Option, none, some, List, [], ◌∷◌, arith, All, ◌++◌,
  if◌then◌else◌, get_or,
}
use airway_im_plugin.Text.{Text, text, text_eq}
use airway_im_plugin.Client.Arguments.{
  Args, Environment, Flag, parsed, defaults, is_flag, flag_of, set_flag, parse_loop, parse_args,
}

abbrev pub flag_name : Flag → Text
flag_name Flag.name = text "--name"
flag_name Flag.uuid = text "--uuid"
flag_name Flag.nickname = text "--nickname"
flag_name Flag.credential = text "--credential"
flag_name Flag.internal_secret = text "--internal-secret"
flag_name Flag.admin_username = text "--admin-username"
flag_name Flag.admin_password = text "--admin-password"
flag_name Flag.backend = text "--backend"
flag_name Flag.gateway = text "--gateway"
flag_name Flag.internal_url = text "--internal-url"
flag_name Flag.conversation = text "--conversation"
flag_name Flag.join = text "--join"
flag_name Flag.create_group = text "--create-group"
flag_name Flag.members = text "--members"

-- What a flag's field holds.
abbrev pub value_of : Flag → Args → Option Text
value_of Flag.name a = a.name
value_of Flag.uuid a = a.uuid
value_of Flag.nickname a = a.nickname
value_of Flag.credential a = a.credential
value_of Flag.internal_secret a = a.internal_secret
value_of Flag.admin_username a = a.admin_username
value_of Flag.admin_password a = a.admin_password
value_of Flag.backend a = some a.backend
value_of Flag.gateway a = some a.gateway
value_of Flag.internal_url a = some a.internal_url
value_of Flag.conversation a = a.conversation
value_of Flag.join a = a.join
value_of Flag.create_group a = a.create_group
value_of Flag.members a = a.members

-- The settings of a command line, in their order.
abbrev pub Settings : Type 0
Settings = List (Flag × Text)

abbrev pub render : Settings → List Text → List Text
render [] rest = rest
render ((f, v) ∷ ss) rest = flag_name f ∷ v ∷ render ss rest

abbrev apply : Settings → Args → Args
apply [] a = a
apply ((f, v) ∷ ss) a = apply ss (set_flag f v a)

-- The value that a flag has after settings, from the one before.
abbrev pub last_value : Settings → Flag → Option Text → Option Text
last_value [] f o = o
last_value ((g, v) ∷ ss) f o =
    last_value ss f (if text_eq (flag_name g) (flag_name f) then some v else o)

flag_name_lem : (f : Flag) → (is_flag (flag_name f) ≡ true) × (flag_of (flag_name f) ≡ some f)
unfolding is_flag flag_of text_eq
flag_name_lem Flag.name = (refl, refl)
flag_name_lem Flag.uuid = (refl, refl)
flag_name_lem Flag.nickname = (refl, refl)
flag_name_lem Flag.credential = (refl, refl)
flag_name_lem Flag.internal_secret = (refl, refl)
flag_name_lem Flag.admin_username = (refl, refl)
flag_name_lem Flag.admin_password = (refl, refl)
flag_name_lem Flag.backend = (refl, refl)
flag_name_lem Flag.gateway = (refl, refl)
flag_name_lem Flag.internal_url = (refl, refl)
flag_name_lem Flag.conversation = (refl, refl)
flag_name_lem Flag.join = (refl, refl)
flag_name_lem Flag.create_group = (refl, refl)
flag_name_lem Flag.members = (refl, refl)

parse_loop-flag :
    (arg v : Text) (f : Flag) (rest : List Text) (a : Args)
    → is_flag arg ≡ true
    → flag_of arg ≡ some f
    → parse_loop (arg ∷ v ∷ rest) none a ≡ parse_loop rest none (set_flag f v a)
unfolding parse_loop
parse_loop-flag arg v f rest a p q = rw (p, q, parse_loop) refl

parse_loop-render :
    (ss : Settings) (rest : List Text) (a : Args)
    → parse_loop (render ss rest) none a ≡ parse_loop rest none (apply ss a)
parse_loop-render [] rest a = refl
parse_loop-render ((f, v) ∷ ss) rest a =
    let (p, q) = flag_name_lem f in
    parse_loop-flag (flag_name f) v f (render ss rest) a p q
    ∙ parse_loop-render ss rest (set_flag f v a)

last_value-append :
    (ss ts : Settings) (f : Flag) (o : Option Text)
    → last_value (ss ++ ts) f o ≡ last_value ts f (last_value ss f o)
last_value-append [] ts f o = refl
last_value-append ((g, v) ∷ ss) ts f o =
    last_value-append ss ts f (if text_eq (flag_name g) (flag_name f) then some v else o)

pub set_flag-command : (f : Flag) (v : Text) (a : Args) → (set_flag f v a).command ≡ a.command
unfolding set_flag
set_flag-command Flag.name v a = refl
set_flag-command Flag.uuid v a = refl
set_flag-command Flag.nickname v a = refl
set_flag-command Flag.credential v a = refl
set_flag-command Flag.internal_secret v a = refl
set_flag-command Flag.admin_username v a = refl
set_flag-command Flag.admin_password v a = refl
set_flag-command Flag.backend v a = refl
set_flag-command Flag.gateway v a = refl
set_flag-command Flag.internal_url v a = refl
set_flag-command Flag.conversation v a = refl
set_flag-command Flag.join v a = refl
set_flag-command Flag.create_group v a = refl
set_flag-command Flag.members v a = refl

apply-command : (ss : Settings) (a : Args) → (apply ss a).command ≡ a.command
apply-command [] a = refl
apply-command ((f, v) ∷ ss) a = apply-command ss (set_flag f v a) ∙ set_flag-command f v a

abbrev flags : List Flag
flags =
    Flag.name ∷ Flag.uuid ∷ Flag.nickname ∷ Flag.credential ∷ Flag.internal_secret
    ∷ Flag.admin_username ∷ Flag.admin_password ∷ Flag.backend ∷ Flag.gateway ∷ Flag.internal_url
    ∷ Flag.conversation ∷ Flag.join ∷ Flag.create_group ∷ Flag.members ∷ []

-- What holds of each flag in the list holds of all.
for_all : (P : Flag → Type 0) (f : Flag) → All P flags → P f
for_all P Flag.name h = h.0
for_all P Flag.uuid h = h.1.0
for_all P Flag.nickname h = h.1.1.0
for_all P Flag.credential h = h.1.1.1.0
for_all P Flag.internal_secret h = h.1.1.1.1.0
for_all P Flag.admin_username h = h.1.1.1.1.1.0
for_all P Flag.admin_password h = h.1.1.1.1.1.1.0
for_all P Flag.backend h = h.1.1.1.1.1.1.1.0
for_all P Flag.gateway h = h.1.1.1.1.1.1.1.1.0
for_all P Flag.internal_url h = h.1.1.1.1.1.1.1.1.1.0
for_all P Flag.conversation h = h.1.1.1.1.1.1.1.1.1.1.0
for_all P Flag.join h = h.1.1.1.1.1.1.1.1.1.1.1.0
for_all P Flag.create_group h = h.1.1.1.1.1.1.1.1.1.1.1.1.0
for_all P Flag.members h = h.1.1.1.1.1.1.1.1.1.1.1.1.1.0

-- A flag sets its own field and no other.
abbrev SetsOwn : Text → Args → Flag → Flag → Type 0
SetsOwn v a g f =
    value_of f (set_flag g v a)
    ≡ (if text_eq (flag_name g) (flag_name f) then some v else value_of f a)

set_flag-value : (g f : Flag) (v : Text) (a : Args) → SetsOwn v a g f
unfolding set_flag text_eq
set_flag-value g f v a =
    for_all (λ g'. SetsOwn v a g' f) g
      (for_all (λ f'. All (λ g'. SetsOwn v a g' f') flags) f (ground arith))

apply-value :
    (ss : Settings) (f : Flag) (a : Args) → value_of f (apply ss a) ≡ last_value ss f (value_of f a)
apply-value [] f a = refl
apply-value ((g, v) ∷ ss) f a =
    apply-value ss f (set_flag g v a) ∙ ap (last_value ss f) (set_flag-value g f v a)

pub defaults-command : (env : Environment) → (defaults env).command ≡ none
unfolding defaults
defaults-command env = refl

-- The command, if there is one, is no flag.
abbrev pub IsCommand : Option Text → Type 0
IsCommand none = Unit
IsCommand (some c) = is_flag c ≡ false

abbrev pub word : Option Text → List Text → List Text
word none rest = rest
word (some c) rest = c ∷ rest

parse_loop-word :
    (c : Option Text) (rest : List Text) (a : Args)
    → IsCommand c
    → a.command ≡ none
    → parse_loop (word c rest) none a ≡ parse_loop rest none (record a { command = c })
unfolding parse_loop
parse_loop-word none rest a h e =
    ap (λ (o : Option Text). parse_loop rest none (record a { command = o })) e
parse_loop-word (some c) rest a h e = rw (h, e, parse_loop) refl

value_of-command :
    (f : Flag) (c : Option Text) (a : Args) → value_of f (record a { command = c }) ≡ value_of f a
value_of-command Flag.name c a = refl
value_of-command Flag.uuid c a = refl
value_of-command Flag.nickname c a = refl
value_of-command Flag.credential c a = refl
value_of-command Flag.internal_secret c a = refl
value_of-command Flag.admin_username c a = refl
value_of-command Flag.admin_password c a = refl
value_of-command Flag.backend c a = refl
value_of-command Flag.gateway c a = refl
value_of-command Flag.internal_url c a = refl
value_of-command Flag.conversation c a = refl
value_of-command Flag.join c a = refl
value_of-command Flag.create_group c a = refl
value_of-command Flag.members c a = refl

-- What a field is without a setting: the variable of the environment that belongs to it, or the address of
-- a server on this machine, or nothing.
abbrev pub fallback : Environment → Flag → Option Text
fallback env Flag.name = none
fallback env Flag.uuid = none
fallback env Flag.nickname = none
fallback env Flag.credential = none
fallback env Flag.internal_secret = env.internal_secret
fallback env Flag.admin_username = env.admin_username
fallback env Flag.admin_password = env.admin_password
fallback env Flag.backend = some (get_or env.backend_url (text "http://127.0.0.1:1905"))
fallback env Flag.gateway = some (get_or env.gateway_url (text "ws://127.0.0.1:1910/ws"))
fallback env Flag.internal_url = some (get_or env.internal_url (text "http://127.0.0.1:1906"))
fallback env Flag.conversation = none
fallback env Flag.join = none
fallback env Flag.create_group = none
fallback env Flag.members = none

defaults-value : (env : Environment) (f : Flag) → value_of f (defaults env) ≡ fallback env f
unfolding defaults
defaults-value env Flag.name = refl
defaults-value env Flag.uuid = refl
defaults-value env Flag.nickname = refl
defaults-value env Flag.credential = refl
defaults-value env Flag.internal_secret = refl
defaults-value env Flag.admin_username = refl
defaults-value env Flag.admin_password = refl
defaults-value env Flag.backend = refl
defaults-value env Flag.gateway = refl
defaults-value env Flag.internal_url = refl
defaults-value env Flag.conversation = refl
defaults-value env Flag.join = refl
defaults-value env Flag.create_group = refl
defaults-value env Flag.members = refl

-- A command line of settings in any order, with a command before, between or after them, is parsed: each
-- field is the last value given for its flag; else the variable of the environment that belongs to it, where
-- there is one; else, for the three urls, the address of the server on this machine.
pub parse_args-takes :
    (env : Environment) (before after : Settings) (command : Option Text)
    → IsCommand command
    → (a : Args) × (parse_args env (render before (word command (render after []))) ≡ parsed a)
      × (a.command ≡ command)
      × ((f : Flag) → value_of f a ≡ last_value (before ++ after) f (fallback env f))
unfolding parse_args parse_loop
parse_args-takes env before after command h =
    let a = apply before (defaults env) in
    let b : Args = record a { command = command } in
    (
      apply after b,
      parse_loop-render before (word command (render after [])) (defaults env)
          ∙ parse_loop-word command (render after []) a h
              (apply-command before (defaults env) ∙ defaults-command env)
          ∙ parse_loop-render after [] b,
      apply-command after b,
      λ f.
          apply-value after f b
          ∙ ap (last_value after f)
              (value_of-command f command a ∙ apply-value before f (defaults env))
          ∙ sym (last_value-append before after f (value_of f (defaults env)))
          ∙ ap (last_value (before ++ after) f) (defaults-value env f),
    )
