-- ===== src/Client/Arguments/Accepted.antt =====
-- Which command lines are accepted: no other than settings and at most one command.
use airway_im_plugin.Base.{
  ◌≡◌, refl, ◌∙◌, ap, false, Option, none, some, List, [], ◌∷◌, arith, if◌then◌else◌, Bool-cases,
  Option-cases, inl, inr,
}
use airway_im_plugin.Text.{Text, text_eq, text_eq_iff}
use airway_im_plugin.Client.Arguments.{
  Args, Environment, Flag, parsed, defaults, is_flag, flag_of, set_flag, parse_loop, parse_args,
}
use airway_im_plugin.Client.Arguments.Settings.{
  flag_name, Settings, render, IsCommand, word, set_flag-command, defaults-command,
}

-- One test of the switch.
chosen :
    (arg : Text) (g f : Flag) (o : Option Flag)
    → (o ≡ some f → arg ≡ flag_name f)
    → (if text_eq arg (flag_name g) then some g else o) ≡ some f
    → arg ≡ flag_name f
chosen arg g f o next e = elim (Bool-cases (text_eq arg (flag_name g))) [
  | inl p ↦
      let same = (text_eq_iff arg (flag_name g)).0 p in
      let q : some g ≡ some f = rw p at e in same ∙ cc
  | inr p ↦ next (rw p at e)
]

flag_of-names : (arg : Text) (f : Flag) → flag_of arg ≡ some f → arg ≡ flag_name f
unfolding flag_of
flag_of-names arg f = chosen arg Flag.name f _ (
    chosen arg Flag.uuid f _ (
      chosen arg Flag.nickname f _ (
        chosen arg Flag.credential f _ (
          chosen arg Flag.internal_secret f _ (
            chosen arg Flag.admin_username f _ (
              chosen arg Flag.admin_password f _ (
                chosen arg Flag.backend f _ (
                  chosen arg Flag.gateway f _ (
                    chosen arg Flag.internal_url f _ (
                      chosen arg Flag.conversation f _ (
                        chosen arg Flag.join f _ (
                          chosen arg Flag.create_group f _
                            (chosen arg Flag.members f _ (λ e. cc))))))))))))))

-- How the loop goes on from an argument that is accepted, with another one behind it.
data Taken (arg v : Text) (rest : List Text) (a b : Args) : Type 0 where
  setting :
      (f : Flag)
      → arg ≡ flag_name f
      → parse_loop rest none (set_flag f v a) ≡ parsed b
      → Taken arg v rest a b
  first_word :
      is_flag arg ≡ false
      → a.command ≡ none
      → parse_loop (v ∷ rest) none (record a { command = some arg }) ≡ parsed b
      → Taken arg v rest a b

take_argument :
    (arg v : Text) (rest : List Text) (a b : Args)
    → parse_loop (arg ∷ v ∷ rest) none a ≡ parsed b
    → Taken arg v rest a b
unfolding parse_loop
take_argument arg v rest a b e = elim (Bool-cases (is_flag arg)) [
  | inl p ↦ elim (Option-cases (flag_of arg)) [
    | inl q ↦ absurd (ground (arith, p, q, e))
    | inr (f, q) ↦ setting f (flag_of-names arg f q) (rw (p, q, parse_loop) at e)
  ]
  | inr p ↦ elim (Option-cases a.command) [
    | inl q ↦ first_word p q (rw (p, q, parse_loop) at e)
    | inr (c, q) ↦ absurd (ground (arith, p, q, e))
  ]
]

-- An argument that is accepted at the end is a command.
take_last :
    (arg : Text) (a b : Args)
    → parse_loop (arg ∷ []) none a ≡ parsed b
    → (is_flag arg ≡ false) × (a.command ≡ none)
unfolding parse_loop
take_last arg a b e = elim (Bool-cases (is_flag arg)) [
  | inl p ↦ absurd (elim (Option-cases (flag_of arg)) [
    | inl q ↦ ground (arith, p, q, e)
    | inr (f, q) ↦ ground (arith, p, q, e)
  ])
  | inr p ↦ elim (Option-cases a.command) [
    | inl q ↦ (p, q)
    | inr (c, q) ↦ absurd (ground (arith, p, q, e))
  ]
]

settings_left :
    (argv : List Text) (a b : Args) (c : Text)
    → a.command ≡ some c
    → parse_loop argv none a ≡ parsed b
    → (ss : Settings) × (argv ≡ render ss [])
settings_left [] a b c h e = ([], refl)
settings_left (arg ∷ []) a b c h e =
    let (p, q) = take_last arg a b e in absurd (ground (arith, h, q))
settings_left (arg ∷ v ∷ rest) a b c h e = elim (take_argument arg v rest a b e) [
  | setting f named e' ↦
      let (ss, p) = settings_left rest (set_flag f v a) b c (set_flag-command f v a ∙ h) e' in
      ((f, v) ∷ ss, rw (named, p) refl)
  | first_word p q e' ↦ absurd (ground (arith, h, q))
]

-- The parts of a command line that is accepted.
pub record IsAccepted (argv : List Text) : Type 0 where
  pub before : Settings
  pub command : Option Text
  pub after : Settings
  pub a_command : IsCommand command
  pub parts : argv ≡ render before (word command (render after []))

parts_of :
    (argv : List Text) (a b : Args)
    → a.command ≡ none
    → parse_loop argv none a ≡ parsed b
    → IsAccepted argv
parts_of [] a b h e = record {
  before = [];
  command = none;
  after = [];
  a_command = tt;
  parts = refl;
}
parts_of (arg ∷ []) a b h e =
    let (p, q) = take_last arg a b e in
    record { before = []; command = some arg; after = []; a_command = p; parts = refl }
parts_of (arg ∷ v ∷ rest) a b h e = elim (take_argument arg v rest a b e) [
  | setting f named e' ↦
      let r = parts_of rest (set_flag f v a) b (set_flag-command f v a ∙ h) e' in
      record {
        before = (f, v) ∷ r.before;
        command = r.command;
        after = r.after;
        a_command = r.a_command;
        parts = rw named (ap (λ (t : List Text). flag_name f ∷ v ∷ t) r.parts);
      }
  | first_word p q e' ↦
      let (ss, r) = settings_left (v ∷ rest) (record a { command = some arg }) b arg refl e' in
      record { before = []; command = some arg; after = ss; a_command = p; parts = ap (◌∷◌ arg) r }
]

-- A command line that is accepted consists of settings with at most one command among them, which is no flag.
parse_args-IsAccepted :
    (env : Environment) (argv : List Text) (b : Args)
    → parse_args env argv ≡ parsed b
    → IsAccepted argv
unfolding parse_args
parse_args-IsAccepted env argv b e = parts_of argv (defaults env) b (defaults-command env) e
