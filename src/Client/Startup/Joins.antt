-- ===== src/Client/Startup/Joins.antt =====
-- Which conversation the demo client joins where its command line names a title.
use airway_im_plugin.Base.{
  ◌≡◌, refl, ◌∙◌, ap, none, some, List, [], ◌∷◌, ◌++◌, true, false, arith, append-nil,
}
use airway_im_plugin.Text.{Text, text_eq_refl, is_truthy}
use airway_im_plugin.Client.Arguments.{Args, Environment, Flag}
use airway_im_plugin.Client.Arguments.Settings.{
  Settings, render, last_value, value_of, fallback, parse_args-takes,
}
use airway_im_plugin.Client.Startup.{
  Group, asks_me, lists_groups, gets_conversation, lists_messages, show_conversation, Server, joins,
  joined, given, has_title, join_first, with_listed, with_groups, resolve, logged_in, log_in,
  unknown_command, with_name, start_with, start_parsed, main,
}

-- No group has the title.
abbrev pub NoneTitled : Text → List Group → Type 0
NoneTitled t [] = Unit
NoneTitled t (g ∷ gs) = (has_title t g.title ≡ false) × NoneTitled t gs

join_first-finds :
    (s : Server) (t : Text) (earlier later : List Group) (g : Group)
    → NoneTitled t earlier
    → g.title ≡ some t
    → join_first s t (earlier ++ g ∷ later) ≡ joined s g
unfolding join_first has_title
join_first-finds s t [] later g n e = rw (e, text_eq_refl t) refl
join_first-finds s t (x ∷ xs) later g n e = rw n.0 (join_first-finds s t xs later g n.1 e)

-- What main does with arguments that name no other conversation.
start_with-joins :
    (a : Args) (s : Server) (name credential t : Text) (gs : List Group)
    → a.command ≡ none
    → a.name ≡ some name
    → is_truthy name ≡ true
    → a.credential ≡ some credential
    → is_truthy credential ≡ true
    → a.create_group ≡ none
    → a.conversation ≡ none
    → a.join ≡ some t
    → s.me ≡ true
    → s.groups ≡ some gs
    → start_with a s ≡ ((join_first s t gs).0, asks_me ∷ lists_groups ∷ (join_first s t gs).1)
unfolding start_with with_name log_in logged_in resolve with_groups with_listed given
    unknown_command
start_with-joins a s name credential t gs c n n' k k' x y j m l =
    ground (arith, c, n, n', k, k', m, x, y, j, l)

-- The demo client is started with settings in any order, of which the last --name and the last --credential
-- are not empty, the last --join is a title, and neither --create-group nor --conversation is there. Where the
-- server knows the user, a group of the user's has this title, and the first of them, in the server's order, can
-- be got with its messages: that one is shown, after calls of me, listGroups, getConversation and listMessages
-- about it, and no other.
pub joins_first_titled :
    (env : Environment) (ss : Settings) (s : Server) (name credential t : Text)
    (earlier later : List Group) (g : Group)
    → last_value ss Flag.name none ≡ some name
    → is_truthy name ≡ true
    → last_value ss Flag.credential none ≡ some credential
    → is_truthy credential ≡ true
    → last_value ss Flag.create_group none ≡ none
    → last_value ss Flag.conversation none ≡ none
    → last_value ss Flag.join none ≡ some t
    → s.me ≡ true
    → s.groups ≡ some (earlier ++ g ∷ later)
    → NoneTitled t earlier
    → g.title ≡ some t
    → s.details g.id ≡ true
    → s.history g.id ≡ true
    → main env (render ss []) s
      ≡ (joins g.id t, asks_me ∷ lists_groups ∷ gets_conversation g.id ∷ lists_messages g.id ∷ [])
unfolding main start_parsed show_conversation
joins_first_titled env ss s name credential t earlier later g n n' k k' x y j m l none_before e d
      d' =
    let (a, parses, c, values) = parse_args-takes env ss [] none _ in
    let value : (f : Flag) → value_of f a ≡ last_value ss f (fallback env f) =
      λ f. values f ∙ ap (λ (us : Settings). last_value us f (fallback env f)) (append-nil ss) in
    ap (λ x. start_parsed x s) parses
    ∙ start_with-joins a s name credential t (earlier ++ g ∷ later) c (value Flag.name ∙ n) n'
        (value Flag.credential ∙ k) k' (value Flag.create_group ∙ x) (value Flag.conversation ∙ y)
        (value Flag.join ∙ j) m l
    ∙ rw (join_first-finds s t earlier later g none_before e, e, show_conversation, d, d') refl
