-- ===== src/Client/Commands/Members.antt =====
-- Which members /add adds: the runs of characters that are neither commas nor white space.
use airway_im_plugin.Base.{
  ℕ, ◌≡◌, refl, sym, ◌∙◌, ap, Bool, true, false, ◌||◌, ◌==◌, List, [], ◌∷◌, ◌++◌, arith, All,
  append_assoc, append-nil, if◌then◌else◌, Bool-cases, inl, inr,
}
use airway_im_plugin.Text.{Text, text, text_eq}
use airway_im_plugin.Client.Screen.{is_space, is_blank}
use airway_im_plugin.Client.Commands.{
  trim_start, trim_end, trim, split_commas, trim_all, parse_member_uuids, split_spaces, join_commas,
  adds_members, add_action, command_action, handle_command, handle_line,
}

-- Whether a character stands between two ids.
abbrev pub is_between : ℕ → Bool
is_between c = is_space c || c == 44

abbrev emit : Text → List Text → List Text
emit [] ids = ids
emit (c ∷ cs) ids = (c ∷ cs) ∷ ids

-- The runs of other characters, from one that has begun.
abbrev pub runs : Text → Text → List Text
runs run [] = emit run []
runs run (c ∷ cs) =
    let next = runs [] cs in
    let longer = runs (run ++ c ∷ []) cs in if is_between c then emit run next else longer

-- The characters of a piece are no white space.
abbrev IsSolid : Text → Type 0
IsSolid s = All (λ (c : ℕ). is_space c ≡ false) s

trim_end-IsSolid : (s : Text) → IsSolid s → trim_end s ≡ s
unfolding trim_end is_blank
trim_end-IsSolid [] h = refl
trim_end-IsSolid (c ∷ cs) h = ground (arith, h.0, trim_end-IsSolid cs h.1)

trim-IsSolid : (s : Text) → IsSolid s → trim s ≡ s
unfolding trim trim_start trim_end
trim-IsSolid [] h = refl
trim-IsSolid (c ∷ cs) h = rw h.0 (trim_end-IsSolid (c ∷ cs) h)

trim_all-emit : (s : Text) (ss : List Text) → IsSolid s → trim_all (s ∷ ss) ≡ emit s (trim_all ss)
unfolding trim_all trim trim_start trim_end
trim_all-emit [] ss h = refl
trim_all-emit (c ∷ cs) ss h = rw (trim-IsSolid (c ∷ cs) h, trim_all) refl

-- The line with one comma for each run of white space.
abbrev stream : Bool → Text → Text
stream gap [] = []
stream true (c ∷ cs) =
    let wider = stream true cs in
    let begun = c ∷ stream false cs in if is_space c then wider else begun
stream false (c ∷ cs) =
    let next = 44 ∷ stream true cs in
    let longer = c ∷ stream false cs in if is_space c then next else longer

-- The end of a piece.
All-end : (s : Text) (c : ℕ) → IsSolid s → is_space c ≡ false → IsSolid (s ++ c ∷ [])
All-end [] c h e = (e, tt)
All-end (d ∷ s) c h e = (h.0, All-end s c h.1 e)

split_spaces-more :
    (gap : Bool) (piece s : Text)
    → (x : Text) × (xs : List Text) × (split_spaces gap piece s ≡ x ∷ xs)
unfolding split_spaces
split_spaces-more gap piece [] = (piece, [], refl)
split_spaces-more true piece (c ∷ cs) = elim (Bool-cases (is_space c)) [
  | inl p ↦ let (x, xs, e) = split_spaces-more true piece cs in (x, xs, rw p e)
  | inr p ↦ let (x, xs, e) = split_spaces-more false (piece ++ c ∷ []) cs in (x, xs, rw p e)
]
split_spaces-more false piece (c ∷ cs) = elim (Bool-cases (is_space c)) [
  | inl p ↦ (piece, split_spaces true [] cs, rw p refl)
  | inr p ↦ let (x, xs, e) = split_spaces-more false (piece ++ c ∷ []) cs in (x, xs, rw p e)
]

join_commas-split :
    (piece s : Text)
    → join_commas (piece ∷ split_spaces true [] s)
      ≡ piece ++ 44 ∷ join_commas (split_spaces true [] s)
unfolding join_commas
join_commas-split piece s = let (x, xs, e) = split_spaces-more true [] s in rw e refl

join_commas-stream :
    (gap : Bool) (piece s : Text) → join_commas (split_spaces gap piece s) ≡ piece ++ stream gap s
unfolding split_spaces
join_commas-stream true piece [] = unfold join_commas in sym (append-nil piece)
join_commas-stream false piece [] = unfold join_commas in sym (append-nil piece)
join_commas-stream true piece (c ∷ cs) = elim (Bool-cases (is_space c)) [
  | inl p ↦ rw p (join_commas-stream true piece cs)
  | inr p ↦ rw p (
      join_commas-stream false (piece ++ c ∷ []) cs ∙ append_assoc piece (c ∷ []) (stream false cs))
]
join_commas-stream false piece (c ∷ cs) = elim (Bool-cases (is_space c)) [
  | inl p ↦ rw p (
      join_commas-split piece cs
      ∙ ap (λ (t : Text). piece ++ 44 ∷ t) (join_commas-stream true [] cs))
  | inr p ↦ rw p (
      join_commas-stream false (piece ++ c ∷ []) cs ∙ append_assoc piece (c ∷ []) (stream false cs))
]

-- A character that is no white space, before the rest of the stream.
ids_after :
    (piece : Text) (c : ℕ) (cs : Text)
    → IsSolid piece
    → is_space c ≡ false
    → ((next : Text) → IsSolid next → trim_all (split_commas next (stream false cs)) ≡ runs next cs)
    → trim_all (split_commas piece (c ∷ stream false cs)) ≡ runs piece (c ∷ cs)
unfolding split_commas
ids_after piece c cs h p ih = elim (Bool-cases (c == 44)) [
  | inl q ↦
      rw (p, q)
        (trim_all-emit piece (split_commas [] (stream false cs)) h ∙ ap (emit piece) (ih [] tt))
  | inr q ↦ rw (p, q) (ih (piece ++ c ∷ []) (All-end piece c h p))
]

ids_at_end : (piece : Text) → IsSolid piece → trim_all (split_commas piece []) ≡ emit piece []
unfolding split_commas trim_all
ids_at_end piece h = trim_all-emit piece [] h

ids_in :
    (s : Text)
    → ((piece : Text)
        → IsSolid piece
        → trim_all (split_commas piece (stream false s)) ≡ runs piece s)
      × (trim_all (split_commas [] (stream true s)) ≡ runs [] s)
unfolding split_commas
ids_in [] = (ids_at_end, ids_at_end [] tt)
ids_in (c ∷ cs) = elim (Bool-cases (is_space c)) [
  | inl p ↦ (
    λ piece h.
        rw (p, split_commas)
          (trim_all-emit piece (split_commas [] (stream true cs)) h
            ∙ ap (emit piece) (ids_in cs).1),
    rw p (ids_in cs).1,
  )
  | inr p ↦ (
    λ piece h. rw p (rw p at (ids_after piece c cs h p (ids_in cs).0)),
    rw p (rw p at (ids_after [] c cs tt p (ids_in cs).0)),
  )
]

-- The handler's list is the runs of what comes after the white space.
pub parse_member_uuids-runs :
    (s : Text) → parse_member_uuids (join_commas (split_spaces true [] s)) ≡ runs [] s
unfolding parse_member_uuids
parse_member_uuids-runs s = rw (join_commas-stream true [] s) (ids_in s).1

-- An id has no comma and no white space; a gap is made of them.
abbrev IsUnbroken : Text → Type 0
IsUnbroken s = All (λ (c : ℕ). is_between c ≡ false) s

abbrev pub IsId : Text → Type 0
IsId [] = ⊥
IsId (c ∷ cs) = IsUnbroken (c ∷ cs)

abbrev pub IsGap : Text → Type 0
IsGap [] = ⊥
IsGap (c ∷ cs) = All (λ (d : ℕ). is_between d ≡ true) (c ∷ cs)

-- Ids with a gap before each of them.
abbrev pub spread : List (Text × Text) → Text
spread [] = []
spread ((gap, id) ∷ ps) = gap ++ (id ++ spread ps)

abbrev pub ids_of : List (Text × Text) → List Text
ids_of [] = []
ids_of ((gap, id) ∷ ps) = id ∷ ids_of ps

abbrev pub AreSpread : List (Text × Text) → Type 0
AreSpread [] = Unit
AreSpread ((gap, id) ∷ ps) = IsGap gap × IsId id × AreSpread ps

runs-id : (run id s : Text) → IsUnbroken id → runs run (id ++ s) ≡ runs (run ++ id) s
runs-id run [] s h = rw (append-nil run) refl
runs-id run (c ∷ cs) s h =
    rw h.0 (
      runs-id (run ++ c ∷ []) cs s h.1 ∙ ap (λ (t : Text). runs t s) (append_assoc run (c ∷ []) cs))

runs-gap :
    (gap s : Text) → All (λ (d : ℕ). is_between d ≡ true) gap → runs [] (gap ++ s) ≡ runs [] s
runs-gap [] s h = refl
runs-gap (c ∷ cs) s h = rw h.0 (runs-gap cs s h.1)

runs-spread :
    (run : Text) (ps : List (Text × Text))
    → AreSpread ps
    → runs run (spread ps) ≡ emit run (ids_of ps)
runs-spread run [] h = refl
runs-spread run (([], id) ∷ ps) (g, i, h) = absurd g
runs-spread run ((c ∷ cs, []) ∷ ps) (g, i, h) = absurd i
runs-spread run ((c ∷ cs, d ∷ id) ∷ ps) (g, i, h) = rw g.0 (
    ap (emit run) (
      runs-gap cs ((d ∷ id) ++ spread ps) g.1
      ∙ runs-id [] (d ∷ id) (spread ps) i
      ∙ runs-spread (d ∷ id) ps h))

handle_line-add :
    (sp : ℕ) (s : Text)
    → is_space sp ≡ true
    → handle_line (text "/add" ++ sp ∷ s)
      ≡ add_action (parse_member_uuids (join_commas (split_spaces true [] s)))
unfolding handle_line handle_command command_action split_spaces is_space text_eq
handle_line-add sp s h = rw h refl

-- A line of /add, white space, and any ids with gaps of white space and commas between them, where more
-- white space or commas may stand before the first: it adds these ids, in their order.
add_takes_ids :
    (sp : ℕ) (gap id : Text) (ps : List (Text × Text))
    → is_space sp ≡ true
    → IsGap (sp ∷ gap)
    → IsId id
    → AreSpread ps
    → handle_line (text "/add" ++ spread ((sp ∷ gap, id) ∷ ps)) ≡ adds_members (id ∷ ids_of ps)
unfolding add_action
add_takes_ids sp gap [] ps h g i k = absurd i
add_takes_ids sp gap (d ∷ id) ps h g i k =
    let s = gap ++ ((d ∷ id) ++ spread ps) in
    let found : runs [] s ≡ (d ∷ id) ∷ ids_of ps =
      runs-gap gap ((d ∷ id) ++ spread ps) g.1
      ∙ runs-id [] (d ∷ id) (spread ps) i
      ∙ runs-spread (d ∷ id) ps k in
    handle_line-add sp s h ∙ ap add_action (parse_member_uuids-runs s ∙ found)
