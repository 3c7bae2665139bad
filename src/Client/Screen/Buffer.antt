-- ===== src/Client/Screen/Buffer.antt =====
-- The buffer holds the last 2000 of all lines pushed.
use airway_im_plugin.Base.{
  ℕ, zero, suc, ◌+◌, ◌-◌, ◌≡◌, ◌≤◌, refl, sym, ◌∙◌, ap, List, [], ◌∷◌, ◌++◌, ltb, ltb→le, arith,
  length, length-append, drop, append_assoc, append-nil, Bool-cases, inl, inr,
}
use airway_im_plugin.Text.{Text}
use airway_im_plugin.Client.Screen.{push_lines}

-- The last `n` of a list.
abbrev pub last_lines : ℕ → List Text → List Text
last_lines n ls = drop (length ls - n) ls

pub drop-length : (k : ℕ) (ls : List Text) → length (drop k ls) ≡ length ls - k
drop-length zero ls = omega arith
drop-length (suc k) [] = omega arith
drop-length (suc k) (l ∷ ls) = omega (arith, drop-length k ls)

drop-append : (k : ℕ) (ls ks : List Text) → k ≤ length ls → drop k (ls ++ ks) ≡ drop k ls ++ ks
drop-append zero ls ks h = refl
drop-append (suc k) [] ks h = absurd (omega arith)
drop-append (suc k) (l ∷ ls) ks h = drop-append k ls ks (omega arith)

drop-drop : (j k i : ℕ) (ls : List Text) → i ≡ j + k → drop k (drop j ls) ≡ drop i ls
drop-drop zero k i ls e = let e' : k ≡ i = omega arith in rw e' refl
drop-drop (suc j) k zero ls e = absurd (omega arith)
drop-drop (suc j) zero (suc i) [] e = refl
drop-drop (suc j) (suc k) (suc i) [] e = refl
drop-drop (suc j) k (suc i) (l ∷ ls) e = drop-drop j k i ls (omega arith)

push_lines-last : (new lines : List Text) → push_lines new lines ≡ last_lines 2000 (lines ++ new)
unfolding push_lines
push_lines-last new lines = elim (Bool-cases (ltb 2000 (length (lines ++ new)))) [
  | inl p ↦ rw p refl
  | inr p ↦
      let le = ltb→le 2000 (length (lines ++ new)) p in
      let z : length (lines ++ new) - 2000 ≡ 0 = omega arith in rw (p, z) refl
]

last_lines-append :
    (n : ℕ) (ls ks : List Text) → last_lines n (last_lines n ls ++ ks) ≡ last_lines n (ls ++ ks)
last_lines-append n ls ks =
    let j = length ls - n in
    let kept = drop-length j ls in
    let whole : drop j (ls ++ ks) ≡ drop j ls ++ ks = drop-append j ls ks (omega arith) in
    rw (← whole) (
      drop-drop j (length (drop j (ls ++ ks)) - n) (length (ls ++ ks) - n) (ls ++ ks)
        (omega (arith, length-append ls ks, length-append (drop j ls) ks, kept, ap length whole)))

-- All pushes of a program, from the first.
unfoldable pub push_all : List (List Text) → List Text → List Text
push_all [] lines = lines
push_all (new ∷ more) lines = push_all more (push_lines new lines)

abbrev pub concat : List (List Text) → List Text
concat [] = []
concat (ls ∷ lss) = ls ++ concat lss

push_all-last :
    (pushes : List (List Text)) (all : List Text)
    → push_all pushes (last_lines 2000 all) ≡ last_lines 2000 (all ++ concat pushes)
unfolding push_all
push_all-last [] all = ap (last_lines 2000) (sym (append-nil all))
push_all-last (new ∷ more) all =
    ap (push_all more) (push_lines-last new (last_lines 2000 all) ∙ last_lines-append 2000 all new)
    ∙ push_all-last more (all ++ new)
    ∙ ap (last_lines 2000) (append_assoc all new (concat more))

-- Whatever is pushed onto an empty screen, the buffer holds the last 2000 lines of it all, in order.
push_all_lem : (pushes : List (List Text)) → push_all pushes [] ≡ last_lines 2000 (concat pushes)
push_all_lem pushes = push_all-last pushes []
