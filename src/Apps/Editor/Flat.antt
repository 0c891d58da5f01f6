-- ===== src/Apps/Editor/Flat.antt =====
-- The lines as one text: where a position is in it, and what replaces a part of it.
use sshos.Base.{
  ℕ, zero, suc, ◌+◌, ◌≤◌, ◌<◌, ◌≡◌, refl, ap, sym, ◌∙◌, List, [], ◌∷◌, ◌++◌, arith, Bytes, length,
  take, drop, set, get_or, append_assoc, length-append, append-nil, length-take, take-append-drop,
}
use sshos.Apps.Editor.{TextPos, newline, join_lines}

-- The lines before, each with its break, and those behind, each with the break before it.
abbrev pub before : List Bytes → Bytes
before [] = []
before (l ∷ ls) = l ++ newline ∷ before ls

abbrev pub behind : List Bytes → Bytes
behind [] = []
behind (l ∷ ls) = newline ∷ (l ++ behind ls)

pub join_lines-cons_behind : (l : Bytes) (ls : List Bytes) → join_lines (l ∷ ls) ≡ l ++ behind ls
join_lines-cons_behind l [] = sym (append-nil l)
join_lines-cons_behind l (m ∷ ls) = ap (λ t. l ++ newline ∷ t) (join_lines-cons_behind m ls)

pub join_lines-append :
    (ls : List Bytes) (l : Bytes) (ms : List Bytes)
    → join_lines (ls ++ l ∷ ms) ≡ before ls ++ (l ++ behind ms)
join_lines-append [] l ms = join_lines-cons_behind l ms
join_lines-append (k ∷ []) l ms =
    ap (λ t. k ++ newline ∷ t) (join_lines-append [] l ms)
    ∙ sym (append_assoc k (newline ∷ []) (l ++ behind ms))
join_lines-append (k ∷ j ∷ ls) l ms =
    ap (λ t. k ++ newline ∷ t) (join_lines-append (j ∷ ls) l ms)
    ∙ sym (append_assoc k (newline ∷ before (j ∷ ls)) (l ++ behind ms))

-- The place of a position in the text.
abbrev pub place : List Bytes → TextPos → ℕ
place ls p = length (before (take p.line ls)) + p.col

-- `new` stands in `after` where `gone` stood in `text`, at `at`; the rest is the same.
pub record IsReplaced (text : Bytes) (at : ℕ) (gone new after : Bytes) : Type 0 where
  pub left : Bytes
  pub right : Bytes
  pub had : text ≡ left ++ (gone ++ right)
  pub has : after ≡ left ++ (new ++ right)
  pub where_at : length left ≡ at

-- A line taken apart, and the lines around it.
pub split_lines :
    (ls : List Bytes) (i : ℕ) → i < length ls → ls ≡ take i ls ++ get_or ls i [] ∷ drop (suc i) ls
split_lines [] i h = absurd (omega arith)
split_lines (l ∷ ls) zero h = refl
split_lines (l ∷ ls) (suc i) h = ap (◌∷◌ l) (split_lines ls i (omega arith))

set_split :
    (ls : List Bytes) (i : ℕ) (v : Bytes)
    → i < length ls
    → set ls i v ≡ take i ls ++ v ∷ drop (suc i) ls
set_split [] i v h = absurd (omega arith)
set_split (l ∷ ls) zero v h = refl
set_split (l ∷ ls) (suc i) v h = ap (◌∷◌ l) (set_split ls i v (omega arith))

-- What stands behind a column of a line, and before it.
abbrev pub left_of : List Bytes → TextPos → Bytes
left_of ls p = before (take p.line ls) ++ take p.col (get_or ls p.line [])

abbrev pub right_of : List Bytes → TextPos → Bytes
right_of ls p = drop p.col (get_or ls p.line []) ++ behind (drop (suc p.line) ls)

pub regroup : (w x y z : Bytes) → w ++ ((x ++ y) ++ z) ≡ (w ++ x) ++ (y ++ z)
regroup w x y z = ap (◌++◌ w) (append_assoc x y z) ∙ sym (append_assoc w x (y ++ z))

module _ (ls : List Bytes) (p : TextPos) where
  pub length-left_of : p.col ≤ length (get_or ls p.line []) → length (left_of ls p) ≡ place ls p
  length-left_of h = omega (
    arith,
    length-append (before (take p.line ls)) (take p.col (get_or ls p.line [])),
    length-take p.col (get_or ls p.line []),
  )

  pub join_lines_at : p.line < length ls → join_lines ls ≡ left_of ls p ++ right_of ls p
  join_lines_at h =
      ap join_lines (split_lines ls p.line h)
      ∙ join_lines-append (take p.line ls) (get_or ls p.line []) (drop (suc p.line) ls)
      ∙ ap (λ l. before (take p.line ls) ++ (l ++ behind (drop (suc p.line) ls)))
          (sym (take-append-drop p.col (get_or ls p.line [])))
      ∙ regroup (before (take p.line ls)) (take p.col (get_or ls p.line []))
          (drop p.col (get_or ls p.line [])) (behind (drop (suc p.line) ls))

  -- The line written anew, between what is before it and what is behind.
  pub join_lines-set :
      (a b : Bytes)
      → p.line < length ls
      → join_lines (set ls p.line (a ++ b))
        ≡ (before (take p.line ls) ++ a) ++ (b ++ behind (drop (suc p.line) ls))
  join_lines-set a b h =
      ap join_lines (set_split ls p.line (a ++ b) h)
      ∙ join_lines-append (take p.line ls) (a ++ b) (drop (suc p.line) ls)
      ∙ regroup (before (take p.line ls)) a b (behind (drop (suc p.line) ls))

pub take-set : (ls : List Bytes) (i : ℕ) (v : Bytes) → take i (set ls i v) ≡ take i ls
take-set [] i v = refl
take-set (l ∷ ls) zero v = refl
take-set (l ∷ ls) (suc i) v = ap (◌∷◌ l) (take-set ls i v)

pub take-set_next :
    (ls : List Bytes) (i : ℕ) (v : Bytes)
    → i < length ls
    → take (suc i) (set ls i v) ≡ take i ls ++ v ∷ []
take-set_next [] i v h = absurd (omega arith)
take-set_next (l ∷ ls) zero v h = refl
take-set_next (l ∷ ls) (suc i) v h = ap (◌∷◌ l) (take-set_next ls i v (omega arith))

pub drop-set : (ls : List Bytes) (i k : ℕ) (v : Bytes) → i < k → drop k (set ls i v) ≡ drop k ls
drop-set [] i k v h = refl
drop-set (l ∷ ls) i zero v h = absurd (omega arith)
drop-set (l ∷ ls) zero (suc k) v h = refl
drop-set (l ∷ ls) (suc i) (suc k) v h = drop-set ls i k v (omega arith)

pub before-append :
    (ls : List Bytes) (l : Bytes) → before (ls ++ l ∷ []) ≡ before ls ++ (l ++ newline ∷ [])
before-append [] l = refl
before-append (k ∷ ls) l =
    ap (λ t. k ++ newline ∷ t) (before-append ls l)
    ∙ sym (append_assoc k (newline ∷ before ls) (l ++ newline ∷ []))
