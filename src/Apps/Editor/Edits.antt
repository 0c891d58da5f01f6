-- ===== src/Apps/Editor/Edits.antt =====
-- Each edit of the lines, as an edit of the one text that they make up.
use sshos.Base.{
  ℕ, suc, ◌+◌, ◌≤◌, ◌<◌, ◌≡◌, ap, ◌∙◌, false, List, [], ◌∷◌, ◌++◌, arith, Bytes, length, take, drop,
  set, append_assoc, length-append, length-take, length-set, ◌==◌,
}
use sshos.Base.Access.{get_or-set_if}
use sshos.Apps.Editor.{TextPos, TextBuffer, join_lines, line, clamp, insert_at, insert, write}
use sshos.Apps.Editor.Flat.{
  before, behind, place, IsReplaced, left_of, right_of, length-left_of, join_lines_at,
  join_lines-set, take-set,
}

-- A position inside the lines.
abbrev pub IsAt : TextBuffer → TextPos → Type 0
IsAt b p = (p.line < length b.lines) × (p.col ≤ length (line b p.line))

pub clamp-IsAt : (b : TextBuffer) (p : TextPos) → 0 < length b.lines → IsAt b (clamp b p)
unfolding clamp
clamp-IsAt b p h = ground arith

-- An edit that replaces `gone` by `new` at the place `o` of the text, and gives the position
-- behind `new`: a line that there is, and a column that this line has.
pub record IsEdit (b : TextBuffer) (o : ℕ) (gone new : Bytes) (r : TextPos × TextBuffer)
    : Type 0 where
  pub replaced : IsReplaced (join_lines b.lines) o gone new (join_lines r.1.lines)
  pub moved : place r.1.lines r.0 ≡ o + length new
  pub some_line : 0 < length r.1.lines
  pub inside : IsAt r.1 r.0

-- The place of a position in a line that has been written.
pub place-set :
    (ls : List Bytes) (i c : ℕ) (v : Bytes)
    → place (set ls i v) (record { line = i; col = c }) ≡ place ls (record { line = i; col = c })
place-set ls i c v = ap (λ ks. length (before ks) + c) (take-set ls i v)

-- A column of a line that has been written.
pub IsAt-write :
    (b : TextBuffer) (i c : ℕ) (v : Bytes)
    → i < length b.lines
    → c ≤ length v
    → IsAt (write i v b) (record { line = i; col = c })
IsAt-write b i c v h k =
    let same = ap length (get_or-set_if b.lines i i v [] h) in
    (omega (arith, h, length-set b.lines i v), ground (arith, same))

insert_at-IsEdit :
    (b : TextBuffer) (q : TextPos) (s : Bytes)
    → IsAt b q
    → IsEdit b (place b.lines q) [] s (insert_at q s b)
unfolding insert_at
insert_at-IsEdit b q [] at = record {
  replaced = record {
    left = left_of b.lines q;
    right = right_of b.lines q;
    had = join_lines_at b.lines q at.0;
    has = join_lines_at b.lines q at.0;
    where_at = length-left_of b.lines q at.1;
  };
  moved = omega arith;
  some_line = omega (arith, at.0);
  inside = at;
}
insert_at-IsEdit b q (c ∷ s) at =
    let e : length (c ∷ s) == 0 ≡ false = ground arith in
    rw e (record {
      replaced = record {
        left = left_of b.lines q;
        right = right_of b.lines q;
        had = join_lines_at b.lines q at.0;
        has =
            join_lines-set b.lines q (take q.col (line b q.line))
              ((c ∷ s) ++ drop q.col (line b q.line)) at.0
            ∙ ap (◌++◌ (left_of b.lines q)) (
                append_assoc (c ∷ s) (drop q.col (line b q.line))
                  (behind (drop (suc q.line) b.lines)));
        where_at = length-left_of b.lines q at.1;
      };
      moved = omega (
        arith,
        place-set b.lines q.line (q.col + length (c ∷ s))
            (take q.col (line b q.line) ++ ((c ∷ s) ++ drop q.col (line b q.line))),
      );
      some_line = omega (
        arith,
        at.0,
        length-set b.lines q.line
            (take q.col (line b q.line) ++ ((c ∷ s) ++ drop q.col (line b q.line))),
      );
      inside =
          IsAt-write b q.line (q.col + length (c ∷ s))
            (take q.col (line b q.line) ++ ((c ∷ s) ++ drop q.col (line b q.line))) at.0
            (omega (
              arith,
              length-append (take q.col (line b q.line)) ((c ∷ s) ++ drop q.col (line b q.line)),
              length-append (c ∷ s) (drop q.col (line b q.line)),
              length-take q.col (line b q.line),
              at.1,
            ));
    })

-- Text is inserted at the position, clamped to the lines, and the position comes behind it, on a
-- column that its line has.
pub insert-IsEdit :
    (b : TextBuffer) (p : TextPos) (s : Bytes)
    → 0 < length b.lines
    → IsEdit b (place b.lines (clamp b p)) [] s (insert p s b)
unfolding insert
insert-IsEdit b p s h = insert_at-IsEdit b (clamp b p) s (clamp-IsAt b p h)

-- `split_line`.
module _ (b : TextBuffer) (q : TextPos) (at : IsAt b q) where
  abbrev head_of : Bytes
  head_of = take q.col (line b q.line)

  abbrev tail_of : Bytes
  tail_of = drop q.col (line b q.line)

  abbrev cut_lines : List Bytes
  cut_lines = set b.lines q.line head_of
