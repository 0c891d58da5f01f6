-- ===== src/Apps/Editor.antt =====
-- src/apps/editor/buffer.hpp and src/apps/editor/buffer.cpp: the lines of the editor.
use sshos.Base.{
  ℕ, zero, suc, ◌+◌, ◌-◌, Bool, true, false, ◌||◌, Option, none, some, List, [], ◌∷◌, ◌++◌, Bytes,
  length, take, drop, set, get_or, ltb, leb, ◌==◌, if◌then◌else◌,
}
pub mod File
pub mod Flat
pub mod Edits
pub mod Erase

pub record TextPos : Type 0 where
  pub line : ℕ
  pub col : ℕ

pub record TextBuffer : Type 0 where
  pub lines : List Bytes
  pub modified : Bool
  pub trailing_newline : Bool

abbrev pub new_buffer : TextBuffer
new_buffer = record { lines = [] ∷ []; modified = false; trailing_newline = true }

abbrev pub newline : ℕ
newline = 10

-- `text.find('\n', start)`, from `start`.
unfoldable pub index_of : Bytes → Option ℕ
index_of [] = none
index_of (b ∷ bs) =
    if b == newline then some 0 else (elim (index_of bs) [ none ↦ none | some k ↦ some (suc k) ])

-- `text.back() == '\n'`, where there is a last byte.
unfoldable pub ends_line : Bytes → Bool
ends_line [] = false
ends_line (b ∷ []) = b == newline
ends_line (b ∷ c ∷ bs) = ends_line (c ∷ bs)

-- The loop of `load`, on what is left behind `start`. With fuel: each turn takes a line break.
unfoldable pub load_loop : ℕ → Bytes → List Bytes
load_loop zero rest = []
load_loop (suc fuel) rest = elim (index_of rest) [
  | none ↦ if length rest == 0 then [] else rest ∷ []
  | some nl ↦ take nl rest ∷ load_loop fuel (drop (suc nl) rest)
]

-- `if (lines_.empty()) lines_.push_back("");`
abbrev pub or_empty_line : List Bytes → List Bytes
or_empty_line [] = [] ∷ []
or_empty_line (l ∷ ls) = l ∷ ls

unfoldable pub load : Bytes → TextBuffer
load text = record {
  lines = or_empty_line (load_loop (suc (length text)) text);
  modified = false;
  trailing_newline = length text == 0 || ends_line text;
}

-- The loop of `text`.
abbrev pub join_lines : List Bytes → Bytes
join_lines [] = []
join_lines (l ∷ []) = l
join_lines (l ∷ m ∷ ls) = l ++ newline ∷ join_lines (m ∷ ls)

abbrev pub text : TextBuffer → Bytes
text b = join_lines b.lines ++ (if b.trailing_newline then newline ∷ [] else [])

abbrev pub mark_saved : TextBuffer → TextBuffer
mark_saved b = record b { modified = false }

-- Out of bounds, the empty line.
abbrev pub line : TextBuffer → ℕ → Bytes
line b i = get_or b.lines i []

abbrev pub clamp_col : TextBuffer → ℕ → ℕ → TextPos
clamp_col b i col = record {
  line = i;
  col = if ltb (length (line b i)) col then length (line b i) else col;
}

unfoldable pub clamp : TextBuffer → TextPos → TextPos
clamp b p =
    if length b.lines == 0
    then record { line = 0; col = 0 }
    else if leb (length b.lines) p.line
    then clamp_col b (length b.lines - 1) p.col
    else clamp_col b p.line p.col

-- `lines_[i] = l`, as an edit.
abbrev pub write : ℕ → Bytes → TextBuffer → TextBuffer
write i l b = record b { lines = set b.lines i l; modified = true }

-- The edits, at a position that is clamped.
unfoldable pub insert_at : TextPos → Bytes → TextBuffer → TextPos × TextBuffer
insert_at at s b = if length s == 0 then (at, b) else (
  record { line = at.line; col = at.col + length s },
  write at.line (take at.col (line b at.line) ++ (s ++ drop at.col (line b at.line))) b,
)

unfoldable pub insert : TextPos → Bytes → TextBuffer → TextPos × TextBuffer
insert p s b = insert_at (clamp b p) s b

unfoldable pub split_at : TextPos → TextBuffer → TextPos × TextBuffer
split_at at b = (
  record { line = at.line + 1; col = 0 },
  record b {
    lines =
        take (suc at.line) (set b.lines at.line (take at.col (line b at.line)))
        ++ drop at.col (line b at.line)
          ∷ drop (suc at.line) (set b.lines at.line (take at.col (line b at.line)));
    modified = true;
  },
)

unfoldable pub split_line : TextPos → TextBuffer → TextPos × TextBuffer
split_line p b = split_at (clamp b p) b

-- `lines_[i] += lines_[i + 1]`, and the line `i + 1` is erased.
abbrev pub merge : ℕ → TextBuffer → TextBuffer
merge i b =
    let joined = set b.lines i (line b i ++ line b (suc i)) in
    record b { lines = take (suc i) joined ++ drop (suc (suc i)) joined; modified = true }

unfoldable pub erase_before_at : TextPos → TextBuffer → TextPos × TextBuffer
erase_before_at at b =
    if ltb 0 at.col
    then (
      record at { col = at.col - 1 },
      write at.line (take (at.col - 1) (line b at.line) ++ drop at.col (line b at.line)) b,
    )
    else if at.line == 0
    then (at, b)
    else (record { line = at.line - 1; col = length (line b (at.line - 1)) }, merge (at.line - 1) b)

unfoldable pub erase_before : TextPos → TextBuffer → TextPos × TextBuffer
erase_before p b = erase_before_at (clamp b p) b

unfoldable pub erase_at_clamped : TextPos → TextBuffer → TextPos × TextBuffer
erase_at_clamped at b =
    if ltb at.col (length (line b at.line))
    then (at, write at.line (take at.col (line b at.line) ++ drop (suc at.col) (line b at.line)) b)
    else if leb (length b.lines) (at.line + 1)
    then (at, b)
    else (at, merge at.line b)

unfoldable pub erase_at : TextPos → TextBuffer → TextPos × TextBuffer
erase_at p b = erase_at_clamped (clamp b p) b
