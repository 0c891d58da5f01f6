-- ===== src/Vt/Screen.antt =====
-- src/vt/screen.hpp and src/vt/screen.cpp: the grid of a terminal, its cursor and its two pages.
-- The grid is the program's vector, row after row. Coordinates are never negative, and numbers here;
-- an `int` that a guest chooses is an integer. The history is the one that `set_scrollback` gives.
pub mod Scroll
pub mod Slices
pub mod Redraw
pub mod Bounds
pub mod Invariant
pub mod Reshape
pub mod Pairs
pub mod Cells
pub mod Whole
pub mod Turn
pub mod Halves
pub mod Kept
pub mod Cut
pub mod Sound
pub mod Waits
pub mod Parked
pub mod Lapses
pub mod Line
pub mod Run
pub mod Cursor
pub mod Edit
pub mod Pages
use sshos.Base.{
  ℕ, zero, suc, ◌+◌, ◌-◌, ◌*◌, ◌%◌, Bool, true, false, List, [], ◌∷◌, ◌++◌, Option, none, max,
  length, get_or, set, replicate, ltb, leb, ◌==◌, if◌then◌else◌, ◌||◌, ◌&&◌, not,
}
use sshos.Base.Int.{ℤ, pos_part}
use sshos.Render.Cell.{Style, plain}
use sshos.Vt.Cell.{ScreenCell, blank}
use sshos.Vt.Charset.{Charset, ascii}
use sshos.Vt.Scrollback.{Scrollback}

pub record SavedCursor : Type 0 where
  pub x : ℕ
  pub y : ℕ
  pub wrap_pending : Bool
  pub style : Style
  pub charset : Charset

abbrev pub no_cursor : SavedCursor
no_cursor = record { x = 0; y = 0; wrap_pending = false; style = plain; charset = ascii }

pub record Screen : Type 0 where
  pub cols : ℕ
  pub rows : ℕ
  pub grid : List ScreenCell
  pub tabs : List Bool
  pub cx : ℕ
  pub cy : ℕ
  pub wrap_pending : Bool
  pub top : ℕ
  pub bottom : ℕ
  pub autowrap : Bool
  pub charset : Charset
  pub pen : Style
  pub saved : SavedCursor
  pub alt : Bool
  pub parked : List ScreenCell
  pub parked_cursor : SavedCursor
  pub parked_decsc : SavedCursor
  pub scrollback : Option Scrollback

abbrev pub tab_stop : ℕ
tab_stop = 8

-- The stops of `count` columns from the column `x`.
unfoldable pub tabs_from : ℕ → ℕ → List Bool
tabs_from x zero = []
tabs_from x (suc count) = (not (x == 0) && x % tab_stop == 0) ∷ tabs_from (x + 1) count

abbrev pub reset_tabs : Screen → Screen
reset_tabs s = record s { tabs = tabs_from 0 s.cols }

abbrev pub new_screen : ℤ → ℤ → Screen
new_screen cols rows =
    let w = max 1 (pos_part cols) in
    let h = max 1 (pos_part rows) in
    reset_tabs (record {
      cols = w;
      rows = h;
      grid = replicate (w * h) blank;
      tabs = [];
      cx = 0;
      cy = 0;
      wrap_pending = false;
      top = 0;
      bottom = h - 1;
      autowrap = true;
      charset = ascii;
      pen = plain;
      saved = no_cursor;
      alt = false;
      parked = [];
      parked_cursor = no_cursor;
      parked_decsc = no_cursor;
      scrollback = none;
    })

abbrev pub erased : Screen → ScreenCell
erased s = record blank { style = record plain { bg = s.pen.bg } }

abbrev pub index_of : Screen → ℕ → ℕ → ℕ
index_of s x y = y * s.cols + x

abbrev pub cell : Screen → ℕ → ℕ → ScreenCell
cell s x y = get_or s.grid (index_of s x y) blank

-- A read outside the grid is a blank.
unfoldable pub at : Screen → ℕ → ℕ → ScreenCell
at s x y = if leb s.cols x || leb s.rows y then blank else cell s x y

-- `cell(x, y) = c`.
unfoldable pub put : ℕ → ℕ → ScreenCell → Screen → Screen
put x y c s = record s { grid = set s.grid (index_of s x y) c }

-- The other half of a wide character at this place is erased, not the place.
unfoldable pub clear_wide_at : ℕ → ℕ → Screen → Screen
clear_wide_at x y s =
    if (at s x y).width == 2 && ltb (x + 1) s.cols
    then put (x + 1) y (erased s) s
    else if (at s x y).width == 0 && ltb 0 x
    then put (x - 1) y (erased s) s
    else s

-- A wide character at this place is erased whole.
unfoldable pub break_wide_at : ℕ → ℕ → Screen → Screen
break_wide_at x y s =
    if (at s x y).width == 2 && ltb (x + 1) s.cols
    then put (x + 1) y (erased s) (put x y (erased s) s)
    else if (at s x y).width == 0 && ltb 0 x
    then put (x - 1) y (erased s) (put x y (erased s) s)
    else s
