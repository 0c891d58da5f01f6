-- ===== src/Vt/Screen/Cursor.antt =====
-- src/vt/screen.cpp: the cursor, the stops, the region that scrolls, and the cursor that is saved.
use sshos.Base.{
  ℕ, zero, suc, ◌+◌, ◌-◌, Bool, true, false, ◌&&◌, Option, length, get_or, set, replicate, min, ltb,
  ◌==◌, if◌then◌else◌,
}
use sshos.Base.Int.{ℤ, pos, pos_part, ◌+ℤ◌, ◌-ℤ◌, ltb_ℤ, max_ℤ, min_ℤ}
use sshos.Render.Cell.{Style}
use sshos.Vt.Charset.{Charset}
use sshos.Vt.Scrollback.{Scrollback}
use sshos.Vt.Screen.{Screen, SavedCursor}
use sshos.Vt.Screen.Scroll.{scroll_up, scroll_down}

-- `std::clamp(v, 0, high)`.
abbrev pub clamp_to : ℕ → ℤ → ℕ
clamp_to high v = min high (pos_part v)

unfoldable pub line_feed : Screen → Screen
line_feed s =
    if s.cy == s.bottom
    then scroll_up (record s { wrap_pending = false })
    else if ltb (s.cy + 1) s.rows
    then record s { wrap_pending = false; cy = s.cy + 1 }
    else record s { wrap_pending = false }

unfoldable pub carriage_return : Screen → Screen
carriage_return s = record s { wrap_pending = false; cx = 0 }

unfoldable pub backspace : Screen → Screen
backspace s =
    if s.wrap_pending
    then record s { wrap_pending = false }
    else if ltb 0 s.cx
    then record s { cx = s.cx - 1 }
    else s

-- The first of `count` columns from `x` that has a stop, or else the last column.
unfoldable pub next_stop : Screen → ℕ → ℕ → ℕ
next_stop s x zero = s.cols - 1
next_stop s x (suc count) =
    let rest = next_stop s (x + 1) count in if get_or s.tabs x false then x else rest

unfoldable pub tab : Screen → Screen
tab s = record s { wrap_pending = false; cx = next_stop s (s.cx + 1) (s.cols - (s.cx + 1)) }

abbrev pub index : Screen → Screen
index s = line_feed s

unfoldable pub reverse_index : Screen → Screen
reverse_index s =
    if s.cy == s.top
    then scroll_down (record s { wrap_pending = false })
    else if ltb 0 s.cy
    then record s { wrap_pending = false; cy = s.cy - 1 }
    else record s { wrap_pending = false }

abbrev pub next_line : Screen → Screen
next_line s = line_feed (carriage_return s)

unfoldable pub move_to : ℤ → ℤ → Screen → Screen
move_to x y s = record s {
  wrap_pending = false;
  cx = clamp_to (s.cols - 1) x;
  cy = clamp_to (s.rows - 1) y;
}

abbrev pub move_up : ℤ → Screen → Screen
move_up n s = move_to (pos s.cx) (pos s.cy -ℤ max_ℤ (pos 1) n) s

abbrev pub move_down : ℤ → Screen → Screen
move_down n s = move_to (pos s.cx) (pos s.cy +ℤ max_ℤ (pos 1) n) s

abbrev pub move_right : ℤ → Screen → Screen
move_right n s = move_to (pos s.cx +ℤ max_ℤ (pos 1) n) (pos s.cy) s

-- A pending wrap takes the first of the steps.
abbrev pub move_left : ℤ → Screen → Screen
move_left n s =
    if s.wrap_pending
    then move_to (pos s.cx -ℤ (max_ℤ (pos 1) n -ℤ pos 1)) (pos s.cy) s
    else move_to (pos s.cx -ℤ max_ℤ (pos 1) n) (pos s.cy) s

abbrev pub set_column : ℤ → Screen → Screen
set_column x s = move_to x (pos s.cy) s

abbrev pub set_row : ℤ → Screen → Screen
set_row y s = move_to (pos s.cx) y s

unfoldable pub set_tab : Screen → Screen
set_tab s = if ltb s.cx s.cols then record s { tabs = set s.tabs s.cx true } else s

unfoldable pub clear_tab : Screen → Screen
clear_tab s = if ltb s.cx s.cols then record s { tabs = set s.tabs s.cx false } else s

unfoldable pub clear_all_tabs : Screen → Screen
clear_all_tabs s = record s { tabs = replicate (length s.tabs) false }

-- A region of less than two lines is refused.
unfoldable pub set_scroll_region : ℤ → ℤ → Screen → Screen
set_scroll_region top bottom s =
    let t = max_ℤ (pos 0) top in
    let b = min_ℤ (pos s.rows -ℤ pos 1) bottom in
    if ltb_ℤ (b -ℤ t) (pos 1)
    then s
    else record s { top = pos_part t; bottom = pos_part b; cx = 0; cy = 0; wrap_pending = false }

unfoldable pub reset_scroll_region : Screen → Screen
reset_scroll_region s = record s {
  top = 0;
  bottom = s.rows - 1;
  cx = 0;
  cy = 0;
  wrap_pending = false;
}

-- The cursor as it is, to be kept.
abbrev pub cursor_of : Screen → SavedCursor
cursor_of s = record {
  x = s.cx;
  y = s.cy;
  wrap_pending = s.wrap_pending;
  style = s.pen;
  charset = s.charset;
}

unfoldable pub save_cursor : Screen → Screen
save_cursor s = record s { saved = cursor_of s }

unfoldable pub restore_cursor : Screen → Screen
restore_cursor s =
    let x = min (s.cols - 1) s.saved.x in
    record s {
      cx = x;
      cy = min (s.rows - 1) s.saved.y;
      wrap_pending = s.saved.wrap_pending && x == s.cols - 1;
      charset = s.saved.charset;
      pen = s.saved.style;
    }

abbrev pub set_pen : Style → Screen → Screen
set_pen style s = record s { pen = style }

abbrev pub set_charset : Charset → Screen → Screen
set_charset charset s = record s { charset = charset }

abbrev pub set_autowrap : Bool → Screen → Screen
set_autowrap on s = record s { autowrap = on }

abbrev pub set_scrollback : Option Scrollback → Screen → Screen
set_scrollback sb s = record s { scrollback = sb }
