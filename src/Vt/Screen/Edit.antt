-- ===== src/Vt/Screen/Edit.antt =====
-- src/vt/screen.cpp: `print`, the erasures and the edits. `ambiguous` is the global of width.cpp.
use sshos.Base.{
  ℕ, zero, suc, ◌+◌, ◌-◌, Bool, true, false, ◌&&◌, min, ltb, leb, ◌==◌, if◌then◌else◌, ◌||◌,
}
use sshos.Base.Int.{ℤ, pos, pos_part, ◌+ℤ◌, ◌-ℤ◌, ltb_ℤ, leb_ℤ, max_ℤ, min_ℤ}
use sshos.Render.Width.{char_width}
use sshos.Vt.Cell.{ScreenCell}
use sshos.Vt.Charset.{translate}
use sshos.Vt.Screen.{Screen, erased, at, put, clear_wide_at, break_wide_at}
use sshos.Vt.Screen.Scroll.{scroll_slice_up, scroll_slice_down}
use sshos.Vt.Screen.Cursor.{line_feed}

-- The wrap that waits is made when the next character comes, if the mode is on.
unfoldable pub wrap : Screen → Screen
wrap s =
    if s.wrap_pending && s.autowrap
    then line_feed (record s { wrap_pending = false; cx = 0 })
    else s

abbrev pub glyph : ℕ → ℕ → Screen → ScreenCell
glyph cp w s = record { ch = cp; width = w; style = s.pen }

unfoldable pub write_cells : ℕ → ℕ → Screen → Screen
write_cells cp w s =
    let s1 = clear_wide_at s.cx s.cy s in
    let s2 = if w == 2 && ltb (s.cx + 1) s.cols then clear_wide_at (s.cx + 1) s.cy s1 else s1 in
    let s3 = put s.cx s.cy (glyph cp w s) s2 in
    if w == 2 && ltb (s.cx + 1) s.cols then put (s.cx + 1) s.cy (glyph b' ' 0 s) s3 else s3

-- The cursor stays on the last column, and the wrap waits.
unfoldable pub advance : ℕ → Screen → Screen
advance w s =
    if leb s.cols (s.cx + w)
    then record s { cx = s.cols - 1; wrap_pending = true }
    else record s { cx = s.cx + w }

abbrev pub write : ℕ → ℕ → Screen → Screen
write cp w s = advance w (write_cells cp w s)

-- A wide character that does not fit goes down whole, or is not written.
unfoldable pub place : ℕ → ℕ → Screen → Screen
place cp w s =
    if w == 2 && leb s.cols (s.cx + 1)
    then (if s.autowrap then write cp w (line_feed (record s { cx = 0 })) else s)
    else write cp w s

unfoldable pub print : Bool → ℕ → Screen → Screen
print ambiguous cp s =
    let c = translate cp s.charset in
    let w = char_width ambiguous c in if w == 0 then s else place c w (wrap s)

-- `count` cells of the line `y` from the column `x`.
unfoldable pub erase_from : ℕ → ℕ → ℕ → Screen → Screen
erase_from zero x y s = s
erase_from (suc count) x y s = erase_from count (x + 1) y (put x y (erased s) s)

-- The cells from `x0` to `x1`, with the halves that stand outside.
unfoldable pub erase_cells : ℕ → ℕ → ℕ → Screen → Screen
erase_cells x0 x1 y s = erase_from (x1 + 1 - x0) x0 y (clear_wide_at x1 y (clear_wide_at x0 y s))

unfoldable pub erase_span : ℤ → ℤ → ℕ → Screen → Screen
erase_span x0 x1 y s =
    let lo = max_ℤ (pos 0) x0 in
    let hi = min_ℤ (pos s.cols -ℤ pos 1) x1 in
    if leb s.rows y || ltb_ℤ hi lo then s else erase_cells (pos_part lo) (pos_part hi) y s

abbrev pub erase_row : ℕ → Screen → Screen
erase_row y s = erase_span (pos 0) (pos s.cols -ℤ pos 1) y s

-- `count` lines from the line `y`.
unfoldable pub erase_rows : ℕ → ℕ → Screen → Screen
erase_rows zero y s = s
erase_rows (suc count) y s = erase_rows count (y + 1) (erase_row y s)

unfoldable pub erase_display : ℕ → Screen → Screen
erase_display mode s =
    if mode == 0
    then erase_rows (s.rows - (s.cy + 1)) (s.cy + 1)
        (erase_span (pos s.cx) (pos s.cols -ℤ pos 1) s.cy s)
    else if mode == 1
    then erase_span (pos 0) (pos s.cx) s.cy (erase_rows s.cy 0 s)
    else if mode == 2
    then erase_rows s.rows 0 s
    else s

unfoldable pub erase_line : ℕ → Screen → Screen
erase_line mode s =
    if mode == 0
    then erase_span (pos s.cx) (pos s.cols -ℤ pos 1) s.cy s
    else if mode == 1
    then erase_span (pos 0) (pos s.cx) s.cy s
    else if mode == 2
    then erase_row s.cy s
    else s

abbrev pub erase_chars : ℤ → Screen → Screen
erase_chars n s = erase_span (pos s.cx) (pos s.cx +ℤ n -ℤ pos 1) s.cy s

-- From right to left: `count` cells of the line `y` from the column `x`, moved `n` to the right.
unfoldable pub shift_right : ℕ → ℕ → ℕ → ℕ → Screen → Screen
shift_right zero x n y s = s
shift_right (suc count) x n y s =
    shift_right count x n y (put (x + count + n) y (at s (x + count) y) s)

-- From left to right: `count` cells of the line `y` come to the column `x` and those behind it.
unfoldable pub shift_left : ℕ → ℕ → ℕ → ℕ → Screen → Screen
shift_left zero x n y s = s
shift_left (suc count) x n y s = shift_left count (x + 1) n y (put x y (at s (x + n) y) s)

-- A first half that the shift has put in the last column has lost its second.
unfoldable pub mend_edge : ℕ → Screen → Screen
mend_edge y s = if (at s (s.cols - 1) y).width == 2 then put (s.cols - 1) y (erased s) s else s

unfoldable pub insert_chars : ℤ → Screen → Screen
insert_chars n s =
    let k = min (s.cols - s.cx) (pos_part n) in
    if leb_ℤ n (pos 0) || leb s.cols s.cx
    then s
    else mend_edge s.cy (
        erase_span (pos s.cx) (pos (s.cx + k) -ℤ pos 1) s.cy
          (shift_right (s.cols - s.cx - k) s.cx k s.cy (break_wide_at s.cx s.cy s)))

unfoldable pub delete_chars : ℤ → Screen → Screen
delete_chars n s =
    let k = min (s.cols - s.cx) (pos_part n) in
    if leb_ℤ n (pos 0) || leb s.cols s.cx
    then s
    else erase_span (pos (s.cols - k)) (pos s.cols -ℤ pos 1) s.cy (
        shift_left (s.cols - s.cx - k) s.cx k s.cy
          (break_wide_at (s.cx + k) s.cy (break_wide_at s.cx s.cy s)))

unfoldable pub insert_lines : ℤ → Screen → Screen
insert_lines n s =
    if leb_ℤ n (pos 0) || ltb s.cy s.top || ltb s.bottom s.cy
    then s
    else scroll_slice_down s.cy s.bottom (pos_part n) s

unfoldable pub delete_lines : ℤ → Screen → Screen
delete_lines n s =
    if leb_ℤ n (pos 0) || ltb s.cy s.top || ltb s.bottom s.cy
    then s
    else scroll_slice_up s.cy s.bottom (pos_part n) s
