-- ===== src/Vt/Screen/Invariant.antt =====
-- Every operation of the screen keeps its cursor on the grid, and the grid in its size.
use sshos.Base.{
  ℕ, zero, suc, ◌+◌, ◌-◌, ◌≤◌, ◌<◌, ◌≡◌, ◌∙◌, Bool, true, false, List, arith, length, leb, ltb,
  ◌==◌, ◌&&◌, min, Option, none, some, length-set, length-replicate,
}
use sshos.Base.Int.{ℤ, pos, pos_part, max_ℤ, min_ℤ, ◌-ℤ◌, sub_parts}
use sshos.Vt.Cell.{ScreenCell}
use sshos.Vt.Scrollback.{Scrollback}
use sshos.Vt.Scrollback.View.{push-IsValid}
use sshos.Render.Width.{char_width}
use sshos.Vt.Charset.{translate}
use sshos.Vt.Screen.{Screen}
use sshos.Vt.Screen.Scroll.{scroll_up, scroll_down, keep_line, push_to, row}
use sshos.Vt.Screen.Redraw.{write_cells-Redraws}
use sshos.Vt.Screen.Bounds.{
  HistoryIsValid, IsValid, IsValid-if, Redraws-IsValid, scroll_slice_up-Redraws,
  scroll_slice_down-Redraws,
}
use sshos.Vt.Screen.Cursor.{
  line_feed, carriage_return, backspace, next_stop, tab, reverse_index, move_to, move_left, set_tab,
  clear_tab, clear_all_tabs, set_scroll_region, reset_scroll_region, restore_cursor,
}
use sshos.Vt.Screen.Edit.{insert_lines, delete_lines, wrap, advance, place, print, write}

push_to-HistoryIsValid :
    (cells : List ScreenCell) (sb : Option Scrollback)
    → HistoryIsValid sb
    → HistoryIsValid (push_to cells sb)
push_to-HistoryIsValid cells none h = h
push_to-HistoryIsValid cells (some sb) h = push-IsValid cells sb h

pub keep_line-IsValid : (s : Screen) → IsValid s → IsValid (keep_line s)
keep_line-IsValid s v =
    IsValid-if _ _ _
      (λ _. record {
        some_column = v.some_column;
        some_line = v.some_line;
        full = v.full;
        stops = v.stops;
        column = v.column;
        line = v.line;
        region = v.region;
        inside = v.inside;
        waiting = v.waiting;
        back_column = v.back_column;
        back_line = v.back_line;
        history = push_to-HistoryIsValid (row s s.top) s.scrollback v.history;
      })
      (λ _. v)

pub scroll_up-IsValid : (s : Screen) → IsValid s → IsValid (scroll_up s)
unfolding scroll_up
scroll_up-IsValid s v =
    let k = keep_line-IsValid s v in
    Redraws-IsValid (keep_line s) _ k
      (scroll_slice_up-Redraws (keep_line s) k.full s.top s.bottom 1)

pub scroll_down-IsValid : (s : Screen) → IsValid s → IsValid (scroll_down s)
unfolding scroll_down
scroll_down-IsValid s v =
    Redraws-IsValid s _ v (scroll_slice_down-Redraws s v.full s.top s.bottom 1)

-- Another place of the cursor on the grid, and another region.
moved :
    (s : Screen) (x y top bottom : ℕ) (w : Bool)
    → IsValid s
    → x < s.cols
    → y < s.rows
    → top ≤ bottom
    → bottom < s.rows
    → IsValid (record s { cx = x; cy = y; top = top; bottom = bottom; wrap_pending = w })
moved s x y top bottom w v hx hy ht hb = record {
  some_column = v.some_column;
  some_line = v.some_line;
  full = v.full;
  stops = v.stops;
  column = hx;
  line = hy;
  region = ht;
  inside = hb;
  waiting = v.waiting;
  back_column = v.back_column;
  back_line = v.back_line;
  history = v.history;
}

pub at_cell :
    (s : Screen) (x y : ℕ) (w : Bool)
    → IsValid s
    → x < s.cols
    → y < s.rows
    → IsValid (record s { cx = x; cy = y; wrap_pending = w })
at_cell s x y w v hx hy = moved s x y s.top s.bottom w v hx hy v.region v.inside

pub line_feed-IsValid : (s : Screen) → IsValid s → IsValid (line_feed s)
unfolding line_feed
line_feed-IsValid s v =
    IsValid-if (s.cy == s.bottom) _ _
      (λ _. scroll_up-IsValid _ (at_cell s s.cx s.cy false v v.column v.line))
      λ _.
        IsValid-if (ltb (s.cy + 1) s.rows) _ _
          (λ room. at_cell s s.cx (s.cy + 1) false v v.column (ground arith))
          (λ _. at_cell s s.cx s.cy false v v.column v.line)

pub carriage_return-IsValid : (s : Screen) → IsValid s → IsValid (carriage_return s)
unfolding carriage_return
carriage_return-IsValid s v = at_cell s 0 s.cy false v v.some_column v.line

pub backspace-IsValid : (s : Screen) → IsValid s → IsValid (backspace s)
unfolding backspace
backspace-IsValid s v =
    IsValid-if (s.wrap_pending) _ _ (λ _. at_cell s s.cx s.cy false v v.column v.line)
      λ _.
        let h = v.column in
        IsValid-if (ltb 0 s.cx) _ _
          (λ _. at_cell s (s.cx - 1) s.cy s.wrap_pending v (omega arith) v.line) (λ _. v)

next_stop_lt :
    (s : Screen) (x count : ℕ) → 0 < s.cols → x + count ≤ s.cols → next_stop s x count < s.cols
unfolding next_stop
next_stop_lt s x zero h k = omega arith
next_stop_lt s x (suc count) h k = ground (arith, next_stop_lt s (x + 1) count h)

pub tab-IsValid : (s : Screen) → IsValid s → IsValid (tab s)
unfolding tab
tab-IsValid s v =
    let h = v.column in
    at_cell s _ s.cy false v
      (next_stop_lt s (s.cx + 1) (s.cols - (s.cx + 1)) v.some_column (omega arith)) v.line

pub reverse_index-IsValid : (s : Screen) → IsValid s → IsValid (reverse_index s)
unfolding reverse_index
reverse_index-IsValid s v =
    IsValid-if (s.cy == s.top) _ _
      (λ _. scroll_down-IsValid _ (at_cell s s.cx s.cy false v v.column v.line))
      λ _.
        let h = v.line in
        IsValid-if (ltb 0 s.cy) _ _ (λ _. at_cell s s.cx (s.cy - 1) false v v.column (omega arith))
          (λ _. at_cell s s.cx s.cy false v v.column v.line)

pub move_to-IsValid : (x y : ℤ) (s : Screen) → IsValid s → IsValid (move_to x y s)
unfolding move_to
move_to-IsValid x y s v =
    let a = v.some_column in
    let b = v.some_line in at_cell s _ _ false v (omega arith) (omega arith)

pub move_left-IsValid : (n : ℤ) (s : Screen) → IsValid s → IsValid (move_left n s)
move_left-IsValid n s v =
    IsValid-if s.wrap_pending _ _ (λ _. move_to-IsValid _ _ s v) (λ _. move_to-IsValid _ _ s v)

pub set_scroll_region-IsValid :
    (top bottom : ℤ) (s : Screen) → IsValid s → IsValid (set_scroll_region top bottom s)
unfolding set_scroll_region
set_scroll_region-IsValid top bottom s v =
    let t = max_ℤ (pos 0) top in
    let b = min_ℤ (pos s.rows -ℤ pos 1) bottom in
    let r = v.some_line in
    IsValid-if _ _ _ (λ _. v)
      λ kept.
        let m = sub_parts b t in
        let l = sub_parts (pos s.rows) (pos 1) in
        moved s 0 0 (pos_part t) (pos_part b) false v v.some_column v.some_line (ground arith)
          (ground arith)

pub reset_scroll_region-IsValid : (s : Screen) → IsValid s → IsValid (reset_scroll_region s)
unfolding reset_scroll_region
reset_scroll_region-IsValid s v =
    let r = v.some_line in
    moved s 0 0 0 (s.rows - 1) false v v.some_column v.some_line (omega arith) (omega arith)

pub restore_cursor-IsValid : (s : Screen) → IsValid s → IsValid (restore_cursor s)
unfolding restore_cursor
restore_cursor-IsValid s v =
    let a = v.some_column in
    let b = v.some_line in
    let r =
      at_cell s (min (s.cols - 1) s.saved.x) (min (s.rows - 1) s.saved.y)
        (s.saved.wrap_pending && min (s.cols - 1) s.saved.x == s.cols - 1) v (omega arith)
        (omega arith) in
    record {
      some_column = v.some_column;
      some_line = v.some_line;
      full = v.full;
      stops = v.stops;
      column = r.column;
      line = r.line;
      region = v.region;
      inside = v.inside;
      waiting = v.waiting;
      back_column = v.back_column;
      back_line = v.back_line;
      history = v.history;
    }

-- Other stops, as many.
pub restopped :
    (s : Screen) (tabs : List Bool)
    → IsValid s
    → length tabs ≡ s.cols
    → IsValid (record s { tabs = tabs })
restopped s tabs v h = record {
  some_column = v.some_column;
  some_line = v.some_line;
  full = v.full;
  stops = h;
  column = v.column;
  line = v.line;
  region = v.region;
  inside = v.inside;
  waiting = v.waiting;
  back_column = v.back_column;
  back_line = v.back_line;
  history = v.history;
}

pub set_tab-IsValid : (s : Screen) → IsValid s → IsValid (set_tab s)
unfolding set_tab
set_tab-IsValid s v =
    IsValid-if _ _ _ (λ _. restopped s _ v (length-set s.tabs s.cx true ∙ v.stops)) (λ _. v)

pub clear_tab-IsValid : (s : Screen) → IsValid s → IsValid (clear_tab s)
unfolding clear_tab
clear_tab-IsValid s v =
    IsValid-if _ _ _ (λ _. restopped s _ v (length-set s.tabs s.cx false ∙ v.stops)) (λ _. v)

pub clear_all_tabs-IsValid : (s : Screen) → IsValid s → IsValid (clear_all_tabs s)
unfolding clear_all_tabs
clear_all_tabs-IsValid s v = restopped s _ v (length-replicate (length s.tabs) false ∙ v.stops)

pub insert_lines-IsValid : (n : ℤ) (s : Screen) → IsValid s → IsValid (insert_lines n s)
unfolding insert_lines
insert_lines-IsValid n s v =
    IsValid-if _ _ _ (λ _. v)
      (λ _. Redraws-IsValid s _ v (scroll_slice_down-Redraws s v.full s.cy s.bottom (pos_part n)))

pub delete_lines-IsValid : (n : ℤ) (s : Screen) → IsValid s → IsValid (delete_lines n s)
unfolding delete_lines
delete_lines-IsValid n s v =
    IsValid-if _ _ _ (λ _. v)
      (λ _. Redraws-IsValid s _ v (scroll_slice_up-Redraws s v.full s.cy s.bottom (pos_part n)))

pub advance-IsValid : (w : ℕ) (s : Screen) → IsValid s → IsValid (advance w s)
unfolding advance
advance-IsValid w s v =
    let h = v.some_column in
    IsValid-if _ _ _ (λ _. at_cell s (s.cols - 1) s.cy true v (omega arith) v.line)
      (λ room. at_cell s (s.cx + w) s.cy s.wrap_pending v (ground arith) v.line)

pub write-IsValid : (cp w : ℕ) (s : Screen) → IsValid s → IsValid (write cp w s)
write-IsValid cp w s v = advance-IsValid w _ (Redraws-IsValid s _ v (write_cells-Redraws cp w s))

pub place-IsValid : (cp w : ℕ) (s : Screen) → IsValid s → IsValid (place cp w s)
unfolding place
place-IsValid cp w s v =
    IsValid-if (w == 2 && leb s.cols (s.cx + 1)) _ _
      (λ _.
        IsValid-if (s.autowrap) _ _
          (λ _.
            write-IsValid cp w _
              (line_feed-IsValid _ (at_cell s 0 s.cy s.wrap_pending v v.some_column v.line)))
          (λ _. v))
      (λ _. write-IsValid cp w s v)

pub wrap-IsValid : (s : Screen) → IsValid s → IsValid (wrap s)
unfolding wrap
wrap-IsValid s v =
    IsValid-if _ _ _ (λ _. line_feed-IsValid _ (at_cell s 0 s.cy false v v.some_column v.line))
      (λ _. v)

pub print-IsValid :
    (ambiguous : Bool) (cp : ℕ) (s : Screen) → IsValid s → IsValid (print ambiguous cp s)
unfolding print
print-IsValid ambiguous cp s v =
    let c = translate cp s.charset in
    let w = char_width ambiguous c in
    IsValid-if (w == 0) _ _ (λ _. v) (λ _. place-IsValid c w (wrap s) (wrap-IsValid s v))
