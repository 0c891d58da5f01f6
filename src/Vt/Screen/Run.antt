-- ===== src/Vt/Screen/Run.antt =====
-- The calls that the terminal makes on its screen, in any order.
use sshos.Base.{ℕ, Bool, List, [], ◌∷◌}
use sshos.Base.Int.{ℤ}
use sshos.Render.Cell.{Style}
use sshos.Vt.Charset.{Charset}
use sshos.Vt.Screen.{Screen, SavedCursor}
use sshos.Vt.Screen.Cursor.{
  line_feed, carriage_return, backspace, tab, reverse_index, next_line, move_to, move_up, move_down,
  move_right, move_left, set_column, set_row, set_tab, clear_tab, clear_all_tabs, set_scroll_region,
  reset_scroll_region, cursor_of, save_cursor, restore_cursor, set_pen, set_charset, set_autowrap,
}
use sshos.Vt.Screen.Edit.{
  print, erase_display, erase_line, erase_chars, insert_chars, delete_chars, insert_lines,
  delete_lines,
}
use sshos.Vt.Screen.Pages.{resize, enter_alt_screen, leave_alt_screen}
use sshos.Vt.Screen.Redraw.{
  erase_display-Redraws, erase_line-Redraws, erase_span-Redraws, insert_chars-Redraws,
  delete_chars-Redraws,
}
use sshos.Vt.Screen.Bounds.{IsValid, Redraws-IsValid}
use sshos.Vt.Screen.Invariant.{
  line_feed-IsValid, carriage_return-IsValid, backspace-IsValid, tab-IsValid, reverse_index-IsValid,
  move_to-IsValid, move_left-IsValid, set_scroll_region-IsValid, reset_scroll_region-IsValid,
  restore_cursor-IsValid, set_tab-IsValid, clear_tab-IsValid, clear_all_tabs-IsValid,
  insert_lines-IsValid, delete_lines-IsValid, print-IsValid,
}
use sshos.Vt.Screen.Reshape.{resize-IsValid, enter_alt_screen-IsValid, leave_alt_screen-IsValid}

pub data Op : Type 0 where
  print_op : ℕ → Op
  line_feed_op carriage_return_op backspace_op tab_op reverse_index_op next_line_op : Op
  move_to_op : ℤ → ℤ → Op
  move_up_op move_down_op move_right_op move_left_op set_column_op set_row_op : ℤ → Op
  set_tab_op clear_tab_op clear_all_tabs_op : Op
  erase_display_op erase_line_op : ℕ → Op
  erase_chars_op insert_chars_op delete_chars_op insert_lines_op delete_lines_op : ℤ → Op
  set_scroll_region_op : ℤ → ℤ → Op
  reset_scroll_region_op save_cursor_op restore_cursor_op : Op
  enter_alt_op leave_alt_op : Op
  resize_op : ℤ → ℤ → Op
  set_pen_op : Style → Op
  set_charset_op : Charset → Op
  set_autowrap_op : Bool → Op

-- The style, the characters, the mode and the cursor that is saved are free.
restyled :
    (s : Screen) (style : Style) (charset : Charset) (on : Bool) (saved : SavedCursor)
    → IsValid s
    → IsValid (record s { pen = style; charset = charset; autowrap = on; saved = saved })
restyled s style charset on saved v = record {
  some_column = v.some_column;
  some_line = v.some_line;
  full = v.full;
  stops = v.stops;
  column = v.column;
  line = v.line;
  region = v.region;
  inside = v.inside;
  waiting = v.waiting;
  back_column = v.back_column;
  back_line = v.back_line;
  history = v.history;
}

module _ (ambiguous : Bool) where
  abbrev pub perform : Op → Screen → Screen
  perform (print_op cp) s = print ambiguous cp s
  perform line_feed_op s = line_feed s
  perform carriage_return_op s = carriage_return s
  perform backspace_op s = backspace s
  perform tab_op s = tab s
  perform reverse_index_op s = reverse_index s
  perform next_line_op s = next_line s
  perform (move_to_op x y) s = move_to x y s
  perform (move_up_op n) s = move_up n s
  perform (move_down_op n) s = move_down n s
  perform (move_right_op n) s = move_right n s
  perform (move_left_op n) s = move_left n s
  perform (set_column_op x) s = set_column x s
  perform (set_row_op y) s = set_row y s
  perform set_tab_op s = set_tab s
  perform clear_tab_op s = clear_tab s
  perform clear_all_tabs_op s = clear_all_tabs s
  perform (erase_display_op mode) s = erase_display mode s
  perform (erase_line_op mode) s = erase_line mode s
  perform (erase_chars_op n) s = erase_chars n s
  perform (insert_chars_op n) s = insert_chars n s
  perform (delete_chars_op n) s = delete_chars n s
  perform (insert_lines_op n) s = insert_lines n s
  perform (delete_lines_op n) s = delete_lines n s
  perform (set_scroll_region_op top bottom) s = set_scroll_region top bottom s
  perform reset_scroll_region_op s = reset_scroll_region s
  perform save_cursor_op s = save_cursor s
  perform restore_cursor_op s = restore_cursor s
  perform enter_alt_op s = enter_alt_screen s
  perform leave_alt_op s = leave_alt_screen s
  perform (resize_op cols rows) s = resize cols rows s
  perform (set_pen_op style) s = set_pen style s
  perform (set_charset_op charset) s = set_charset charset s
  perform (set_autowrap_op on) s = set_autowrap on s

  abbrev pub perform_all : List Op → Screen → Screen
  perform_all [] s = s
  perform_all (op ∷ ops) s = perform_all ops (perform op s)

  pub perform-IsValid : (op : Op) (s : Screen) → IsValid s → IsValid (perform op s)
  perform-IsValid (print_op cp) s v = print-IsValid ambiguous cp s v
  perform-IsValid line_feed_op s v = line_feed-IsValid s v
  perform-IsValid carriage_return_op s v = carriage_return-IsValid s v
  perform-IsValid backspace_op s v = backspace-IsValid s v
  perform-IsValid tab_op s v = tab-IsValid s v
  perform-IsValid reverse_index_op s v = reverse_index-IsValid s v
  perform-IsValid next_line_op s v =
      line_feed-IsValid (carriage_return s) (carriage_return-IsValid s v)
  perform-IsValid (move_to_op x y) s v = move_to-IsValid x y s v
  perform-IsValid (move_up_op n) s v = move_to-IsValid _ _ s v
  perform-IsValid (move_down_op n) s v = move_to-IsValid _ _ s v
  perform-IsValid (move_right_op n) s v = move_to-IsValid _ _ s v
  perform-IsValid (move_left_op n) s v = move_left-IsValid n s v
  perform-IsValid (set_column_op x) s v = move_to-IsValid _ _ s v
  perform-IsValid (set_row_op y) s v = move_to-IsValid _ _ s v
  perform-IsValid set_tab_op s v = set_tab-IsValid s v
  perform-IsValid clear_tab_op s v = clear_tab-IsValid s v
  perform-IsValid clear_all_tabs_op s v = clear_all_tabs-IsValid s v
  perform-IsValid (erase_display_op mode) s v = Redraws-IsValid s _ v (erase_display-Redraws mode s)
  perform-IsValid (erase_line_op mode) s v = Redraws-IsValid s _ v (erase_line-Redraws mode s)
  perform-IsValid (erase_chars_op n) s v = Redraws-IsValid s _ v (erase_span-Redraws _ _ s.cy s)
  perform-IsValid (insert_chars_op n) s v = Redraws-IsValid s _ v (insert_chars-Redraws n s)
  perform-IsValid (delete_chars_op n) s v = Redraws-IsValid s _ v (delete_chars-Redraws n s)
  perform-IsValid (insert_lines_op n) s v = insert_lines-IsValid n s v
  perform-IsValid (delete_lines_op n) s v = delete_lines-IsValid n s v
  perform-IsValid (set_scroll_region_op top bottom) s v = set_scroll_region-IsValid top bottom s v
  perform-IsValid reset_scroll_region_op s v = reset_scroll_region-IsValid s v
  perform-IsValid save_cursor_op s v =
      unfold save_cursor in restyled s s.pen s.charset s.autowrap (cursor_of s) v
  perform-IsValid restore_cursor_op s v = restore_cursor-IsValid s v
  perform-IsValid enter_alt_op s v = enter_alt_screen-IsValid s v
  perform-IsValid leave_alt_op s v = leave_alt_screen-IsValid s v
  perform-IsValid (resize_op cols rows) s v = resize-IsValid cols rows s v
  perform-IsValid (set_pen_op style) s v = restyled s style s.charset s.autowrap s.saved v
  perform-IsValid (set_charset_op charset) s v = restyled s s.pen charset s.autowrap s.saved v
  perform-IsValid (set_autowrap_op on) s v = restyled s s.pen s.charset on s.saved v

  -- From a valid screen, on a terminal of any size, any calls in any order leave the cursor and the
  -- region on the grid, the page, and the one that waits, in their size, the stops as many as the
  -- columns, and the history valid.
  pub perform_all-IsValid : (ops : List Op) (s : Screen) → IsValid s → IsValid (perform_all ops s)
  perform_all-IsValid [] s v = v
  perform_all-IsValid (op ∷ ops) s v =
      perform_all-IsValid ops (perform op s) (perform-IsValid op s v)
