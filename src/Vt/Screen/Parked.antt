-- ===== src/Vt/Screen/Parked.antt =====
-- The main page waits untouched while a full-screen application has the other one.
use sshos.Base.{◌*◌, ◌≡◌, ap, ◌∙◌, Bool, true, false, List, [], ◌∷◌, ◌||◌, ltb}
use sshos.Base.Int.{ℤ, pos, pos_part, ◌-ℤ◌, min_ℤ, max_ℤ, ltb_ℤ, leb_ℤ}
use sshos.Base.{not, replicate}
use sshos.Vt.Screen.{erased, no_cursor}
use sshos.Vt.Screen.{Screen, SavedCursor}
use sshos.Vt.Screen.Cursor.{
  carriage_return, backspace, tab, move_to, set_tab, clear_tab, clear_all_tabs, set_scroll_region,
  reset_scroll_region, cursor_of, save_cursor, restore_cursor,
}
use sshos.Vt.Screen.Edit.{insert_lines, delete_lines}
use sshos.Vt.Screen.Pages.{enter_alt_screen, leave_alt_screen}
use sshos.Vt.Screen.Redraw.{
  erase_span-Redraws, erase_display-Redraws, erase_line-Redraws, insert_chars-Redraws,
  delete_chars-Redraws,
}
use sshos.Vt.Screen.Run.{
  Op, backspace_op, carriage_return_op, clear_all_tabs_op, clear_tab_op, delete_chars_op,
  delete_lines_op, enter_alt_op, erase_chars_op, erase_display_op, erase_line_op, insert_chars_op,
  insert_lines_op, leave_alt_op, line_feed_op, move_down_op, move_left_op, move_right_op,
  move_to_op, move_up_op, next_line_op, perform, perform_all, print_op, reset_scroll_region_op,
  resize_op, restore_cursor_op, reverse_index_op, save_cursor_op, set_autowrap_op, set_charset_op,
  set_column_op, set_pen_op, set_row_op, set_scroll_region_op, set_tab_op, tab_op,
}
use sshos.Vt.Screen.Waits.{
  Waits, Waits-if, Waits-redrawn, Waits-trans, if_false, if_true, line_feed-Waits, loose,
  print-Waits, reverse_index-Waits, slice_down-Waits, slice_up-Waits,
}

-- The calls of an application between the entry and the exit, but a new size.
abbrev pub IsInner : Op → Type 0
IsInner leave_alt_op = ⊥
IsInner (resize_op cols rows) = ⊥
IsInner _ = Unit

abbrev pub AllInner : List Op → Type 0
AllInner [] = Unit
AllInner (op ∷ ops) = IsInner op × AllInner ops

module _ (ambiguous : Bool) (s : Screen) where
  free : Waits s s
  free = loose s _ _ _ _ _ _ _ _ _ _ _ _

  move_to-Waits : (x y : ℤ) → Waits s (move_to x y s)
  unfolding move_to
  move_to-Waits x y = loose s _ _ _ _ _ _ _ _ _ _ _ _

  backspace-Waits : Waits s (backspace s)
  unfolding backspace
  backspace-Waits =
      Waits-if s.wrap_pending s _ _ (loose s _ _ _ _ _ _ _ _ _ _ _ _)
        (Waits-if (ltb 0 s.cx) s _ _ (loose s _ _ _ _ _ _ _ _ _ _ _ _) free)

  set_tab-Waits : Waits s (set_tab s)
  unfolding set_tab
  set_tab-Waits = Waits-if (ltb s.cx s.cols) s _ _ (loose s _ _ _ _ _ _ _ _ _ _ _ _) free

  clear_tab-Waits : Waits s (clear_tab s)
  unfolding clear_tab
  clear_tab-Waits = Waits-if (ltb s.cx s.cols) s _ _ (loose s _ _ _ _ _ _ _ _ _ _ _ _) free

  set_scroll_region-Waits : (top bottom : ℤ) → Waits s (set_scroll_region top bottom s)
  unfolding set_scroll_region
  set_scroll_region-Waits top bottom =
      Waits-if (ltb_ℤ (min_ℤ (pos s.rows -ℤ pos 1) bottom -ℤ max_ℤ (pos 0) top) (pos 1)) s _ _ free
        (loose s _ _ _ _ _ _ _ _ _ _ _ _)

  insert_lines-Waits : (n : ℤ) → Waits s (insert_lines n s)
  unfolding insert_lines
  insert_lines-Waits n =
      Waits-if (leb_ℤ n (pos 0) || ltb s.cy s.top || ltb s.bottom s.cy) s _ _ free
        (slice_down-Waits s s.cy s.bottom (pos_part n))

  delete_lines-Waits : (n : ℤ) → Waits s (delete_lines n s)
  unfolding delete_lines
  delete_lines-Waits n =
      Waits-if (leb_ℤ n (pos 0) || ltb s.cy s.top || ltb s.bottom s.cy) s _ _ free
        (slice_up-Waits s s.cy s.bottom (pos_part n))

  enter_again-Waits : s.alt ≡ true → Waits s (enter_alt_screen s)
  unfolding enter_alt_screen
  enter_again-Waits e = record {
    page = kept (λ t. t.parked);
    cursor = kept (λ t. t.parked_cursor);
    decsc = kept (λ t. t.parked_decsc);
    alt = kept (λ t. t.alt);
    columns = kept (λ t. t.cols);
    lines = kept (λ t. t.rows);
  }
    where
      kept : {A : Type 0} (f : Screen → A) → f (enter_alt_screen s) ≡ f s
      kept f = ap f (if_true s.alt _ _ e)

  perform-Waits : (op : Op) → s.alt ≡ true → IsInner op → Waits s (perform ambiguous op s)
  unfolding carriage_return tab clear_all_tabs reset_scroll_region save_cursor restore_cursor
  perform-Waits (print_op cp) a h = print-Waits ambiguous cp s
  perform-Waits line_feed_op a h = line_feed-Waits s
  perform-Waits carriage_return_op a h = loose s _ _ _ _ _ _ _ _ _ _ _ _
  perform-Waits backspace_op a h = backspace-Waits
  perform-Waits tab_op a h = loose s _ _ _ _ _ _ _ _ _ _ _ _
  perform-Waits reverse_index_op a h = reverse_index-Waits s
  perform-Waits next_line_op a h =
      Waits-trans s (carriage_return s) _ (loose s _ _ _ _ _ _ _ _ _ _ _ _)
        (line_feed-Waits (carriage_return s))
  perform-Waits (move_to_op x y) a h = move_to-Waits _ _
  perform-Waits (move_up_op n) a h = move_to-Waits _ _
  perform-Waits (move_down_op n) a h = move_to-Waits _ _
  perform-Waits (move_right_op n) a h = move_to-Waits _ _
  perform-Waits (move_left_op n) a h =
      Waits-if s.wrap_pending s _ _ (move_to-Waits _ _) (move_to-Waits _ _)
  perform-Waits (set_column_op x) a h = move_to-Waits _ _
  perform-Waits (set_row_op y) a h = move_to-Waits _ _
  perform-Waits set_tab_op a h = set_tab-Waits
  perform-Waits clear_tab_op a h = clear_tab-Waits
  perform-Waits clear_all_tabs_op a h = loose s _ _ _ _ _ _ _ _ _ _ _ _
  perform-Waits (erase_display_op mode) a h = Waits-redrawn s _ (erase_display-Redraws mode s)
  perform-Waits (erase_line_op mode) a h = Waits-redrawn s _ (erase_line-Redraws mode s)
  perform-Waits (erase_chars_op n) a h = Waits-redrawn s _ (erase_span-Redraws _ _ s.cy s)
  perform-Waits (insert_chars_op n) a h = Waits-redrawn s _ (insert_chars-Redraws n s)
  perform-Waits (delete_chars_op n) a h = Waits-redrawn s _ (delete_chars-Redraws n s)
  perform-Waits (insert_lines_op n) a h = insert_lines-Waits n
  perform-Waits (delete_lines_op n) a h = delete_lines-Waits n
  perform-Waits (set_scroll_region_op top bottom) a h = set_scroll_region-Waits top bottom
  perform-Waits reset_scroll_region_op a h = loose s _ _ _ _ _ _ _ _ _ _ _ _
  perform-Waits save_cursor_op a h = loose s _ _ _ _ _ _ _ _ _ _ _ _
  perform-Waits restore_cursor_op a h = loose s _ _ _ _ _ _ _ _ _ _ _ _
  perform-Waits enter_alt_op a h = enter_again-Waits a
  perform-Waits leave_alt_op a h = absurd h
  perform-Waits (resize_op cols rows) a h = absurd h
  perform-Waits (set_pen_op style) a h = loose s _ _ _ _ _ _ _ _ _ _ _ _
  perform-Waits (set_charset_op charset) a h = loose s _ _ _ _ _ _ _ _ _ _ _ _
  perform-Waits (set_autowrap_op on) a h = loose s _ _ _ _ _ _ _ _ _ _ _ _

perform_all-Waits :
    (ambiguous : Bool) (ops : List Op) (s : Screen)
    → s.alt ≡ true
    → AllInner ops
    → Waits s (perform_all ambiguous ops s)
perform_all-Waits ambiguous [] s a h = free ambiguous s
perform_all-Waits ambiguous (op ∷ ops) s a h =
    let w = perform-Waits ambiguous s op a h.0 in
    Waits-trans s (perform ambiguous op s) _ w
      (perform_all-Waits ambiguous ops (perform ambiguous op s) (w.alt ∙ a) h.1)

-- Back on the main page: the grid, the cursor, its style and characters, the wrap that waits and
-- the cursor that DECSC saved are those of the entry.
pub record IsBack (s t : Screen) : Type 0 where
  pub grid : t.grid ≡ s.grid
  pub columns : t.cols ≡ s.cols
  pub lines : t.rows ≡ s.rows
  pub column : t.cx ≡ s.cx
  pub line : t.cy ≡ s.cy
  pub pending : t.wrap_pending ≡ s.wrap_pending
  pub pen : t.pen ≡ s.pen
  pub charset : t.charset ≡ s.charset
  pub saved : t.saved ≡ s.saved
  pub main : t.alt ≡ false

leave-IsBack :
    (s t : Screen)
    → s.alt ≡ false
    → Waits (enter_alt_screen s) t
    → t.alt ≡ true
    → IsBack s (leave_alt_screen t)
unfolding enter_alt_screen leave_alt_screen
leave-IsBack s t a w b = record {
  grid = left (λ u. u.grid) ∙ w.page ∙ entered (λ u. u.parked);
  columns = left (λ u. u.cols) ∙ w.columns ∙ entered (λ u. u.cols);
  lines = left (λ u. u.rows) ∙ w.lines ∙ entered (λ u. u.rows);
  column = left (λ u. u.cx) ∙ cursor (λ c. c.x);
  line = left (λ u. u.cy) ∙ cursor (λ c. c.y);
  pending = left (λ u. u.wrap_pending) ∙ cursor (λ c. c.wrap_pending);
  pen = left (λ u. u.pen) ∙ cursor (λ c. c.style);
  charset = left (λ u. u.charset) ∙ cursor (λ c. c.charset);
  saved = left (λ u. u.saved) ∙ w.decsc ∙ entered (λ u. u.parked_decsc);
  main = left (λ u. u.alt);
}
  where
    entered :
        {A : Type 0} (f : Screen → A)
        → f (enter_alt_screen s)
          ≡ f (record s {
            parked = s.grid;
            grid = replicate (s.cols * s.rows) (erased s);
            parked_cursor = cursor_of s;
            parked_decsc = s.saved;
            saved = no_cursor;
            alt = true;
          })
    entered f = ap f (if_false s.alt s _ a)

    left :
        {A : Type 0} (f : Screen → A)
        → f (leave_alt_screen t)
          ≡ f (record t {
            grid = t.parked;
            parked = t.grid;
            cx = t.parked_cursor.x;
            cy = t.parked_cursor.y;
            wrap_pending = t.parked_cursor.wrap_pending;
            pen = t.parked_cursor.style;
            charset = t.parked_cursor.charset;
            saved = t.parked_decsc;
            alt = false;
          })
    left f = ap f (if_false (not t.alt) t _ (ap not b))

    cursor : {A : Type 0} (f : SavedCursor → A) → f t.parked_cursor ≡ f (cursor_of s)
    cursor f = ap f w.cursor ∙ entered (λ u. f u.parked_cursor)

-- Whatever an application does between the entry and the exit, but a new size, the main page comes
-- back as it was at the entry, and with it the cursor, its style and characters, the wrap that
-- waits and the cursor that was saved.
pub leave-perform_all-enter :
    (ambiguous : Bool) (ops : List Op) (s : Screen)
    → s.alt ≡ false
    → AllInner ops
    → IsBack s (leave_alt_screen (perform_all ambiguous ops (enter_alt_screen s)))
leave-perform_all-enter ambiguous ops s a h =
    let e : (enter_alt_screen s).alt ≡ true =
      unfold enter_alt_screen in ap {A = Screen} (λ t. t.alt) (if_false s.alt _ _ a) in
    let w = perform_all-Waits ambiguous ops (enter_alt_screen s) e h in
    leave-IsBack s _ a w (w.alt ∙ e)
