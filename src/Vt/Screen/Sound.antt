-- ===== src/Vt/Screen/Sound.antt =====
-- Half characters, over any run of the screen's operations.
use sshos.Base.{ltb, ◌<◌, ◌≡◌, refl, Bool, List, [], ◌∷◌, arith}
use sshos.Base.Int.{ℤ, pos, ◌≤ℤ◌, ◌-ℤ◌, ltb_ℤ, min_ℤ, max_ℤ}
use sshos.Vt.Screen.{Screen}
use sshos.Vt.Screen.Cursor.{
  carriage_return, backspace, tab, move_to, set_tab, clear_tab, clear_all_tabs, set_scroll_region,
  reset_scroll_region, save_cursor, restore_cursor,
}
use sshos.Vt.Screen.Pages.{resize, fit}
use sshos.Vt.Screen.Bounds.{IsValid}
use sshos.Vt.Screen.Invariant.{carriage_return-IsValid}
use sshos.Vt.Screen.Halves.{HasPages, HasPages-if, HasPages-moved, erase_span-HasPages}
use sshos.Vt.Screen.Kept.{
  insert_lines-HasPages, delete_lines-HasPages, erase_line-HasPages, line_feed-HasPages,
  reverse_index-HasPages, erase_display-HasPages, print-HasPages, enter_alt_screen-HasPages,
  leave_alt_screen-HasPages,
}
use sshos.Vt.Screen.Cut.{IsPaired, IsPaired-of, resize-IsPaired}
use sshos.Vt.Screen.Run.{
  Op, backspace_op, carriage_return_op, clear_all_tabs_op, clear_tab_op, delete_chars_op,
  delete_lines_op, enter_alt_op, erase_chars_op, erase_display_op, erase_line_op, insert_chars_op,
  insert_lines_op, leave_alt_op, line_feed_op, move_down_op, move_left_op, move_right_op,
  move_to_op, move_up_op, next_line_op, perform, perform-IsValid, perform_all, print_op,
  reset_scroll_region_op, resize_op, restore_cursor_op, reverse_index_op, save_cursor_op,
  set_autowrap_op, set_charset_op, set_column_op, set_pen_op, set_row_op, set_scroll_region_op,
  set_tab_op, tab_op,
}

-- The operations but the two that shift the characters of a line; a new size has two columns.
abbrev pub IsTame : Op → Type 0
IsTame (insert_chars_op n) = ⊥
IsTame (delete_chars_op n) = ⊥
IsTame (resize_op cols rows) = pos 2 ≤ℤ cols
IsTame _ = Unit

abbrev pub AllTame : List Op → Type 0
AllTame [] = Unit
AllTame (op ∷ ops) = IsTame op × AllTame ops

pub record IsSound (s : Screen) : Type 0 where
  pub valid : IsValid s
  pub two_columns : 1 < s.cols
  pub paired : IsPaired s

abbrev Kept : Screen → Type 0
Kept t = (1 < t.cols) × IsPaired t

module _ (ambiguous : Bool) (s : Screen) (v : IsValid s) (p : IsPaired s) where
  -- An operation that leaves the pages alone.
  moved_pages :
      (t : Screen)
      → t.cols ≡ s.cols
      → t.rows ≡ s.rows
      → t.grid ≡ s.grid
      → t.parked ≡ s.parked
      → t.alt ≡ s.alt
      → HasPages s.cols s.rows t
  moved_pages t c r g k a = HasPages-moved s.cols s.rows s t c r g k a p

  move_to-HasPages : (x y : ℤ) → HasPages s.cols s.rows (move_to x y s)
  unfolding move_to
  move_to-HasPages x y = moved_pages _ refl refl refl refl refl

  backspace-HasPages : HasPages s.cols s.rows (backspace s)
  unfolding backspace
  backspace-HasPages =
      HasPages-if _ _ s.wrap_pending _ _ (λ _. moved_pages _ refl refl refl refl refl)
        (λ _.
          HasPages-if _ _ (ltb 0 s.cx) _ _ (λ _. moved_pages _ refl refl refl refl refl) (λ _. p))

  set_tab-HasPages : HasPages s.cols s.rows (set_tab s)
  unfolding set_tab
  set_tab-HasPages =
      HasPages-if _ _ (ltb s.cx s.cols) _ _ (λ _. moved_pages _ refl refl refl refl refl) (λ _. p)

  clear_tab-HasPages : HasPages s.cols s.rows (clear_tab s)
  unfolding clear_tab
  clear_tab-HasPages =
      HasPages-if _ _ (ltb s.cx s.cols) _ _ (λ _. moved_pages _ refl refl refl refl refl) (λ _. p)

  set_scroll_region-HasPages :
      (top bottom : ℤ) → HasPages s.cols s.rows (set_scroll_region top bottom s)
  unfolding set_scroll_region
  set_scroll_region-HasPages top bottom =
      HasPages-if _ _ (ltb_ℤ (min_ℤ (pos s.rows -ℤ pos 1) bottom -ℤ max_ℤ (pos 0) top) (pos 1)) _ _
        (λ _. p) (λ _. moved_pages _ refl refl refl refl refl)

  -- The new size has two columns at least.
  resize_columns : (cols rows : ℤ) → pos 2 ≤ℤ cols → 1 < s.cols → 1 < (resize cols rows s).cols
  unfolding resize fit
  resize_columns cols rows h w = ground arith

  keeps_pages : (t : Screen) → 1 < s.cols → HasPages s.cols s.rows t → Kept t
  keeps_pages t w q = (omega (arith, q.columns), IsPaired-of s.cols s.rows t q)

  -- One operation.
  tame-Kept : (op : Op) → 1 < s.cols → IsTame op → Kept (perform ambiguous op s)
  unfolding carriage_return tab clear_all_tabs reset_scroll_region save_cursor restore_cursor
  tame-Kept (print_op cp) w h = keeps_pages _ w (print-HasPages _ _ ambiguous cp s w v p)
  tame-Kept line_feed_op w h = keeps_pages _ w (line_feed-HasPages _ _ s v p)
  tame-Kept carriage_return_op w h = keeps_pages _ w (moved_pages _ refl refl refl refl refl)
  tame-Kept backspace_op w h = keeps_pages _ w (backspace-HasPages)
  tame-Kept tab_op w h = keeps_pages _ w (moved_pages _ refl refl refl refl refl)
  tame-Kept reverse_index_op w h = keeps_pages _ w (reverse_index-HasPages _ _ s v p)
  tame-Kept next_line_op w h = keeps_pages _ w (
      line_feed-HasPages _ _ (carriage_return s) (carriage_return-IsValid s v)
        (moved_pages _ refl refl refl refl refl))
  tame-Kept (move_to_op x y) w h = keeps_pages _ w (move_to-HasPages _ _)
  tame-Kept (move_up_op n) w h = keeps_pages _ w (move_to-HasPages _ _)
  tame-Kept (move_down_op n) w h = keeps_pages _ w (move_to-HasPages _ _)
  tame-Kept (move_right_op n) w h = keeps_pages _ w (move_to-HasPages _ _)
  tame-Kept (move_left_op n) w h =
      keeps_pages _ w
        (HasPages-if _ _ s.wrap_pending _ _ (λ _. move_to-HasPages _ _) (λ _. move_to-HasPages _ _))
  tame-Kept (set_column_op x) w h = keeps_pages _ w (move_to-HasPages _ _)
  tame-Kept (set_row_op y) w h = keeps_pages _ w (move_to-HasPages _ _)
  tame-Kept set_tab_op w h = keeps_pages _ w (set_tab-HasPages)
  tame-Kept clear_tab_op w h = keeps_pages _ w (clear_tab-HasPages)
  tame-Kept clear_all_tabs_op w h = keeps_pages _ w (moved_pages _ refl refl refl refl refl)
  tame-Kept (erase_display_op mode) w h = keeps_pages _ w (erase_display-HasPages _ _ s v p mode)
  tame-Kept (erase_line_op mode) w h = keeps_pages _ w (erase_line-HasPages _ _ s v p mode)
  tame-Kept (erase_chars_op n) w h = keeps_pages _ w (erase_span-HasPages _ _ s v p _ _ s.cy)
  tame-Kept (insert_chars_op n) w h = absurd h
  tame-Kept (delete_chars_op n) w h = absurd h
  tame-Kept (insert_lines_op n) w h = keeps_pages _ w (insert_lines-HasPages _ _ s v p n)
  tame-Kept (delete_lines_op n) w h = keeps_pages _ w (delete_lines-HasPages _ _ s v p n)
  tame-Kept (set_scroll_region_op top bottom) w h =
      keeps_pages _ w (set_scroll_region-HasPages top bottom)
  tame-Kept reset_scroll_region_op w h = keeps_pages _ w (moved_pages _ refl refl refl refl refl)
  tame-Kept save_cursor_op w h = keeps_pages _ w (moved_pages _ refl refl refl refl refl)
  tame-Kept restore_cursor_op w h = keeps_pages _ w (moved_pages _ refl refl refl refl refl)
  tame-Kept enter_alt_op w h = keeps_pages _ w (enter_alt_screen-HasPages _ _ s p)
  tame-Kept leave_alt_op w h = keeps_pages _ w (leave_alt_screen-HasPages _ _ s p)
  tame-Kept (resize_op cols rows) w h =
      (resize_columns cols rows h w, resize-IsPaired cols rows s v p)
  tame-Kept (set_pen_op style) w h = keeps_pages _ w (moved_pages _ refl refl refl refl refl)
  tame-Kept (set_charset_op charset) w h = keeps_pages _ w (moved_pages _ refl refl refl refl refl)
  tame-Kept (set_autowrap_op on) w h = keeps_pages _ w (moved_pages _ refl refl refl refl refl)

-- On a terminal of two columns or more, whatever is printed, erased, scrolled or moved, in whatever
-- order and size, and whichever page is shown: on both pages each first half of a wide character
-- has its second half to its right, and each second half its first to its left. The two operations
-- that shift the characters of a line, ICH and DCH, are left out.
pub perform_all-IsSound :
    (ambiguous : Bool) (ops : List Op) (s : Screen)
    → AllTame ops
    → IsSound s
    → IsSound (perform_all ambiguous ops s)
perform_all-IsSound ambiguous [] s h v = v
perform_all-IsSound ambiguous (op ∷ ops) s h v =
    let k : Kept (perform ambiguous op s) =
      tame-Kept ambiguous s v.valid v.paired op v.two_columns h.0 in
    perform_all-IsSound ambiguous ops (perform ambiguous op s) h.1
      (record { valid = perform-IsValid ambiguous op s v.valid; two_columns = k.0; paired = k.1 })
