-- ===== src/Vt/Screen/Kept.antt =====
-- Printing, scrolling and erasing leave no half character on either page.
use sshos.Base.{
  ℕ, zero, suc, ◌+◌, ◌-◌, ◌*◌, ◌≤◌, ◌<◌, ◌≡◌, ◌≢◌, refl, ap, sym, ◌∙◌, subst, Bool, false, arith,
  leb, ltb, ◌==◌, ◌&&◌, not, inl, inr, ◌⊎◌, Bool-cases, replicate,
}
use sshos.Base.Access.{get_or-replicate_if}
use sshos.Base.Int.{ℤ, pos_part}
use sshos.Render.Width.{char_width, char_width_le}
use sshos.Vt.Charset.{translate}
use sshos.Vt.Cell.{ScreenCell, blank}
use sshos.Vt.Screen.{Screen, erased}
use sshos.Vt.Screen.Scroll.{feeds_history, scroll_up, scroll_down, keep_line}
use sshos.Vt.Screen.Cursor.{line_feed, reverse_index}
use sshos.Vt.Screen.Edit.{
  wrap, advance, write_cells, write, place, print, erase_row, erase_rows, erase_display, erase_line,
  insert_lines, delete_lines,
}
use sshos.Vt.Screen.Pages.{enter_alt_screen, leave_alt_screen}
use sshos.Vt.Screen.Redraw.{erase_span-Redraws, erase_rows-Redraws}
use sshos.Vt.Screen.Bounds.{IsValid, Redraws-IsValid, scroll_slice_up-Redraws}
use sshos.Vt.Screen.Invariant.{keep_line-IsValid, line_feed-IsValid, wrap-IsValid, at_cell}
use sshos.Vt.Screen.Cells.{widths, index_lt}
use sshos.Vt.Screen.Whole.{IsWhole}
use sshos.Vt.Screen.Halves.{
  HasPages, HasPages-if, HasPages-moved, Pairs-ones, slice_up-HasPages, slice_down-HasPages,
  erase_span-HasPages, keep_line-HasPages, write_cells-HasPages,
}

module _ (n m : ℕ) (s : Screen) (v : IsValid s) (p : HasPages n m s) where
  -- The cursor elsewhere.
  at_cell-HasPages :
      (x y : ℕ) (w : Bool) → HasPages n m (record s { cx = x; cy = y; wrap_pending = w })
  at_cell-HasPages x y w = HasPages-moved n m s _ refl refl refl refl refl p

  scroll_up-HasPages : HasPages n m (scroll_up s)
  unfolding scroll_up
  scroll_up-HasPages =
      let k = keep_line-IsValid s v in
      slice_up-HasPages n m (keep_line s) k (keep_line-HasPages n m s v p) s.top s.bottom 1 v.region
        (subst (λ r. s.bottom < r) (sym rows-keep_line) v.inside) (omega arith)
    where
      rows-keep_line : (keep_line s).rows ≡ s.rows
      rows-keep_line = elim (Bool-cases (feeds_history s)) [ inl e ↦ rw e refl | inr e ↦ rw e refl ]

  scroll_down-HasPages : HasPages n m (scroll_down s)
  unfolding scroll_down
  scroll_down-HasPages =
      slice_down-HasPages n m s v p s.top s.bottom 1 v.region v.inside (omega arith)

  pub insert_lines-HasPages : (k : ℤ) → HasPages n m (insert_lines k s)
  unfolding insert_lines
  insert_lines-HasPages k =
      HasPages-if n m _ _ _ (λ _. p)
        (λ e.
          slice_down-HasPages n m s v p s.cy s.bottom (pos_part k) (ground arith) v.inside
            (ground arith))

  pub delete_lines-HasPages : (k : ℤ) → HasPages n m (delete_lines k s)
  unfolding delete_lines
  delete_lines-HasPages k =
      HasPages-if n m _ _ _ (λ _. p)
        (λ e.
          slice_up-HasPages n m s v p s.cy s.bottom (pos_part k) (ground arith) v.inside
            (ground arith))

  pub erase_line-HasPages : (mode : ℕ) → HasPages n m (erase_line mode s)
  unfolding erase_line
  erase_line-HasPages mode =
      HasPages-if n m (mode == 0) _ _ (λ _. erase_span-HasPages n m s v p _ _ s.cy)
        (λ _.
          HasPages-if n m (mode == 1) _ _ (λ _. erase_span-HasPages n m s v p _ _ s.cy)
            (λ _.
              HasPages-if n m (mode == 2) _ _ (λ _. erase_span-HasPages n m s v p _ _ s.cy)
                (λ _. p)))

erase_rows-HasPages :
    (n m count y : ℕ) (s : Screen)
    → IsValid s
    → HasPages n m s
    → HasPages n m (erase_rows count y s)
unfolding erase_rows
erase_rows-HasPages n m zero y s v p = p
erase_rows-HasPages n m (suc count) y s v p =
    erase_rows-HasPages n m count (y + 1) (erase_row y s)
      (Redraws-IsValid s _ v (erase_span-Redraws _ _ y s)) (erase_span-HasPages n m s v p _ _ y)

pub line_feed-HasPages :
    (n m : ℕ) (s : Screen) → IsValid s → HasPages n m s → HasPages n m (line_feed s)
unfolding line_feed
line_feed-HasPages n m s v p =
    HasPages-if n m (s.cy == s.bottom) _ _
      (λ _.
        scroll_up-HasPages n m _ (at_cell s s.cx s.cy false v v.column v.line)
          (at_cell-HasPages n m s v p s.cx s.cy false))
      (λ _.
        HasPages-if n m (ltb (s.cy + 1) s.rows) _ _
          (λ _. at_cell-HasPages n m s v p s.cx (s.cy + 1) false)
          (λ _. at_cell-HasPages n m s v p s.cx s.cy false))

pub reverse_index-HasPages :
    (n m : ℕ) (s : Screen) → IsValid s → HasPages n m s → HasPages n m (reverse_index s)
unfolding reverse_index
reverse_index-HasPages n m s v p =
    HasPages-if n m (s.cy == s.top) _ _
      (λ _.
        scroll_down-HasPages n m _ (at_cell s s.cx s.cy false v v.column v.line)
          (at_cell-HasPages n m s v p s.cx s.cy false))
      (λ _.
        HasPages-if n m (ltb 0 s.cy) _ _ (λ _. at_cell-HasPages n m s v p s.cx (s.cy - 1) false)
          (λ _. at_cell-HasPages n m s v p s.cx s.cy false))

module _ (n m : ℕ) (s : Screen) (v : IsValid s) (p : HasPages n m s) where
  pub erase_display-HasPages : (mode : ℕ) → HasPages n m (erase_display mode s)
  unfolding erase_display
  erase_display-HasPages mode =
      HasPages-if n m (mode == 0) _ _
        (λ _.
          erase_rows-HasPages n m _ _ _ (Redraws-IsValid s _ v (erase_span-Redraws _ _ s.cy s))
            (erase_span-HasPages n m s v p _ _ s.cy))
        (λ _.
          HasPages-if n m (mode == 1) _ _
            (λ _.
              erase_span-HasPages n m (erase_rows s.cy 0 s)
                (Redraws-IsValid s _ v (erase_rows-Redraws s.cy 0 s))
                (erase_rows-HasPages n m s.cy 0 s v p) _ _ s.cy)
            (λ _.
              HasPages-if n m (mode == 2) _ _ (λ _. erase_rows-HasPages n m s.rows 0 s v p)
                (λ _. p)))

  wrap-HasPages : HasPages n m (wrap s)
  unfolding wrap
  wrap-HasPages =
      HasPages-if n m _ _ _
        (λ _.
          line_feed-HasPages n m _ (at_cell s 0 s.cy false v v.some_column v.line)
            (at_cell-HasPages n m s v p 0 s.cy false))
        (λ _. p)

advance-HasPages : (n m w : ℕ) (s : Screen) → HasPages n m s → HasPages n m (advance w s)
unfolding advance
advance-HasPages n m w s p =
    HasPages-if n m (leb s.cols (s.cx + w)) _ _
      (λ _. HasPages-moved n m s _ refl refl refl refl refl p)
      (λ _. HasPages-moved n m s _ refl refl refl refl refl p)

write-HasPages :
    (n m cp w : ℕ) (s : Screen)
    → IsValid s
    → HasPages n m s
    → s.cx + w ≤ n
    → (w ≡ 1) ⊎ (w ≡ 2)
    → HasPages n m (write cp w s)
write-HasPages n m cp w s v p fits one_or_two =
    advance-HasPages n m w (write_cells cp w s)
      (write_cells-HasPages n m s v p cp w fits one_or_two)

-- The column does not change.
cx-scroll_up : (s : Screen) → IsValid s → (scroll_up s).cx ≡ s.cx
unfolding scroll_up
cx-scroll_up s v =
    let k = keep_line s in
    ap (λ (t : Screen). t.cx)
      (scroll_slice_up-Redraws k (keep_line-IsValid s v).full s.top s.bottom 1).same
    ∙ elim (Bool-cases (feeds_history s)) [ inl e ↦ rw e refl | inr e ↦ rw e refl ]

cx-line_feed : (s : Screen) → IsValid s → (line_feed s).cx ≡ s.cx
unfolding line_feed
cx-line_feed s v = elim (Bool-cases (s.cy == s.bottom)) [
  | inl e ↦ rw e (cx-scroll_up _ (at_cell s s.cx s.cy false v v.column v.line))
  | inr e ↦
      rw e (elim (Bool-cases (ltb (s.cy + 1) s.rows)) [ inl f ↦ rw f refl | inr f ↦ rw f refl ])
]

pub place-HasPages :
    (n m cp w : ℕ) (s : Screen)
    → 1 < n
    → (w ≡ 1) ⊎ (w ≡ 2)
    → IsValid s
    → HasPages n m s
    → HasPages n m (place cp w s)
unfolding place
place-HasPages n m cp w s two_columns one_or_two v p =
    let c = p.columns in
    HasPages-if n m (w == 2 && leb s.cols (s.cx + 1)) _ _
      (λ e.
        HasPages-if n m s.autowrap _ _
          (λ _.
            let t = record s { cx = 0 } in
            let tv = at_cell s 0 s.cy s.wrap_pending v v.some_column v.line in
            write-HasPages n m cp w (line_feed t) (line_feed-IsValid t tv)
              (line_feed-HasPages n m t tv (at_cell-HasPages n m s v p 0 s.cy s.wrap_pending))
              (let z = cx-line_feed t tv in ground (arith, one_or_two)) one_or_two)
          (λ _. p))
      (λ e.
        write-HasPages n m cp w s v p (let h = v.column in ground (arith, one_or_two)) one_or_two)

width_cases : (w : ℕ) → w ≢ 0 → w ≤ 2 → (w ≡ 1) ⊎ (w ≡ 2)
width_cases w h k = ground arith

pub print-HasPages :
    (n m : ℕ) (ambiguous : Bool) (cp : ℕ) (s : Screen)
    → 1 < n
    → IsValid s
    → HasPages n m s
    → HasPages n m (print ambiguous cp s)
unfolding print
print-HasPages n m ambiguous cp s two_columns v p =
    let c = translate cp s.charset in
    let w = char_width ambiguous c in
    HasPages-if n m (w == 0) _ _ (λ _. p)
      λ e.
        place-HasPages n m c w (wrap s) two_columns
          (width_cases w (λ z. ground (arith, z)) (char_width_le ambiguous c)) (wrap-IsValid s v)
          (wrap-HasPages n m s v p)

pub blank_page-IsWhole :
    (n m : ℕ) (c : ScreenCell) → c.width ≡ 1 → IsWhole n m (replicate (n * m) c)
blank_page-IsWhole n m c e y hy = Pairs-ones n (widths n (replicate (n * m) c) y) λ u hu.
    ap (λ (d : ScreenCell). d.width) (get_or-replicate_if (n * m) c (y * n + u) blank)
    ∙ ground (arith, index_lt n m u y hu hy)

pub enter_alt_screen-HasPages :
    (n m : ℕ) (s : Screen) → HasPages n m s → HasPages n m (enter_alt_screen s)
unfolding enter_alt_screen
enter_alt_screen-HasPages n m s p =
    HasPages-if n m s.alt _ _ (λ _. p)
      λ _. record {
        columns = p.columns;
        lines = p.lines;
        shown =
            subst (λ k. IsWhole n m (replicate k (erased s)))
              (ap (λ t. t * m) (sym p.columns) ∙ ap (λ t. s.cols * t) (sym p.lines))
              (blank_page-IsWhole n m (erased s) refl);
        hidden = λ _. p.shown;
      }

pub leave_alt_screen-HasPages :
    (n m : ℕ) (s : Screen) → HasPages n m s → HasPages n m (leave_alt_screen s)
unfolding leave_alt_screen
leave_alt_screen-HasPages n m s p =
    HasPages-if n m (not s.alt) _ _ (λ _. p)
      λ e. record {
        columns = p.columns;
        lines = p.lines;
        shown = p.hidden (ground arith);
        hidden = λ a. cc;
      }
