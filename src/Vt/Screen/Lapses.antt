-- ===== src/Vt/Screen/Lapses.antt =====
-- Where the screen does not do what it means to: a wrap that outlives its width, and a character
-- that ICH erases after it has been shifted.
use sshos.Base.{
  ℕ, zero, suc, ◌+◌, ◌-◌, ◌≤◌, ◌<◌, ◌≡◌, refl, sym, ap, ◌∙◌, true, false, arith, inl, inr,
  Bool-cases, ◌==◌, ◌||◌, leb, min,
}
use sshos.Base.Int.{ℤ, pos, pos_part, ◌≤ℤ◌, ◌-ℤ◌, leb_ℤ, ltb_ℤ, max_ℤ, min_ℤ, sub_parts, zero_part}
use sshos.Vt.Cell.{ScreenCell}
use sshos.Vt.Screen.{Screen, cell, erased, at, put, clear_wide_at, break_wide_at}
use sshos.Vt.Screen.Edit.{shift_right, erase_span, erase_cells, mend_edge, insert_chars}
use sshos.Vt.Screen.Pages.{enter_alt_screen, leave_alt_screen, resize, fit, reshape_pages}
use sshos.Vt.Screen.Bounds.{IsValid}
use sshos.Vt.Screen.Redraw.{
  put-Redraws, shift_right-Redraws, erase_cells-Redraws, mend_edge-Redraws,
}
use sshos.Vt.Screen.Whole.{at_on, clear_narrow, On, Redraws-On, put_on, erase_on}
use sshos.Vt.Screen.Cells.{widths, page}

-- A wrap waits in the last column of the main page; a full-screen application is entered, the
-- terminal gets more columns, and the application is left. The wrap still waits, and the cursor,
-- back in its old column, is no longer in the last one.
pub leave-resize-enter_pending :
    (cols rows : ℤ) (s : Screen)
    → s.alt ≡ false
    → s.wrap_pending ≡ true
    → s.cx + 1 ≡ s.cols
    → pos (s.cols + 1) ≤ℤ cols
    → let t = leave_alt_screen (resize cols rows (enter_alt_screen s)) in
      (t.wrap_pending ≡ true) × (t.cx ≡ s.cx) × (t.cx + 1 < t.cols)
unfolding enter_alt_screen leave_alt_screen resize fit reshape_pages
leave-resize-enter_pending cols rows s a w c more = ground arith

module _ (n m : ℕ) (t : Screen) (o : On n m t) (x y : ℕ) (hx : x < n) (hy : y < m) where
  clear_right :
      widths n t.grid y x ≡ 2 → x + 1 < n → clear_wide_at x y t ≡ put (x + 1) y (erased t) t
  unfolding clear_wide_at
  clear_right e k = let a = at_on n m t o x y hx hy in let c = o.columns in ground arith

  break_narrow : widths n t.grid y x ≡ 1 → break_wide_at x y t ≡ t
  unfolding break_wide_at
  break_narrow e = let a = at_on n m t o x y hx hy in ground arith

  -- An erased cell stays so.
  mend_erased : page n t.grid x y ≡ erased t → page n (mend_edge y t).grid x y ≡ erased t
  unfolding mend_edge
  mend_erased e = elim (Bool-cases ((at t (t.cols - 1) y).width == 2)) [
    | inl f ↦ rw f (
        put_on n m t o (t.cols - 1) y (erased t) x y (omega (arith, o.columns)) hy hx
        ∙ ground (arith, e))
    | inr f ↦ rw f e
  ]

-- The cells that a shift reads stay what they are until they are written.
page-shift_right_before :
    (n m count x k y u : ℕ) (s : Screen)
    → On n m s
    → x + count + k ≤ n
    → y < m
    → u < x + k
    → page n (shift_right count x k y s).grid u y ≡ page n s.grid u y
unfolding shift_right
page-shift_right_before n m zero x k y u s o hx hy hu = refl
page-shift_right_before n m (suc count) x k y u s o hx hy hu =
    let c = at s (x + count) y in
    let t = put (x + count + k) y c s in
    page-shift_right_before n m count x k y u t
      (Redraws-On n m s t o (put-Redraws (x + count + k) y c s)) (omega arith) hy hu
    ∙ put_on n m s o (x + count + k) y c u y (omega arith) hy (omega arith)
    ∙ ground arith

-- A span whose right end is a first half takes the cell behind it too.
erase_cells_spill :
    (n m : ℕ) (t : Screen) (x0 x1 y : ℕ)
    → On n m t
    → x0 ≤ x1
    → x1 + 1 < n
    → y < m
    → widths n t.grid y x0 ≡ 1
    → widths n t.grid y x1 ≡ 2
    → page n (erase_cells x0 x1 y t).grid (x1 + 1) y ≡ erased t
unfolding erase_cells
erase_cells_spill n m t x0 x1 y o l hx hy narrow wide =
    let u = put (x1 + 1) y (erased t) t in
    let ou = Redraws-On n m t u o (put-Redraws (x1 + 1) y (erased t) t) in
    rw
      (
        clear_narrow n m t o x0 y (omega arith) hy narrow,
        clear_right n m t o x1 y (omega arith) hy wide hx,
      )
      (erase_on n m u ou (x1 + 1 - x0) x0 y (x1 + 1) y (omega arith) hy hx
        ∙ ground (arith, put_on n m t o (x1 + 1) y (erased t) (x1 + 1) y hx hy hx))

erase_span-erase_cells :
    (n m : ℕ) (t : Screen) (x0 x1 b y : ℕ)
    → On n m t
    → b ≡ x1 + 1
    → x0 ≤ x1
    → x1 < n
    → y < m
    → erase_span (pos x0) (pos b -ℤ pos 1) y t ≡ erase_cells x0 x1 y t
unfolding erase_span
erase_span-erase_cells n m t x0 x1 b y o e l hx hy =
    let lo = max_ℤ (pos 0) (pos x0) in
    let hi = min_ℤ (pos t.cols -ℤ pos 1) (pos b -ℤ pos 1) in
    let p = sub_parts (pos b) (pos 1) in
    let q = sub_parts (pos t.cols) (pos 1) in
    let c = o.columns in
    let r = o.lines in
    let z = zero_part (pos b -ℤ pos 1) in
    let z' = zero_part (pos t.cols -ℤ pos 1) in
    let a : pos_part lo ≡ x0 = ground arith in
    let d : pos_part hi ≡ x1 = ground arith in
    let inside : (leb t.rows y || ltb_ℤ hi lo) ≡ false = ground arith in rw (inside, a, d) refl

-- ICH at a narrow character, where the last of the cells that it opens was the first half of a wide
-- character: the cell where the narrow character has been shifted to is erased.
pub insert_chars_loses :
    (s : Screen) (k : ℕ)
    → IsValid s
    → 1 < k
    → s.cx + k < s.cols
    → (cell s s.cx s.cy).width ≡ 1
    → (cell s (s.cx + k - 1) s.cy).width ≡ 2
    → cell (insert_chars (pos k) s) (s.cx + k) s.cy ≡ erased s
insert_chars_loses s k v many room narrow wide =
    let n = s.cols in
    let y = s.cy in
    let o : On n s.rows s = record { columns = refl; lines = refl; full = v.full } in
    let t = shift_right (s.cols - s.cx - k) s.cx k y s in
    let ot = Redraws-On n s.rows s t o (shift_right-Redraws (s.cols - s.cx - k) s.cx k y s) in
    let u = erase_cells s.cx (s.cx + k - 1) y t in
    let ou = Redraws-On n s.rows t u ot (erase_cells-Redraws s.cx (s.cx + k - 1) y t) in
    let before : (x : ℕ) → x < s.cx + k → widths n t.grid y x ≡ widths n s.grid y x = λ x hx.
      ap (λ (c : ScreenCell). c.width)
        (page-shift_right_before n s.rows (s.cols - s.cx - k) s.cx k y x s o (omega arith) v.line
          hx) in
    let spilled : page n u.grid (s.cx + k) y ≡ erased t =
      ap (λ j. page n u.grid j y) {x = s.cx + k} {y = s.cx + k - 1 + 1} (omega arith)
      ∙ erase_cells_spill n s.rows t s.cx (s.cx + k - 1) y ot (omega arith) (omega arith) v.line
          (before s.cx (omega arith) ∙ narrow) (before (s.cx + k - 1) (omega arith) ∙ wide) in
    let same_t : erased t ≡ erased s =
      ap (λ (r : Screen). erased r) (shift_right-Redraws (s.cols - s.cx - k) s.cx k y s).same in
    let same_u : erased u ≡ erased t =
      ap (λ (r : Screen). erased r) (erase_cells-Redraws s.cx (s.cx + k - 1) y t).same in
    let done : insert_chars (pos k) s ≡ mend_edge y u = shape n o ot in
    ap (λ (r : Screen). page r.cols r.grid (s.cx + k) y) {x = insert_chars (pos k) s} done
    ∙ ap (λ j. page j (mend_edge y u).grid (s.cx + k) y)
        (Redraws-On n s.rows u (mend_edge y u) ou (mend_edge-Redraws y u)).columns
    ∙ mend_erased n s.rows u ou (s.cx + k) y room v.line (spilled ∙ sym same_u)
    ∙ same_u
    ∙ same_t
  where
    shape :
        (n : ℕ)
        → On n s.rows s
        → On n s.rows (shift_right (s.cols - s.cx - k) s.cx k s.cy s)
        → insert_chars (pos k) s
          ≡ mend_edge s.cy
              (erase_cells s.cx (s.cx + k - 1) s.cy (shift_right (s.cols - s.cx - k) s.cx k s.cy s))
    shape n o ot =
        let c = o.columns in
        let h : (leb_ℤ (pos k) (pos 0) || leb s.cols s.cx) ≡ false = ground arith in
        let e : min (s.cols - s.cx) (pos_part (pos k)) ≡ k = omega arith in
        unfold insert_chars in
        rw (h, e, break_narrow n s.rows s o s.cx s.cy (omega arith) v.line (rw (← c) narrow))
          (ap (mend_edge s.cy) (
            erase_span-erase_cells n s.rows (shift_right (s.cols - s.cx - k) s.cx k s.cy s) s.cx
              (s.cx + k - 1) (s.cx + k) s.cy ot (omega arith) (omega arith) (omega arith) v.line))
