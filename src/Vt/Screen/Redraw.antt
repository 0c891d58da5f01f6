-- ===== src/Vt/Screen/Redraw.antt =====
-- The operations that write cells and leave the rest of the state alone.
use sshos.Base.{
  min, ℕ, zero, suc, ◌+◌, ◌-◌, ◌≡◌, refl, ap, ◌∙◌, length, length-set, Bool, true, false,
  if◌then◌else◌, ◌==◌, ltb, ◌&&◌,
}
use sshos.Base.Int.{ℤ, pos, pos_part, ◌-ℤ◌}
use sshos.Vt.Cell.{ScreenCell}
use sshos.Vt.Screen.{Screen, erased, at, put, clear_wide_at, break_wide_at}
use sshos.Vt.Screen.Edit.{
  write_cells, glyph, erase_from, erase_cells, erase_span, erase_rows, erase_row, erase_display,
  erase_line, shift_right, shift_left, mend_edge, insert_chars, delete_chars,
}

-- `t` is `s` with another grid of the same size.
pub record Redraws (s t : Screen) : Type 0 where
  pub same : t ≡ record s { grid = t.grid }
  pub size : length t.grid ≡ length s.grid

pub Redraws-self : (s : Screen) → Redraws s s
Redraws-self s = record { same = refl; size = refl }

pub Redraws-trans : (s t u : Screen) → Redraws s t → Redraws t u → Redraws s u
Redraws-trans s t u p q = record {
  same = q.same ∙ ap {A = Screen} (λ r. record r { grid = u.grid }) p.same;
  size = q.size ∙ p.size;
}

-- A test chooses between two of them.
pub Redraws-if :
    (b : Bool) (s t u : Screen) → Redraws s t → Redraws s u → Redraws s (if b then t else u)
Redraws-if true s t u h k = h
Redraws-if false s t u h k = k

pub put-Redraws : (x y : ℕ) (c : ScreenCell) (s : Screen) → Redraws s (put x y c s)
unfolding put
put-Redraws x y c s = record { same = refl; size = length-set s.grid _ c }

pub clear_wide_at-Redraws : (x y : ℕ) (s : Screen) → Redraws s (clear_wide_at x y s)
unfolding clear_wide_at
clear_wide_at-Redraws x y s =
    Redraws-if _ s _ _ (put-Redraws (x + 1) y _ s)
      (Redraws-if _ s _ _ (put-Redraws (x - 1) y _ s) (Redraws-self s))

put-put-Redraws : (x y v : ℕ) (c : ScreenCell) (s : Screen) → Redraws s (put v y c (put x y c s))
put-put-Redraws x y v c s =
    Redraws-trans s (put x y c s) _ (put-Redraws x y c s) (put-Redraws v y c (put x y c s))

pub break_wide_at-Redraws : (x y : ℕ) (s : Screen) → Redraws s (break_wide_at x y s)
unfolding break_wide_at
break_wide_at-Redraws x y s =
    Redraws-if _ s _ _ (put-put-Redraws x y (x + 1) _ s)
      (Redraws-if _ s _ _ (put-put-Redraws x y (x - 1) _ s) (Redraws-self s))

pub write_cells-Redraws : (cp w : ℕ) (s : Screen) → Redraws s (write_cells cp w s)
unfolding write_cells
write_cells-Redraws cp w s =
    let s1 = clear_wide_at s.cx s.cy s in
    let wide = w == 2 && ltb (s.cx + 1) s.cols in
    let s2 = if wide then clear_wide_at (s.cx + 1) s.cy s1 else s1 in
    let s3 = put s.cx s.cy (glyph cp w s) s2 in
    let r1 : Redraws s s1 = clear_wide_at-Redraws s.cx s.cy s in
    let r2 : Redraws s s2 =
      Redraws-if wide s _ _ (Redraws-trans s s1 _ r1 (clear_wide_at-Redraws (s.cx + 1) s.cy s1))
        r1 in
    let r3 : Redraws s s3 = Redraws-trans s s2 s3 r2 (put-Redraws s.cx s.cy _ s2) in
    Redraws-if wide s _ _ (Redraws-trans s s3 _ r3 (put-Redraws (s.cx + 1) s.cy _ s3)) r3

pub erase_from-Redraws : (count x y : ℕ) (s : Screen) → Redraws s (erase_from count x y s)
unfolding erase_from
erase_from-Redraws zero x y s = Redraws-self s
erase_from-Redraws (suc count) x y s =
    Redraws-trans s (put x y (erased s) s) _ (put-Redraws x y _ s)
      (erase_from-Redraws count (x + 1) y (put x y (erased s) s))

pub erase_cells-Redraws : (x0 x1 y : ℕ) (s : Screen) → Redraws s (erase_cells x0 x1 y s)
unfolding erase_cells
erase_cells-Redraws x0 x1 y s =
    let s1 = clear_wide_at x0 y s in
    let s2 = clear_wide_at x1 y s1 in
    Redraws-trans s s1 _ (clear_wide_at-Redraws x0 y s) (
      Redraws-trans s1 s2 _ (clear_wide_at-Redraws x1 y s1)
        (erase_from-Redraws (x1 + 1 - x0) x0 y s2))

pub erase_span-Redraws : (x0 x1 : ℤ) (y : ℕ) (s : Screen) → Redraws s (erase_span x0 x1 y s)
unfolding erase_span
erase_span-Redraws x0 x1 y s = Redraws-if _ s _ _ (Redraws-self s) (erase_cells-Redraws _ _ y s)

pub erase_rows-Redraws : (count y : ℕ) (s : Screen) → Redraws s (erase_rows count y s)
unfolding erase_rows
erase_rows-Redraws zero y s = Redraws-self s
erase_rows-Redraws (suc count) y s =
    Redraws-trans s (erase_row y s) _ (erase_span-Redraws _ _ y s)
      (erase_rows-Redraws count (y + 1) (erase_row y s))

pub erase_display-Redraws : (mode : ℕ) (s : Screen) → Redraws s (erase_display mode s)
unfolding erase_display
erase_display-Redraws mode s =
    Redraws-if _ s _ _
      (Redraws-trans s (erase_span _ _ s.cy s) _ (erase_span-Redraws _ _ s.cy s)
        (erase_rows-Redraws _ _ (erase_span _ _ s.cy s)))
      (Redraws-if _ s _ _
        (Redraws-trans s (erase_rows s.cy 0 s) _ (erase_rows-Redraws s.cy 0 s)
          (erase_span-Redraws _ _ s.cy (erase_rows s.cy 0 s)))
        (Redraws-if _ s _ _ (erase_rows-Redraws s.rows 0 s) (Redraws-self s)))

pub erase_line-Redraws : (mode : ℕ) (s : Screen) → Redraws s (erase_line mode s)
unfolding erase_line
erase_line-Redraws mode s = Redraws-if (mode == 0) s _ _ (erase_span-Redraws _ _ s.cy s) (
    Redraws-if (mode == 1) s _ _ (erase_span-Redraws _ _ s.cy s)
      (Redraws-if (mode == 2) s _ _ (erase_span-Redraws _ _ s.cy s) (Redraws-self s)))

pub shift_right-Redraws : (count x n y : ℕ) (s : Screen) → Redraws s (shift_right count x n y s)
unfolding shift_right
shift_right-Redraws zero x n y s = Redraws-self s
shift_right-Redraws (suc count) x n y s =
    let s1 = put (x + count + n) y (at s (x + count) y) s in
    Redraws-trans s s1 _ (put-Redraws _ y _ s) (shift_right-Redraws count x n y s1)

pub shift_left-Redraws : (count x n y : ℕ) (s : Screen) → Redraws s (shift_left count x n y s)
unfolding shift_left
shift_left-Redraws zero x n y s = Redraws-self s
shift_left-Redraws (suc count) x n y s =
    let s1 = put x y (at s (x + n) y) s in
    Redraws-trans s s1 _ (put-Redraws x y _ s) (shift_left-Redraws count (x + 1) n y s1)

pub mend_edge-Redraws : (y : ℕ) (s : Screen) → Redraws s (mend_edge y s)
unfolding mend_edge
mend_edge-Redraws y s = Redraws-if _ s _ _ (put-Redraws (s.cols - 1) y _ s) (Redraws-self s)

pub insert_chars-Redraws : (n : ℤ) (s : Screen) → Redraws s (insert_chars n s)
unfolding insert_chars
insert_chars-Redraws n s =
    let k = min (s.cols - s.cx) (pos_part n) in
    let s1 = break_wide_at s.cx s.cy s in
    let s2 = shift_right (s.cols - s.cx - k) s.cx k s.cy s1 in
    let s3 = erase_span (pos s.cx) (pos (s.cx + k) -ℤ pos 1) s.cy s2 in
    Redraws-if _ s _ _ (Redraws-self s) (
      Redraws-trans s s1 _ (break_wide_at-Redraws s.cx s.cy s) (
        Redraws-trans s1 s2 _ (shift_right-Redraws _ s.cx k s.cy s1)
          (Redraws-trans s2 s3 _ (erase_span-Redraws _ _ s.cy s2) (mend_edge-Redraws s.cy s3))))

pub delete_chars-Redraws : (n : ℤ) (s : Screen) → Redraws s (delete_chars n s)
unfolding delete_chars
delete_chars-Redraws n s =
    let k = min (s.cols - s.cx) (pos_part n) in
    let s1 = break_wide_at s.cx s.cy s in
    let s2 = break_wide_at (s.cx + k) s.cy s1 in
    let s3 = shift_left (s.cols - s.cx - k) s.cx k s.cy s2 in
    Redraws-if _ s _ _ (Redraws-self s) (
      Redraws-trans s s1 _ (break_wide_at-Redraws s.cx s.cy s) (
        Redraws-trans s1 s2 _ (break_wide_at-Redraws _ s.cy s1) (
          Redraws-trans s2 s3 _ (shift_left-Redraws _ s.cx k s.cy s2)
            (erase_span-Redraws _ _ s.cy s3))))
