-- ===== src/Render/Surface/View.antt =====
-- Whatever is drawn through a view stays in it, and leaves no half of a wide character alone.
use sshos.Base.{
  ℕ, zero, suc, ◌+◌, ◌≤◌, ◌≡◌, refl, sym, subst, inl, inr, lt_of_leb, Bool, true, false, ◌&&◌, ◌||◌,
  leb, ◌==◌, if◌then◌else◌, Option, List, [], ◌∷◌, Bytes, length, Bool-cases, arith,
}
use sshos.Base.Int.{ℤ, pos, pos_part, ◌+ℤ◌, ◌-ℤ◌, ltb_ℤ, leb_ℤ, ==_ℤ}
use sshos.Common.Utf8.{utf8_decode}
use sshos.Render.Cell.{Rect, Style}
use sshos.Render.Width.{char_width, char_width_le}
use sshos.Render.Surface.{
  empty, continuation, styled, Surface, is_cut, put_at, put_mapped, put, Border, Ink, strokes,
  corners, edges, box_with, box, right_of, bottom_of, fill_mapped, glyph, text_loop, text,
  fill_cell, fill_row, fill_rows, fill,
}
use sshos.Render.Surface.Drawn.{IsSound, Drawn, Drawn-self, Drawn-trans}
use sshos.Render.Surface.Sound.{narrow-Drawn, narrow-IsSound, wide-Drawn, wide-IsSound}
use sshos.Render.Surface.Place.{Mapped, neither, map_cases}

-- What each operation of a view does to a surface that is sound.
pub record Draws (clip : Rect) (s t : Surface) : Type 0 where
  pub drawn : Drawn clip s t
  pub sound : IsSound t

Draws-self : (clip : Rect) (s : Surface) → IsSound s → Draws clip s s
Draws-self clip s k = record { drawn = Drawn-self clip s; sound = k }

Draws-trans : (clip : Rect) (s t u : Surface) → Draws clip s t → Draws clip t u → Draws clip s u
Draws-trans clip s t u d e = record {
  drawn = Drawn-trans clip s t u d.drawn e.drawn;
  sound = e.sound;
}

Draws-if :
    (clip : Rect) (s : Surface) (b : Bool) (t u : Surface)
    → (b ≡ true → Draws clip s t)
    → (b ≡ false → Draws clip s u)
    → Draws clip s (if b then t else u)
Draws-if clip s true t u h k = h refl
Draws-if clip s false t u h k = k refl

module _ (clip : Rect) (s : Surface) (k : IsSound s) where
  put_at-Draws :
      (ch cw : ℕ) (st : Style) (x : ℤ) (ox oy : ℕ)
      → Mapped clip s x ox oy
      → (cw == 0 || (cw == 2 && is_cut clip x ox s)) ≡ false
      → cw ≤ 2
      → Draws clip s (put_at ch cw st ox oy s)
  unfolding put_at
  put_at-Draws ch cw st x ox oy m fits le = elim (Bool-cases (cw == 2)) [
    | inl e ↦
        let (visible, whole) = neither (cw == 0) _ fits in
        let cut : is_cut clip x ox s ≡ false = ground (arith, e, whole) in
        let (view, surface) = neither (leb_ℤ clip.w (x +ℤ pos 1)) _ cut in
        let next = m.next view (lt_of_leb _ _ surface) in
        let two : cw ≡ 2 = ground arith in
        rw e (record {
          drawn =
              wide-Drawn clip s k ox oy m.here next (glyph ch cw st)
                (record continuation { bg = st.bg }) two refl;
          sound =
              wide-IsSound clip s k ox oy m.here next (glyph ch cw st)
                (record continuation { bg = st.bg }) two refl;
        })
    | inr e ↦
        let one : cw ≡ 1 = ground (arith, fits) in
        rw e (record {
          drawn = narrow-Drawn clip s k ox oy m.here (glyph ch cw st) one;
          sound = narrow-IsSound clip s k ox oy m.here (glyph ch cw st) one;
        })
  ]

  pub put-Draws :
      (ambiguous : Bool) (x y : ℤ) (ch : ℕ) (st : Style)
      → Draws clip s (put ambiguous clip x y ch st s)
  unfolding put
  put-Draws ambiguous x y ch st =
      let cw = char_width ambiguous ch in
      let ends : Option (ℕ × ℕ) → Type 0 =
        λ o. Draws clip s (put_mapped ambiguous clip x ch st o s) in
      elim (map_cases clip x y s) [
        | inl e ↦ subst ends (sym e) (Draws-self clip s k)
        | inr (ox, oy, e, m) ↦ subst ends (sym e) (
            Draws-if clip s (cw == 0 || (cw == 2 && is_cut clip x ox s)) s _
              (λ _. Draws-self clip s k)
              (λ fits. put_at-Draws ch cw st x ox oy m fits (char_width_le ambiguous ch)))
      ]

  pub fill_cell-Draws : (x y : ℤ) (st : Style) → Draws clip s (fill_cell clip x y st s)
  unfolding fill_cell
  fill_cell-Draws x y st =
      let ends : Option (ℕ × ℕ) → Type 0 = λ o. Draws clip s (fill_mapped st o s) in
      elim (map_cases clip x y s) [
        | inl e ↦ subst ends (sym e) (Draws-self clip s k)
        | inr (ox, oy, e, m) ↦ subst ends (sym e) (record {
          drawn = narrow-Drawn clip s k ox oy m.here (styled st empty) refl;
          sound = narrow-IsSound clip s k ox oy m.here (styled st empty) refl;
        })
      ]

module _ (clip : Rect) where
  fill_row-Draws :
      (count : ℕ) (x y : ℤ) (st : Style) (s : Surface)
      → IsSound s
      → Draws clip s (fill_row count clip x y st s)
  unfolding fill_row
  fill_row-Draws zero x y st s k = Draws-self clip s k
  fill_row-Draws (suc count) x y st s k =
      let d = fill_cell-Draws clip s k x y st in
      Draws-trans clip s (fill_cell clip x y st s) _ d
        (fill_row-Draws count (x +ℤ pos 1) y st (fill_cell clip x y st s) d.sound)

  fill_rows-Draws :
      (lines count : ℕ) (x y : ℤ) (st : Style) (s : Surface)
      → IsSound s
      → Draws clip s (fill_rows lines count clip x y st s)
  unfolding fill_rows
  fill_rows-Draws zero count x y st s k = Draws-self clip s k
  fill_rows-Draws (suc lines) count x y st s k =
      let d = fill_row-Draws count x y st s k in
      Draws-trans clip s (fill_row count clip x y st s) _ d
        (fill_rows-Draws lines count x (y +ℤ pos 1) st (fill_row count clip x y st s) d.sound)

  pub fill-Draws :
      (r : Rect) (st : Style) (s : Surface) → IsSound s → Draws clip s (fill clip r st s)
  unfolding fill
  fill-Draws r st s k = fill_rows-Draws _ _ _ _ st s k

  text_loop-Draws :
      (ambiguous : Bool) (y : ℤ) (utf8 : Bytes) (st : Style) (fuel i : ℕ) (col : ℤ) (s : Surface)
      → IsSound s
      → Draws clip s (text_loop ambiguous clip y utf8 st fuel i col s).0
  unfolding text_loop
  text_loop-Draws ambiguous y utf8 st zero i col s k = Draws-self clip s k
  text_loop-Draws ambiguous y utf8 st (suc fuel) i col s k =
      let (used, cp) = utf8_decode utf8 i in
      let cw = char_width ambiguous cp in
      let t = put ambiguous clip col y cp st s in
      let d = put-Draws clip s k ambiguous col y cp st in
      elim (Bool-cases (leb (length utf8) i)) [
        | inl e ↦ rw e (Draws-self clip s k)
        | inr e ↦ elim (Bool-cases (cw == 0)) [
          | inl f ↦ rw (e, f) (text_loop-Draws ambiguous y utf8 st fuel (i + used) col s k)
          | inr f ↦ elim (Bool-cases (ltb_ℤ clip.w (col +ℤ pos cw))) [
            | inl g ↦ rw (e, f, g) (Draws-self clip s k)
            | inr g ↦
                rw (e, f, g)
                  (Draws-trans clip s t _ d
                    (text_loop-Draws ambiguous y utf8 st fuel (i + used) (col +ℤ pos cw) t d.sound))
          ]
        ]
      ]

  pub text-Draws :
      (ambiguous : Bool) (x y : ℤ) (utf8 : Bytes) (st : Style) (s : Surface)
      → IsSound s
      → Draws clip s (text ambiguous clip x y utf8 st s).0
  unfolding text
  text-Draws ambiguous x y utf8 st s k = text_loop-Draws ambiguous y utf8 st (length utf8) 0 x s k

  strokes-Draws :
      (stroke : ℕ → Surface → Surface)
      → ((i : ℕ) (s : Surface) → IsSound s → Draws clip s (stroke i s))
      → (count i : ℕ) (s : Surface) → IsSound s
      → Draws clip s (strokes count stroke i s)
  unfolding strokes
  strokes-Draws stroke h zero i s k = Draws-self clip s k
  strokes-Draws stroke h (suc count) i s k =
      let d = h i s k in
      Draws-trans clip s (stroke i s) _ d
        (strokes-Draws stroke h count (i + 1) (stroke i s) d.sound)

  -- Two cells, one after the other.
  twice :
      (f g : Surface → Surface)
      → ((s : Surface) → IsSound s → Draws clip s (f s))
      → ((s : Surface) → IsSound s → Draws clip s (g s))
      → (s : Surface) → IsSound s
      → Draws clip s (g (f s))
  twice f g h k s q = let d = h s q in Draws-trans clip s (f s) (g (f s)) d (k (f s) d.sound)

  module _ (ink : Ink)
      (h : (x y : ℤ) (ch : ℕ) (s : Surface) → IsSound s → Draws clip s (ink x y ch s)) where
    corners-Draws :
        (r : Rect) (b : Border) (s : Surface) → IsSound s → Draws clip s (corners ink r b s)
    unfolding corners
    corners-Draws r b =
        twice _ _
          (twice _ _ (twice _ _ (h r.x r.y _) (h (right_of r) r.y _)) (h r.x (bottom_of r) _))
          (h (right_of r) (bottom_of r) _)

    edges-Draws : (r : Rect) (b : Border) (s : Surface) → IsSound s → Draws clip s (edges ink r b s)
    unfolding edges
    edges-Draws r b =
        twice _ _
          (strokes-Draws _
            (λ i. twice _ _ (h (r.x +ℤ pos i) r.y _) (h (r.x +ℤ pos i) (bottom_of r) _))
            (pos_part (r.w -ℤ pos 2)) 1)
          (strokes-Draws _
            (λ i. twice _ _ (h r.x (r.y +ℤ pos i) _) (h (right_of r) (r.y +ℤ pos i) _))
            (pos_part (r.h -ℤ pos 2)) 1)

    box_with-Draws :
        (r : Rect) (b : Border) (s : Surface) → IsSound s → Draws clip s (box_with ink r b s)
    unfolding box_with
    box_with-Draws r b s k =
        Draws-if clip s (leb_ℤ r.w (pos 0) || leb_ℤ r.h (pos 0)) s _ (λ _. Draws-self clip s k)
          λ _.
            Draws-if clip s (==_ℤ r.h (pos 1)) _ _
              (λ _. strokes-Draws _ (λ i. h (r.x +ℤ pos i) r.y _) (pos_part r.w) 0 s k)
              λ _.
                Draws-if clip s (==_ℤ r.w (pos 1)) _ _
                  (λ _. strokes-Draws _ (λ i. h r.x (r.y +ℤ pos i) _) (pos_part r.h) 0 s k)
                  λ _. twice _ _ (edges-Draws r b) (corners-Draws r b) s k

-- A call of an operation of a view.
pub data Stroke : Type 0 where
  put_op : ℤ → ℤ → ℕ → Style → Stroke
  text_op : ℤ → ℤ → Bytes → Style → Stroke
  fill_op : Rect → Style → Stroke
  box_op : Rect → Border → Style → Stroke

abbrev pub draw : Bool → Rect → Stroke → Surface → Surface
draw ambiguous clip (put_op x y ch st) s = put ambiguous clip x y ch st s
draw ambiguous clip (text_op x y utf8 st) s = (text ambiguous clip x y utf8 st s).0
draw ambiguous clip (fill_op r st) s = fill clip r st s
draw ambiguous clip (box_op r b st) s = box ambiguous clip r b st s

abbrev pub draw_all : Bool → Rect → List Stroke → Surface → Surface
draw_all ambiguous clip [] s = s
draw_all ambiguous clip (d ∷ ds) s = draw_all ambiguous clip ds (draw ambiguous clip d s)

module _ (ambiguous : Bool) (clip : Rect) where
  draw-Draws : (d : Stroke) (s : Surface) → IsSound s → Draws clip s (draw ambiguous clip d s)
  draw-Draws (put_op x y ch st) s k = put-Draws clip s k ambiguous x y ch st
  draw-Draws (text_op x y utf8 st) s k = text-Draws clip ambiguous x y utf8 st s k
  draw-Draws (fill_op r st) s k = fill-Draws clip r st s k
  draw-Draws (box_op r b st) s k =
      box_with-Draws clip (λ x y ch. put ambiguous clip x y ch st)
        (λ x y ch t q. put-Draws clip t q ambiguous x y ch st) r b s k

  -- Whatever is drawn through a view, whichever its rectangle: the surface keeps its size, on each line
  -- the halves of the wide characters stay together, and outside of the rectangle each cell is as it
  -- was, but for the halves of wide characters, which may be erased.
  pub draw_all-Draws :
      (ds : List Stroke) (s : Surface) → IsSound s → Draws clip s (draw_all ambiguous clip ds s)
  draw_all-Draws [] s k = Draws-self clip s k
  draw_all-Draws (d ∷ ds) s k =
      let e = draw-Draws d s k in
      Draws-trans clip s (draw ambiguous clip d s) _ e
        (draw_all-Draws ds (draw ambiguous clip d s) e.sound)
