-- ===== src/Vt/Screen/Waits.antt =====
-- What an operation leaves of the page that waits, and of its cursor.
use sshos.Base.{
  ℕ, ◌+◌, ◌-◌, ◌≡◌, refl, ap, ◌∙◌, Bool, true, false, List, ◌==◌, ◌&&◌, if◌then◌else◌, ltb, leb,
}
use sshos.Vt.Cell.{ScreenCell}
use sshos.Vt.Charset.{Charset, translate}
use sshos.Render.Cell.{Style}
use sshos.Vt.Scrollback.{Scrollback}
use sshos.Base.{Option}
use sshos.Render.Width.{char_width}
use sshos.Vt.Screen.{Screen, SavedCursor}
use sshos.Vt.Screen.Scroll.{
  scroll_slice_up, scroll_slice_down, feeds_history, keep_line, scroll_up, scroll_down,
}
use sshos.Vt.Screen.Cursor.{line_feed, reverse_index}
use sshos.Vt.Screen.Edit.{wrap, write_cells, advance, write, place, print}
use sshos.Vt.Screen.Redraw.{write_cells-Redraws, Redraws}

-- What waits in `t` is what waits in `s`.
pub record Waits (s t : Screen) : Type 0 where
  pub page : t.parked ≡ s.parked
  pub cursor : t.parked_cursor ≡ s.parked_cursor
  pub decsc : t.parked_decsc ≡ s.parked_decsc
  pub alt : t.alt ≡ s.alt
  pub columns : t.cols ≡ s.cols
  pub lines : t.rows ≡ s.rows

pub Waits-if : (b : Bool) (s t u : Screen) → Waits s t → Waits s u → Waits s (if b then t else u)
Waits-if true s t u h k = h
Waits-if false s t u h k = k

pub if_true {ℓ} : {A : Type ℓ} (b : Bool) (x y : A) → b ≡ true → (if b then x else y) ≡ x
if_true b x y e = rw e

pub if_false {ℓ} : {A : Type ℓ} (b : Bool) (x y : A) → b ≡ false → (if b then x else y) ≡ y
if_false b x y e = rw e

pub Waits-trans : (s t u : Screen) → Waits s t → Waits t u → Waits s u
Waits-trans s t u h k = record {
  page = k.page ∙ h.page;
  cursor = k.cursor ∙ h.cursor;
  decsc = k.decsc ∙ h.decsc;
  alt = k.alt ∙ h.alt;
  columns = k.columns ∙ h.columns;
  lines = k.lines ∙ h.lines;
}

pub Waits-redrawn : (s t : Screen) → Redraws s t → Waits s t
Waits-redrawn s t r = record {
  page = ap (λ (u : Screen). u.parked) r.same;
  cursor = ap (λ (u : Screen). u.parked_cursor) r.same;
  decsc = ap (λ (u : Screen). u.parked_decsc) r.same;
  alt = ap (λ (u : Screen). u.alt) r.same;
  columns = ap (λ (u : Screen). u.cols) r.same;
  lines = ap (λ (u : Screen). u.rows) r.same;
}

-- Another grid, cursor, region and history: all that a call can change.
pub loose :
    (s : Screen) (grid : List ScreenCell) (tabs : List Bool) (cx cy top bottom : ℕ) (w on : Bool)
    (c : Charset) (pen : Style) (saved : SavedCursor) (sb : Option Scrollback)
    → Waits s (record s {
      grid = grid;
      tabs = tabs;
      cx = cx;
      cy = cy;
      top = top;
      bottom = bottom;
      wrap_pending = w;
      autowrap = on;
      charset = c;
      pen = pen;
      saved = saved;
      scrollback = sb;
    })
loose s grid tabs cx cy top bottom w on c pen saved sb = record {
  page = refl;
  cursor = refl;
  decsc = refl;
  alt = refl;
  columns = refl;
  lines = refl;
}

module _ (s : Screen) where
  pub slice_up-Waits : (top bottom n : ℕ) → Waits s (scroll_slice_up top bottom n s)
  unfolding scroll_slice_up
  slice_up-Waits top bottom n = Waits-if _ s _ _ (loose s _ _ _ _ _ _ _ _ _ _ _ _) (
      Waits-if (leb (bottom - top + 1) n) s _ _ (loose s _ _ _ _ _ _ _ _ _ _ _ _)
        (loose s _ _ _ _ _ _ _ _ _ _ _ _))

  pub slice_down-Waits : (top bottom n : ℕ) → Waits s (scroll_slice_down top bottom n s)
  unfolding scroll_slice_down
  slice_down-Waits top bottom n = Waits-if _ s _ _ (loose s _ _ _ _ _ _ _ _ _ _ _ _) (
      Waits-if (leb (bottom - top + 1) n) s _ _ (loose s _ _ _ _ _ _ _ _ _ _ _ _)
        (loose s _ _ _ _ _ _ _ _ _ _ _ _))

scroll_up-Waits : (s : Screen) → Waits s (scroll_up s)
unfolding scroll_up
scroll_up-Waits s =
    Waits-trans s (keep_line s) _
      (Waits-if (feeds_history s) s _ _ (loose s _ _ _ _ _ _ _ _ _ _ _ _)
        (loose s _ _ _ _ _ _ _ _ _ _ _ _))
      (slice_up-Waits (keep_line s) s.top s.bottom 1)

pub line_feed-Waits : (s : Screen) → Waits s (line_feed s)
unfolding line_feed
line_feed-Waits s =
    Waits-if (s.cy == s.bottom) s _ _
      (Waits-trans s (record s { wrap_pending = false }) _ (loose s _ _ _ _ _ _ _ _ _ _ _ _)
        (scroll_up-Waits (record s { wrap_pending = false })))
      (Waits-if (ltb (s.cy + 1) s.rows) s _ _ (loose s _ _ _ _ _ _ _ _ _ _ _ _)
        (loose s _ _ _ _ _ _ _ _ _ _ _ _))

pub reverse_index-Waits : (s : Screen) → Waits s (reverse_index s)
unfolding reverse_index scroll_down
reverse_index-Waits s =
    Waits-if (s.cy == s.top) s _ _
      (Waits-trans s (record s { wrap_pending = false }) _ (loose s _ _ _ _ _ _ _ _ _ _ _ _)
        (slice_down-Waits (record s { wrap_pending = false }) s.top s.bottom 1))
      (Waits-if (ltb 0 s.cy) s _ _ (loose s _ _ _ _ _ _ _ _ _ _ _ _)
        (loose s _ _ _ _ _ _ _ _ _ _ _ _))

advance-Waits : (w : ℕ) (s : Screen) → Waits s (advance w s)
unfolding advance
advance-Waits w s =
    Waits-if (leb s.cols (s.cx + w)) s _ _ (loose s _ _ _ _ _ _ _ _ _ _ _ _)
      (loose s _ _ _ _ _ _ _ _ _ _ _ _)

write-Waits : (cp w : ℕ) (s : Screen) → Waits s (write cp w s)
write-Waits cp w s =
    Waits-trans s (write_cells cp w s) _ (Waits-redrawn s _ (write_cells-Redraws cp w s))
      (advance-Waits w (write_cells cp w s))

wrap-Waits : (s : Screen) → Waits s (wrap s)
unfolding wrap
wrap-Waits s =
    Waits-if (s.wrap_pending && s.autowrap) s _ _
      (Waits-trans s (record s { wrap_pending = false; cx = 0 }) _ (loose s _ _ _ _ _ _ _ _ _ _ _ _)
        (line_feed-Waits (record s { wrap_pending = false; cx = 0 })))
      (loose s _ _ _ _ _ _ _ _ _ _ _ _)

place-Waits : (cp w : ℕ) (s : Screen) → Waits s (place cp w s)
unfolding place
place-Waits cp w s =
    let t = record s { cx = 0 } in
    Waits-if (w == 2 && leb s.cols (s.cx + 1)) s _ _
      (Waits-if s.autowrap s _ _
        (Waits-trans s t _ (loose s _ _ _ _ _ _ _ _ _ _ _ _)
          (Waits-trans t (line_feed t) _ (line_feed-Waits t) (write-Waits cp w (line_feed t))))
        (loose s _ _ _ _ _ _ _ _ _ _ _ _))
      (write-Waits cp w s)

pub print-Waits : (ambiguous : Bool) (cp : ℕ) (s : Screen) → Waits s (print ambiguous cp s)
unfolding print
print-Waits ambiguous cp s =
    let c = translate cp s.charset in
    let w = char_width ambiguous c in
    Waits-if (w == 0) s _ _ (loose s _ _ _ _ _ _ _ _ _ _ _ _)
      (Waits-trans s (wrap s) _ (wrap-Waits s) (place-Waits c w (wrap s)))
