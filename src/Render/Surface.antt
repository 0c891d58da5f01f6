-- ===== src/Render/Surface.antt =====
-- src/render/surface.hpp and src/render/surface.cpp, with the cell of src/render/cell.hpp: the cells that
-- a frame is drawn in, and the views through which the windows draw. A view is its rectangle; the
-- surface it draws in is an argument. `ambiguous` is the global of src/render/width.cpp.
pub mod Line
pub mod Drawn
pub mod Sound
pub mod Place
pub mod View
pub mod Ends
pub mod Nested
use sshos.Base.{
  ℕ, zero, suc, ◌+◌, ◌-◌, ◌*◌, Bool, true, false, not, ◌&&◌, ◌||◌, Option, none, some, List, [],
  ◌∷◌, ◌++◌, Bytes, get_or, set, replicate, length, ltb, leb, ◌==◌, if◌then◌else◌,
}
use sshos.Base.Int.{ℤ, pos, pos_part, ◌+ℤ◌, ◌-ℤ◌, ltb_ℤ, leb_ℤ, max_ℤ, min_ℤ, ==_ℤ}
use sshos.Common.Utf8.{utf8_decode, encode_utf8}
use sshos.Render.Cell.{Color, def, Style, Rect}
use sshos.Render.Width.{char_width}

pub data Border : Type 0 where
  unicode : Border
  ascii : Border

pub record Cell : Type 0 where
  pub ch : ℕ
  pub fg : Color
  pub bg : Color
  pub attrs : ℕ
  pub width : ℕ

abbrev pub empty : Cell
empty = record { ch = b' '; fg = def; bg = def; attrs = 0; width = 1 }

abbrev pub continuation : Cell
continuation = record { ch = 0; fg = def; bg = def; attrs = 0; width = 0 }

abbrev pub styled : Style → Cell → Cell
styled st c = record c { fg = st.fg; bg = st.bg; attrs = st.attrs }

pub record Surface : Type 0 where
  pub w : ℕ
  pub h : ℕ
  pub cells : List Cell

abbrev pub new_surface : ℤ → ℤ → Surface
new_surface w h =
    let n = pos_part w in
    let m = pos_part h in record { w = n; h = m; cells = replicate (n * m) empty }

abbrev pub clear : Style → Surface → Surface
clear st s = record s { cells = replicate (length s.cells) (styled st empty) }

abbrev pub at : Surface → ℕ → ℕ → Cell
at s x y = get_or s.cells (y * s.w + x) empty

-- `at(x, y) = c`.
unfoldable pub write : ℕ → ℕ → Cell → Surface → Surface
write x y c s = record s { cells = set s.cells (y * s.w + x) c }

abbrev pub root : Surface → Rect
root s = record { x = pos 0; y = pos 0; w = pos s.w; h = pos s.h }

-- `View::map`: the place of the surface, where there is one.
unfoldable pub map : Rect → ℤ → ℤ → Surface → Option (ℕ × ℕ)
map clip x y s =
    let ox = clip.x +ℤ x in
    let oy = clip.y +ℤ y in
    if ltb_ℤ x (pos 0) || ltb_ℤ y (pos 0) || leb_ℤ clip.w x || leb_ℤ clip.h y
    then none
    else if leb_ℤ (pos 0) ox && leb_ℤ (pos 0) oy && ltb_ℤ ox (pos s.w) && ltb_ℤ oy (pos s.h)
    then some (pos_part ox, pos_part oy)
    else none

unfoldable pub cleanup_left : ℕ → ℕ → Surface → Surface
cleanup_left x y s = if ltb 0 x && (at s (x - 1) y).width == 2 then write (x - 1) y empty s else s

unfoldable pub cleanup_right : ℕ → ℕ → Surface → Surface
cleanup_right x y s =
    if ltb (x + 1) s.w && (at s (x + 1) y).width == 0 then write (x + 1) y empty s else s

abbrev pub cleanup_orphan : ℕ → ℕ → Surface → Surface
cleanup_orphan x y s = cleanup_right x y (cleanup_left x y s)

abbrev pub glyph : ℕ → ℕ → Style → Cell
glyph ch cw st = record { ch = ch; fg = st.fg; bg = st.bg; attrs = st.attrs; width = cw }

-- What `put` does at a place of the surface.
unfoldable pub put_at : ℕ → ℕ → Style → ℕ → ℕ → Surface → Surface
put_at ch cw st ox oy s =
    if cw == 2
    then write (ox + 1) oy (record continuation { bg = st.bg })
        (write ox oy (glyph ch cw st) (cleanup_orphan (ox + 1) oy (cleanup_orphan ox oy s)))
    else write ox oy (glyph ch cw st) (cleanup_orphan ox oy s)

-- A wide character that the view or the surface cuts is not drawn.
abbrev pub is_cut : Rect → ℤ → ℕ → Surface → Bool
is_cut clip x ox s = leb_ℤ clip.w (x +ℤ pos 1) || leb s.w (ox + 1)

abbrev pub put_mapped : Bool → Rect → ℤ → ℕ → Style → Option (ℕ × ℕ) → Surface → Surface
put_mapped ambiguous clip x ch st none s = s
put_mapped ambiguous clip x ch st (some (ox, oy)) s =
    let cw = char_width ambiguous ch in
    if cw == 0 || (cw == 2 && is_cut clip x ox s) then s else put_at ch cw st ox oy s

unfoldable pub put : Bool → Rect → ℤ → ℤ → ℕ → Style → Surface → Surface
put ambiguous clip x y ch st s = put_mapped ambiguous clip x ch st (map clip x y s) s

-- The loop of `View::text`, from the byte `i` and the column `col`.
unfoldable pub text_loop : Bool → Rect → ℤ → Bytes → Style → ℕ → ℕ → ℤ → Surface → Surface × ℤ
text_loop ambiguous clip y utf8 st zero i col s = (s, col)
text_loop ambiguous clip y utf8 st (suc fuel) i col s =
    let (used, cp) = utf8_decode utf8 i in
    let cw = char_width ambiguous cp in
    let skip = text_loop ambiguous clip y utf8 st fuel (i + used) col s in
    let rest =
      text_loop ambiguous clip y utf8 st fuel (i + used) (col +ℤ pos cw)
        (put ambiguous clip col y cp st s) in
    if leb (length utf8) i
    then (s, col)
    else if cw == 0
    then skip
    else if ltb_ℤ clip.w (col +ℤ pos cw)
    then (s, col)
    else rest

unfoldable pub text : Bool → Rect → ℤ → ℤ → Bytes → Style → Surface → Surface × ℤ
text ambiguous clip x y utf8 st s =
    let done = text_loop ambiguous clip y utf8 st (length utf8) 0 x s in (done.0, done.1 -ℤ x)

abbrev pub fill_mapped : Style → Option (ℕ × ℕ) → Surface → Surface
fill_mapped st none s = s
fill_mapped st (some (ox, oy)) s = write ox oy (styled st empty) (cleanup_orphan ox oy s)

unfoldable pub fill_cell : Rect → ℤ → ℤ → Style → Surface → Surface
fill_cell clip x y st s = fill_mapped st (map clip x y s) s

-- `count` cells of a line, and `lines` lines.
unfoldable pub fill_row : ℕ → Rect → ℤ → ℤ → Style → Surface → Surface
fill_row zero clip x y st s = s
fill_row (suc count) clip x y st s = fill_row count clip (x +ℤ pos 1) y st (fill_cell clip x y st s)

unfoldable pub fill_rows : ℕ → ℕ → Rect → ℤ → ℤ → Style → Surface → Surface
fill_rows zero count clip x y st s = s
fill_rows (suc lines) count clip x y st s =
    fill_rows lines count clip x (y +ℤ pos 1) st (fill_row count clip x y st s)

unfoldable pub fill : Rect → Rect → Style → Surface → Surface
fill clip r st s =
    let x0 = max_ℤ (pos 0) r.x in
    let y0 = max_ℤ (pos 0) r.y in
    let x1 = min_ℤ clip.w (r.x +ℤ r.w) in
    let y1 = min_ℤ clip.h (r.y +ℤ r.h) in
    fill_rows (pos_part (y1 -ℤ y0)) (pos_part (x1 -ℤ x0)) clip x0 y0 st s

abbrev pub sub : Rect → Rect → Rect
sub clip r =
    let x0 = clip.x +ℤ max_ℤ (pos 0) r.x in
    let y0 = clip.y +ℤ max_ℤ (pos 0) r.y in
    let x1 = min_ℤ (clip.x +ℤ clip.w) (clip.x +ℤ r.x +ℤ r.w) in
    let y1 = min_ℤ (clip.y +ℤ clip.h) (clip.y +ℤ r.y +ℤ r.h) in
    record { x = x0; y = y0; w = max_ℤ (pos 0) (x1 -ℤ x0); h = max_ℤ (pos 0) (y1 -ℤ y0) }

-- The strokes of a frame: `count` columns, from the left, of its upper and its lower edge, and
-- `count` lines of its left and its right edge.
abbrev pub Ink : Type 0
Ink = ℤ → ℤ → ℕ → Surface → Surface

unfoldable pub strokes : ℕ → (ℕ → Surface → Surface) → ℕ → Surface → Surface
strokes zero stroke i s = s
strokes (suc count) stroke i s = strokes count stroke (i + 1) (stroke i s)

abbrev pub horizontal : Border → ℕ
horizontal unicode = 0x2500
horizontal ascii = b'-'

abbrev pub vertical : Border → ℕ
vertical unicode = 0x2502
vertical ascii = b'|'

abbrev pub corner : ℕ → Border → ℕ
corner c unicode = c
corner c ascii = b'+'

-- The right column, and the bottom line, of a rectangle.
abbrev pub right_of : Rect → ℤ
right_of r = r.x +ℤ r.w -ℤ pos 1

abbrev pub bottom_of : Rect → ℤ
bottom_of r = r.y +ℤ r.h -ℤ pos 1

unfoldable pub corners : Ink → Rect → Border → Surface → Surface
corners ink r b s = ink (right_of r) (bottom_of r) (corner 0x2518 b) (
    ink r.x (bottom_of r) (corner 0x2514 b)
      (ink (right_of r) r.y (corner 0x2510 b) (ink r.x r.y (corner 0x250C b) s)))

unfoldable pub edges : Ink → Rect → Border → Surface → Surface
edges ink r b s =
    strokes (pos_part (r.h -ℤ pos 2))
      (λ i t. ink (right_of r) (r.y +ℤ pos i) (vertical b) (ink r.x (r.y +ℤ pos i) (vertical b) t))
      1
      (strokes (pos_part (r.w -ℤ pos 2))
        (λ i t.
          ink (r.x +ℤ pos i) (bottom_of r) (horizontal b) (ink (r.x +ℤ pos i) r.y (horizontal b) t))
        1 s)

unfoldable pub box_with : Ink → Rect → Border → Surface → Surface
box_with ink r b s =
    if leb_ℤ r.w (pos 0) || leb_ℤ r.h (pos 0)
    then s
    else if ==_ℤ r.h (pos 1)
    then strokes (pos_part r.w) (λ i. ink (r.x +ℤ pos i) r.y (horizontal b)) 0 s
    else if ==_ℤ r.w (pos 1)
    then strokes (pos_part r.h) (λ i. ink r.x (r.y +ℤ pos i) (vertical b)) 0 s
    else corners ink r b (edges ink r b s)

abbrev pub box : Bool → Rect → Rect → Border → Style → Surface → Surface
box ambiguous clip r b st = box_with (λ x y ch. put ambiguous clip x y ch st) r b
