-- ===== src/Tests/Drawing.antt =====
-- Views, drawn through.
use sshos.Base.{◌≡◌, false, List, [], ◌∷◌, arith}
use sshos.Base.Int.{pos, negsuc}
use sshos.Base.Text.{codes}
use sshos.Render.Cell.{Rect, plain}
use sshos.Render.Surface.{Surface, new_surface, unicode, text_loop, sub}
use sshos.Render.Surface.Sound.{new_surface-IsSound}
use sshos.Render.Surface.View.{
  Stroke, put_op, text_op, fill_op, box_op, draw_all, Draws, draw_all-Draws,
}
use sshos.Render.Surface.Nested.{draw_all-sub}
use sshos.Render.Surface.Ends.{text_loop-fuel}

abbrev frame : Surface
frame = new_surface (pos 10) (pos 4)

-- A view that begins to the left of the surface, and a text that is too long for it.
abbrev clip : Rect
clip = record { x = negsuc 1; y = pos 1; w = pos 6; h = pos 9 }

abbrev strokes : List Stroke
strokes =
    put_op (pos 4) (pos 0) 0x65E5 plain
    ∷ fill_op (record { x = pos 5; y = negsuc 0; w = pos 9; h = pos 2 }) plain
    ∷ text_op (pos 3) (pos 1) (codes "much too long") plain
    ∷ box_op (record { x = pos 0; y = pos 0; w = pos 6; h = pos 3 }) unicode plain
    ∷ []

draw_all-Draws_example : Draws clip frame (draw_all false clip strokes frame)
draw_all-Draws_example =
    draw_all-Draws false clip strokes frame (new_surface-IsSound (pos 10) (pos 4))

text_loop-fuel_example :
    text_loop false clip (pos 0) (codes "abc") plain 3 0 (pos 0) frame
    ≡ text_loop false clip (pos 0) (codes "abc") plain 100 0 (pos 0) frame
text_loop-fuel_example =
    text_loop-fuel false clip (pos 0) (codes "abc") plain 3 100 0 (pos 0) frame (omega arith)
      (omega arith)

-- A view that is asked for beyond the one that it is a part of.
abbrev beyond : Rect
beyond = record { x = pos 2; y = negsuc 3; w = pos 50; h = pos 50 }

draw_all-sub_example : Draws clip frame (draw_all false (sub clip beyond) strokes frame)
draw_all-sub_example =
    draw_all-sub false clip beyond strokes frame (new_surface-IsSound (pos 10) (pos 4))
