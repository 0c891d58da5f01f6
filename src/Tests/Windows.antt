-- ===== src/Tests/Windows.antt =====
-- The window manager, run.
use mathlib.Core.List.{Memᴰ}
use sshos.Base.{
  ◌+◌, ◌/◌, ◌≤◌, ◌≡◌, refl, arith, Option, some, List, [], ◌∷◌, ◌++◌, All, length, false,
}
use sshos.Base.Int.{pos, negsuc, ◌+ℤ◌, ◌-ℤ◌}
use sshos.Render.Cell.{Size, Rect, contains}
use sshos.Wm.{normal, fullscreen, maximized, Window, client_rect, frame_min, clamp_to}
use sshos.Wm.Clamp.{IsInside, FitsIn, clamp_to-IsInside}
use sshos.Wm.Tile.{columns_from, columns_for, tile_rects}
use sshos.Wm.Tile.Cover.{strip, covering, count_of, tile_rects-covering}
use sshos.Wm.Decor.{button_view, client, hit_window}
use sshos.Wm.Decor.Inverse.{HasCell, hit_window-client}
use sshos.Wm.Manager.{
  WindowManager, new_manager, find, set_mode, open_window, close, step, step_from, focus, raise,
  update, remove,
}
use sshos.Wm.Manager.Run.{
  Op, open_op, close_op, focus_op, next_op, set_mode_op, operate_all, opened, IsAscending,
}
use sshos.Wm.Manager.Known.{identifiers}
use sshos.Wm.Manager.Invariant.{IsValid, operate_all-IsValid}
use sshos.Wm.Layout.{relayout}
use sshos.Wm.Layout.Reversible.{relayout-relayout, set_mode-set_mode}

abbrev screen : Rect
screen = record { x = pos 0; y = pos 0; w = pos 80; h = pos 24 }

abbrev wide : Rect
wide = record { x = negsuc 4; y = pos 20; w = pos 100; h = pos 10 }

abbrev least : Size
least = record { w = pos 16; h = pos 5 }

abbrev placed : Rect
placed = record { x = pos 3; y = pos 4; w = pos 30; h = pos 10 }

clamp_to-IsInside_example :
    IsInside (clamp_to wide screen least) screen × FitsIn least (clamp_to wide screen least)
clamp_to-IsInside_example = clamp_to-IsInside wide screen least (omega arith, omega arith)

placed-IsInside : IsInside placed screen
unfolding ◌+ℤ◌
placed-IsInside = (omega arith, omega arith, omega arith, omega arith)

abbrev tiny : Rect
tiny = record { x = pos 1; y = pos 1; w = pos 9; h = pos 2 }

three-columns : columns_for 3 ≡ 2
unfolding columns_for columns_from
three-columns = refl

three-wide : columns_for 3 ≤ 80
three-wide = omega (arith, three-columns)

three-high : 3 / columns_for 3 + 1 ≤ 23
unfolding columns_for columns_from
three-high = omega arith

tile_rects-covering_example :
    (length (tile_rects (strip (pos 0) (pos 1) 80 23) (pos 3)) ≡ 3)
    × (covering (tile_rects (strip (pos 0) (pos 1) 80 23) (pos 3)) (pos 41) (pos 9)
        ≡ count_of (contains (strip (pos 0) (pos 1) 80 23) (pos 41) (pos 9)))
tile_rects-covering_example =
    tile_rects-covering (pos 0) (pos 1) 80 23 3 (pos 41) (pos 9) (omega arith) three-wide three-high

abbrev window : Window
window = record {
  id = 7;
  title = [];
  app_id = [];
  user_rect = placed;
  display_rect = placed;
  mode = normal;
  before_fullscreen = normal;
  min_size = record { w = pos 10; h = pos 3 };
  sent_size = record { w = negsuc 0; h = negsuc 0 };
  close_requested = false;
}

inside-HasCell : HasCell (client_rect placed) (pos 10) (pos 7)
unfolding ◌+ℤ◌ ◌-ℤ◌
inside-HasCell = (omega arith, omega arith, omega arith, omega arith)

hit_window-client_example : hit_window window (pos 10) (pos 7) ≡ record {
  what = client;
  win = 7;
  lx = pos 10 -ℤ (client_rect placed).x;
  ly = pos 7 -ℤ (client_rect placed).y;
}
hit_window-client_example = hit_window-client window (pos 10) (pos 7) inside-HasCell

button-HasCell : HasCell (button_view placed 1) (pos 27) (pos 4)
unfolding ◌+ℤ◌ ◌-ℤ◌
button-HasCell = (omega arith, omega arith, omega arith, omega arith)

abbrev app : Option Size
app = some (record { w = pos 10; h = pos 3 })

abbrev ops : List Op
ops =
    open_op app screen
    ∷ open_op app screen
    ∷ set_mode_op 1 fullscreen screen
    ∷ set_mode_op 2 fullscreen screen
    ∷ next_op
    ∷ close_op 1
    ∷ focus_op 9
    ∷ close_op 2
    ∷ open_op app screen
    ∷ []

three-opened : opened ops new_manager ≡ 1 ∷ 2 ∷ 3 ∷ []
unfolding open_window close find remove set_mode update step step_from focus raise
three-opened = refl

new_manager-IsValid : IsValid new_manager
new_manager-IsValid = (tt, tt, tt, omega arith)

operate_all-IsValid_example :
    IsValid (operate_all ops new_manager)
    × IsAscending 1 (opened ops new_manager)
    × All
        (λ w. Memᴰ w.id (identifiers [] ++ opened ops new_manager))
        (operate_all ops new_manager).stack
operate_all-IsValid_example = operate_all-IsValid ops new_manager (omega arith) new_manager-IsValid

abbrev manager : WindowManager
manager = record { stack = window ∷ []; next_id = 8; focused = 7; cascade = 0 }

relayout-relayout_example :
    relayout screen (pos 80) (pos 25) (relayout tiny (pos 9) (pos 3) manager)
    ≡ relayout screen (pos 80) (pos 25) manager
relayout-relayout_example = relayout-relayout screen tiny (pos 80) (pos 25) (pos 9) (pos 3) manager

manager-find : find 7 manager.stack ≡ some window
unfolding find
manager-find = refl

set_mode-set_mode_example :
    (v : Window) × (find 7 (set_mode 7 normal screen (set_mode 7 maximized tiny manager)).stack
      ≡ some v)
    × (v.display_rect ≡ clamp_to placed screen (frame_min window.min_size))
    × (v.user_rect ≡ placed)
    × (v.mode ≡ normal)
set_mode-set_mode_example = set_mode-set_mode 7 maximized tiny screen window manager manager-find
