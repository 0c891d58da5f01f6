-- ===== src/Wm/Decor.antt =====
-- src/wm/decor.hpp, the geometry of src/wm/decor.cpp, and src/wm/hittest.hpp and
-- src/wm/hittest.cpp: what a window's frame is made of, and what of it a cell belongs to.
use sshos.Base.{ℕ, ◌+◌, ◌-◌, ◌*◌, ◌/◌, Bool, ◌&&◌, ltb, leb, ◌==◌, if◌then◌else◌}
use sshos.Base.Int.{ℤ, pos, pos_part, ◌+ℤ◌, ◌-ℤ◌, ltb_ℤ, leb_ℤ, ==_ℤ, max_ℤ}
use sshos.Render.Cell.{Rect, contains}
use sshos.Wm.{Window, client_rect}
pub mod Inverse

pub record DecorMetrics : Type 0 where
  pub title_bar : Rect
  pub title_text : Rect
  pub buttons : Rect
  pub button_count : ℕ
  pub client : Rect

abbrev pub button_width : ℕ
button_width = 3

abbrev pub title_margin : ℕ
title_margin = 2

-- The loop over the candidates 3, 2 and 1.
abbrev pub buttons_for : ℤ → ℕ
buttons_for w =
    if leb_ℤ (pos 16) w
    then 3
    else if leb_ℤ (pos 13) w
    then 2
    else if leb_ℤ (pos 10) w
    then 1
    else 0

-- Where the buttons begin, and where the title's text has to end.
abbrev pub buttons_x : Rect → ℤ
buttons_x frame = frame.x +ℤ frame.w -ℤ pos 1 -ℤ pos (button_width * buttons_for frame.w)

abbrev pub title_end : Rect → ℤ
title_end frame =
    if ltb 0 (buttons_for frame.w) then buttons_x frame -ℤ pos 1 else frame.x +ℤ frame.w -ℤ pos 1

abbrev pub decor_metrics : Rect → DecorMetrics
decor_metrics frame = record {
  title_bar = record { x = frame.x; y = frame.y; w = frame.w; h = pos 1 };
  title_text = record {
    x = frame.x +ℤ pos title_margin;
    y = frame.y;
    w = max_ℤ (pos 0) (title_end frame -ℤ (frame.x +ℤ pos title_margin));
    h = pos 1;
  };
  buttons = record {
    x = buttons_x frame;
    y = frame.y;
    w = pos (button_width * buttons_for frame.w);
    h = pos 1;
  };
  button_count = buttons_for frame.w;
  client = client_rect frame;
}

-- `draw_decor`'s loop: where it writes the button `i`, and which of the three it is.
abbrev pub button_view : Rect → ℕ → Rect
button_view frame i =
    let m = decor_metrics frame in
    record {
      x = m.buttons.x +ℤ pos (button_width * i);
      y = m.buttons.y;
      w = pos button_width;
      h = pos 1;
    }

pub data WinHit : Type 0 where
  no_hit : WinHit
  frame : WinHit
  title_bar : WinHit
  button_minimize : WinHit
  button_maximize : WinHit
  button_close : WinHit
  edge_right : WinHit
  edge_bottom : WinHit
  corner_br : WinHit
  client : WinHit

pub record WinHitResult : Type 0 where
  pub what : WinHit
  pub win : ℕ
  pub lx : ℤ
  pub ly : ℤ

abbrev pub result : WinHit → ℕ → WinHitResult
result what win = record { what = what; win = win; lx = pos 0; ly = pos 0 }

-- 0 minimizes, 2 closes; the buttons of a narrow window are the last ones.
abbrev pub which_button : ℕ → WinHit
which_button which =
    if which == 0 then button_minimize else if which == 1 then button_maximize else button_close

-- A cell of the title bar that is not the corner.
abbrev pub hit_title : Rect → ℕ → ℤ → WinHitResult
hit_title f id x =
    let m = decor_metrics f in
    if ltb 0 m.button_count && leb_ℤ m.buttons.x x && ltb_ℤ x (m.buttons.x +ℤ m.buttons.w)
    then result (which_button (3 - m.button_count + pos_part (x -ℤ m.buttons.x) / 3)) id
    else result title_bar id

-- A cell below the title bar that is not the corner.
abbrev pub hit_below : Rect → ℕ → ℤ → ℤ → WinHitResult
hit_below f id x y =
    let c = client_rect f in
    if ==_ℤ x (f.x +ℤ f.w -ℤ pos 1)
    then result edge_right id
    else if ==_ℤ y (f.y +ℤ f.h -ℤ pos 1)
    then result edge_bottom id
    else if contains c x y
    then record { what = client; win = id; lx = x -ℤ c.x; ly = y -ℤ c.y }
    else result frame id

unfoldable pub hit_frame : Rect → ℕ → ℤ → ℤ → WinHitResult
hit_frame f id x y =
    if contains f x y
    then (if ==_ℤ x (f.x +ℤ f.w -ℤ pos 1) && ==_ℤ y (f.y +ℤ f.h -ℤ pos 1) && leb_ℤ (pos 2) f.h
        then result corner_br id
        else if ==_ℤ y f.y
        then hit_title f id x
        else hit_below f id x y)
    else result no_hit 0

abbrev pub hit_window : Window → ℤ → ℤ → WinHitResult
hit_window w x y = hit_frame w.display_rect w.id x y
