-- ===== src/Wm/Layout.antt =====
-- src/wm/layout.hpp and src/wm/layout.cpp: the work area, and where each window is shown in it.
use sshos.Base.{ℕ, List, [], ◌∷◌, map}
use sshos.Base.Int.{ℤ, pos, ◌-ℤ◌}
use sshos.Render.Cell.{Rect}
use sshos.Wm.{WinMode, normal, minimized, maximized, fullscreen, Window, frame_min, clamp_to}
use sshos.Wm.Manager.{WindowManager}
pub mod Reversible

pub data PanelEdge : Type 0 where
  top : PanelEdge
  bottom : PanelEdge
  left : PanelEdge
  right : PanelEdge

abbrev pub work_area : ℤ → ℤ → PanelEdge → ℤ → Rect
work_area cols rows top thickness = record {
  x = pos 0;
  y = thickness;
  w = cols;
  h = rows -ℤ thickness;
}
work_area cols rows bottom thickness = record {
  x = pos 0;
  y = pos 0;
  w = cols;
  h = rows -ℤ thickness;
}
work_area cols rows left thickness = record {
  x = thickness;
  y = pos 0;
  w = cols -ℤ thickness;
  h = rows;
}
work_area cols rows right thickness = record {
  x = pos 0;
  y = pos 0;
  w = cols -ℤ thickness;
  h = rows;
}

-- The `switch` of `display_rect_for` on the mode.
abbrev pub shown_at : WinMode → Rect → Rect → ℤ → ℤ → Rect
shown_at maximized wanted work cols rows = work
shown_at fullscreen wanted work cols rows = record { x = pos 0; y = pos 0; w = cols; h = rows }
shown_at minimized wanted work cols rows = wanted
shown_at normal wanted work cols rows = wanted

abbrev pub display_rect_for : Window → Rect → ℤ → ℤ → Rect
display_rect_for w work cols rows =
    shown_at w.mode (clamp_to w.user_rect work (frame_min w.min_size)) work cols rows

abbrev pub lay_out : Rect → ℤ → ℤ → Window → Window
lay_out work cols rows w = record w { display_rect = display_rect_for w work cols rows }

unfoldable pub relayout : Rect → ℤ → ℤ → WindowManager → WindowManager
relayout work cols rows m = record m { stack = map (lay_out work cols rows) m.stack }
