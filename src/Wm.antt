-- ===== src/Wm.antt =====
-- src/wm/window.hpp and src/wm/window.cpp: a window, and the rectangles that its frame can take.
use sshos.Base.{ℕ, Bool, Bytes, if◌then◌else◌}
use sshos.Base.Int.{ℤ, pos, ◌+ℤ◌, ◌-ℤ◌, ltb_ℤ, max_ℤ, min_ℤ}
use sshos.Render.Cell.{Size, Rect}
pub mod Clamp
pub mod Tile
pub mod Decor
pub mod Layout
pub mod Manager

pub data WinMode : Type 0 where
  normal : WinMode
  minimized : WinMode
  maximized : WinMode
  fullscreen : WinMode

-- `min_size` is what the application of the window answers.
pub record Window : Type 0 where
  pub id : ℕ
  pub title : Bytes
  pub app_id : Bytes
  pub user_rect : Rect
  pub display_rect : Rect
  pub mode : WinMode
  pub before_fullscreen : WinMode
  pub min_size : Size
  pub sent_size : Size
  pub close_requested : Bool

abbrev pub client_rect : Rect → Rect
client_rect frame = record {
  x = frame.x +ℤ pos 1;
  y = frame.y +ℤ pos 1;
  w = max_ℤ (pos 0) (frame.w -ℤ pos 2);
  h = max_ℤ (pos 0) (frame.h -ℤ pos 2);
}

-- The project's floor is on the frame, the application's on the client area.
abbrev pub frame_min : Size → Size
frame_min m = record { w = max_ℤ (m.w +ℤ pos 2) (pos 16); h = max_ℤ (m.h +ℤ pos 2) (pos 5) }

-- One direction of `clamp_to`: the extent, and where it begins.
abbrev pub clamp_extent : ℤ → ℤ → ℤ → ℤ
clamp_extent least extent room = max_ℤ least (min_ℤ extent room)

abbrev pub clamp_start : ℤ → ℤ → ℤ → ℤ → ℤ
clamp_start start extent from room = max_ℤ from (min_ℤ start (from +ℤ room -ℤ extent))

abbrev pub clamp_to : Rect → Rect → Size → Rect
clamp_to frame work least =
    let w = clamp_extent least.w frame.w work.w in
    let h = clamp_extent least.h frame.h work.h in
    record {
      x = clamp_start frame.x w work.x work.w;
      y = clamp_start frame.y h work.y work.h;
      w = w;
      h = h;
    }
