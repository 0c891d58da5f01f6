-- ===== src/Vt/Cell.antt =====
-- src/vt/screen.hpp: a cell of the grid.
use sshos.Base.{ℕ, Bool, ◌&&◌, ◌==◌}
use sshos.Render.Cell.{Style, plain, ==_Style}

-- `width` is 2 on the first half of a wide character and 0 on the second.
pub record ScreenCell : Type 0 where
  pub ch : ℕ
  pub width : ℕ
  pub style : Style

abbrev pub blank : ScreenCell
blank = record { ch = b' '; width = 1; style = plain }

abbrev pub ==_ScreenCell : ScreenCell → ScreenCell → Bool
==_ScreenCell a b = a.ch == b.ch && a.width == b.width && ==_Style a.style b.style
