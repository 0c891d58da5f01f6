-- ===== src/Wm/Tile.antt =====
-- src/wm/tile.hpp and src/wm/tile.cpp: the windows in a grid of columns, and the halves of the
-- work area. Extents and counts that the code has checked to be positive are natural numbers here.
use sshos.Base.{
  ℕ, zero, suc, ◌+◌, ◌-◌, ◌*◌, ◌/◌, ◌%◌, max, List, [], ◌∷◌, ◌++◌, ltb, leb, if◌then◌else◌,
}
use sshos.Base.Int.{ℤ, pos, negsuc, pos_part, ◌+ℤ◌, ◌-ℤ◌, leb_ℤ}
use sshos.Render.Cell.{Rect}
pub mod Cover
pub mod Halves

-- The loop of `columns_for`, with fuel; a square reaches its number.
unfoldable pub columns_from : ℕ → ℕ → ℕ → ℕ
columns_from zero n c = c
columns_from (suc fuel) n c =
    let rest = columns_from fuel n (c + 1) in if ltb (c * c) n then rest else c

unfoldable pub columns_for : ℕ → ℕ
columns_for n = columns_from n n 1

-- The loop of `split`: `count` pieces from piece `i` on.
unfoldable pub split_from : ℕ → ℕ → ℕ → ℕ → List ℕ
split_from base extra i zero = []
split_from base extra i (suc count) =
    max 1 (base + (if ltb i extra then 1 else 0)) ∷ split_from base extra (suc i) count

unfoldable pub split : ℕ → ℕ → List ℕ
split total parts = if leb parts 0 then [] else split_from (total / parts) (total % parts) 0 parts

-- The inner loop of `tile_rects`: one column, downwards.
abbrev pub column : ℤ → ℤ → ℕ → List ℕ → List Rect
column x y w [] = []
column x y w (h ∷ hs) = record { x = x; y = y; w = pos w; h = pos h } ∷ column x (y +ℤ pos h) w hs

-- The outer loop: the columns, with their widths and their numbers of rows.
abbrev pub columns : ℤ → ℤ → ℕ → List ℕ → List ℕ → List Rect
columns x y h (w ∷ ws) (rows ∷ rest) =
    column x y w (split h rows) ++ columns (x +ℤ pos w) y h ws rest
columns x y h _ _ = []

-- `count`, and the extents of `work`, are positive where the code goes on.
unfoldable pub tile_rects : Rect → ℤ → List Rect
tile_rects work count =
    if leb_ℤ count (pos 0)
    then []
    else if leb_ℤ work.w (pos 0)
    then []
    else if leb_ℤ work.h (pos 0)
    then []
    else (let cols = columns_for (pos_part count) in
        columns work.x work.y (pos_part work.h) (split (pos_part work.w) cols)
          (split (pos_part count) cols))

pub data SnapDir : Type 0 where
  left : SnapDir
  right : SnapDir
  up : SnapDir
  down : SnapDir

-- `v / 2` of an `int`, towards 0.
abbrev pub half : ℤ → ℤ
half (pos n) = pos (n / 2)
half (negsuc n) = pos 0 -ℤ pos (suc n / 2)

abbrev pub snap_rect : Rect → SnapDir → Rect
snap_rect work d =
    let w1 = work.w -ℤ half work.w in
    let h1 = work.h -ℤ half work.h in
    elim d [
      | left ↦ record work { w = w1 }
      | right ↦ record work { x = work.x +ℤ w1; w = work.w -ℤ w1 }
      | up ↦ record work { h = h1 }
      | down ↦ record work { y = work.y +ℤ h1; h = work.h -ℤ h1 }
    ]

abbrev pub snap_opposite : Rect → SnapDir → Rect
snap_opposite work left = snap_rect work right
snap_opposite work right = snap_rect work left
snap_opposite work up = snap_rect work down
snap_opposite work down = snap_rect work up
