-- ===== src/Wm/Tile/Halves.antt =====
-- The halves of the work area.
use sshos.Base.{◌/◌, ◌≡◌, refl, arith}
use sshos.Base.Int.{ℤ, pos, negsuc, ◌+ℤ◌, ◌-ℤ◌, ◌≤ℤ◌, add_parts, sub_parts, le_antisym_ℤ}
use sshos.Render.Cell.{Rect}
use sshos.Wm.Tile.{SnapDir, left, right, up, down, half, snap_rect, snap_opposite}

-- Two extents that make up `total`, the first as large as the second or larger by one.
abbrev pub AreHalves : ℤ → ℤ → ℤ → Type 0
AreHalves a b total = (a +ℤ b ≡ total) × (b ≤ℤ a) × (a ≤ℤ b +ℤ pos 1)

halves : (v : ℤ) → pos 0 ≤ℤ v → AreHalves (v -ℤ half v) (v -ℤ (v -ℤ half v)) v
halves (pos n) h =
    let a = pos n -ℤ pos (n / 2) in
    let b = pos n -ℤ a in
    let pa = sub_parts (pos n) (pos (n / 2)) in
    let pb = sub_parts (pos n) a in
    let ps = add_parts a b in
    let p1 = add_parts b (pos 1) in
    (
      le_antisym_ℤ (a +ℤ b) (pos n) (omega (arith, pa, pb, ps)) (omega (arith, pa, pb, ps)),
      omega (arith, pa, pb),
      omega (arith, pa, pb, p1),
    )
halves (negsuc n) h = absurd (omega arith)

-- The two rectangles lie back to back, `first` on the left or above, and make up the area.
abbrev pub AreSideBySide : Rect → Rect → Rect → Type 0
AreSideBySide first second work =
    (first.x ≡ work.x)
    × (second.x ≡ first.x +ℤ first.w)
    × AreHalves first.w second.w work.w
    × (first.y ≡ work.y)
    × (second.y ≡ work.y)
    × (first.h ≡ work.h)
    × (second.h ≡ work.h)

abbrev pub AreStacked : Rect → Rect → Rect → Type 0
AreStacked first second work =
    (first.y ≡ work.y)
    × (second.y ≡ first.y +ℤ first.h)
    × AreHalves first.h second.h work.h
    × (first.x ≡ work.x)
    × (second.x ≡ work.x)
    × (first.w ≡ work.w)
    × (second.w ≡ work.w)

abbrev pub SnapsWell : Rect → SnapDir → Type 0
SnapsWell work left = AreSideBySide (snap_rect work left) (snap_opposite work left) work
SnapsWell work right = AreSideBySide (snap_opposite work right) (snap_rect work right) work
SnapsWell work up = AreStacked (snap_rect work up) (snap_opposite work up) work
SnapsWell work down = AreStacked (snap_opposite work down) (snap_rect work down) work

-- In a work area of no negative extent, a window that is snapped and the half that is left make up
-- the area, back to back, without a column or a row between them; the left or upper half is as
-- large as the other, or larger by one.
pub snap_rect-SnapsWell :
    (work : Rect) (d : SnapDir) → pos 0 ≤ℤ work.w → pos 0 ≤ℤ work.h → SnapsWell work d
snap_rect-SnapsWell work left hw hh = (refl, refl, halves work.w hw, refl, refl, refl, refl)
snap_rect-SnapsWell work right hw hh = (refl, refl, halves work.w hw, refl, refl, refl, refl)
snap_rect-SnapsWell work up hw hh = (refl, refl, halves work.h hh, refl, refl, refl, refl)
snap_rect-SnapsWell work down hw hh = (refl, refl, halves work.h hh, refl, refl, refl, refl)
