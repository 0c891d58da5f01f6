-- ===== src/Wm/Clamp.antt =====
-- What `clamp_to` makes of a frame.
use sshos.Base.{◌≡◌, ap, ◌∙◌, arith}
use sshos.Base.Int.{ℤ, ◌+ℤ◌, ◌-ℤ◌, ◌≤ℤ◌, max_ℤ, min_ℤ, add_parts, sub_parts, le_antisym_ℤ}
use sshos.Render.Cell.{Size, Rect}
use sshos.Wm.{clamp_extent, clamp_start, clamp_to}

-- A rectangle inside another.
abbrev pub IsInside : Rect → Rect → Type 0
IsInside r work =
    (work.x ≤ℤ r.x)
    × (r.x +ℤ r.w ≤ℤ work.x +ℤ work.w)
    × (work.y ≤ℤ r.y)
    × (r.y +ℤ r.h ≤ℤ work.y +ℤ work.h)

abbrev pub FitsIn : Size → Rect → Type 0
FitsIn least r = (least.w ≤ℤ r.w) × (least.h ≤ℤ r.h)

clamped_within :
    (lo x hi : ℤ) → lo ≤ℤ hi → (lo ≤ℤ max_ℤ lo (min_ℤ x hi)) × (max_ℤ lo (min_ℤ x hi) ≤ℤ hi)
clamped_within lo x hi h = ground arith

clamped_same : (lo x hi : ℤ) → lo ≤ℤ x → x ≤ℤ hi → max_ℤ lo (min_ℤ x hi) ≡ x
clamped_same lo x hi h k = le_antisym_ℤ (max_ℤ lo (min_ℤ x hi)) x (ground arith) (ground arith)

clamped_low : (lo x hi : ℤ) → hi ≤ℤ lo → max_ℤ lo (min_ℤ x hi) ≡ lo
clamped_low lo x hi h = le_antisym_ℤ (max_ℤ lo (min_ℤ x hi)) lo (ground arith) (ground arith)

clamp_start_within :
    (start extent from room : ℤ)
    → extent ≤ℤ room
    → (from ≤ℤ clamp_start start extent from room)
      × (clamp_start start extent from room +ℤ extent ≤ℤ from +ℤ room)
clamp_start_within start extent from room h =
    let last = from +ℤ room -ℤ extent in
    let (a, b) =
      clamped_within from start last
        (omega (arith, add_parts from room, sub_parts (from +ℤ room) extent)) in
    (
      a,
      omega (
        arith,
        b,
        add_parts from room,
        sub_parts (from +ℤ room) extent,
        add_parts (clamp_start start extent from room) extent,
      ),
    )

-- A window whose least size fits in the work area is put inside it, and not under its least size.
pub clamp_to-IsInside :
    (frame work : Rect) (least : Size)
    → FitsIn least work
    → IsInside (clamp_to frame work least) work × FitsIn least (clamp_to frame work least)
clamp_to-IsInside frame work least fits =
    let (lw, ww) = clamped_within least.w frame.w work.w fits.0 in
    let (lh, wh) = clamped_within least.h frame.h work.h fits.1 in
    let (x, xw) =
      clamp_start_within frame.x (clamp_extent least.w frame.w work.w) work.x work.w ww in
    let (y, yh) =
      clamp_start_within frame.y (clamp_extent least.h frame.h work.h) work.y work.h wh in
    ((x, xw, y, yh), (lw, lh))

clamp_start_same :
    (start extent from room : ℤ)
    → from ≤ℤ start
    → start +ℤ extent ≤ℤ from +ℤ room
    → clamp_start start extent from room ≡ start
clamp_start_same start extent from room h k =
    clamped_same from start (from +ℤ room -ℤ extent) h
      (omega (arith, k, add_parts start extent, sub_parts (from +ℤ room) extent))

extent_le :
    (start extent from room : ℤ) → from ≤ℤ start → start +ℤ extent ≤ℤ from +ℤ room → extent ≤ℤ room
extent_le start extent from room h k =
    omega (arith, h, k, add_parts start extent, add_parts from room)

-- A frame that is inside the work area, and not under the least size, stays where it is.
pub clamp_to_same :
    (frame work : Rect) (least : Size)
    → IsInside frame work
    → FitsIn least frame
    → clamp_to frame work least ≡ frame
clamp_to_same frame work least (x, xw, y, yh) fits =
    let w =
      clamped_same least.w frame.w work.w fits.0 (extent_le frame.x frame.w work.x work.w x xw) in
    let h =
      clamped_same least.h frame.h work.h fits.1 (extent_le frame.y frame.h work.y work.h y yh) in
    let x' =
      ap (λ e. clamp_start frame.x e work.x work.w) w
      ∙ clamp_start_same frame.x frame.w work.x work.w x xw in
    let y' =
      ap (λ e. clamp_start frame.y e work.y work.h) h
      ∙ clamp_start_same frame.y frame.h work.y work.h y yh in
    λ i. record { x = x' i; y = y' i; w = w i; h = h i }

-- Where the least size is at least the work area's in both directions, the window is put at the
-- upper left corner of the area and has its least size.
pub clamp_to_overflow :
    (frame work : Rect) (least : Size)
    → work.w ≤ℤ least.w
    → work.h ≤ℤ least.h
    → clamp_to frame work least ≡ record { x = work.x; y = work.y; w = least.w; h = least.h }
clamp_to_overflow frame work least hw hh =
    let w = clamped_low least.w frame.w work.w hw in
    let h = clamped_low least.h frame.h work.h hh in
    let x' =
      ap (λ e. clamp_start frame.x e work.x work.w) w
      ∙ clamped_low work.x frame.x (work.x +ℤ work.w -ℤ least.w)
          (omega (arith, hw, add_parts work.x work.w, sub_parts (work.x +ℤ work.w) least.w)) in
    let y' =
      ap (λ e. clamp_start frame.y e work.y work.h) h
      ∙ clamped_low work.y frame.y (work.y +ℤ work.h -ℤ least.h)
          (omega (arith, hh, add_parts work.y work.h, sub_parts (work.y +ℤ work.h) least.h)) in
    λ i. record { x = x' i; y = y' i; w = w i; h = h i }
