-- ===== src/Wm/Tile/Cover.antt =====
-- The grid of windows covers the work area, each cell once.
use native.Mathlib.Nat.{div-add-mod, le-div_iff_mul-le, mul_comm, mod-lt, mul-le-mul_left}
use sshos.Base.{
  ℕ, zero, suc, ◌+◌, ◌*◌, ◌/◌, ◌%◌, ◌≤◌, ◌<◌, ◌≡◌, refl, ap, sym, ◌∙◌, inl, inr, max, min, Bool,
  true, false, not, ◌&&◌, List, [], ◌∷◌, ◌++◌, arith, length, All, ltb, leb, if◌then◌else◌,
  Bool-cases, length-append,
}
use sshos.Base.Int.{ℤ, pos, ◌+ℤ◌, ltb_ℤ, leb_ℤ, add_parts, le_antisym_ℤ}
use sshos.Render.Cell.{Rect, contains}
use sshos.Wm.Tile.{columns_from, columns_for, split_from, split, column, columns, tile_rects}

abbrev pub sum : List ℕ → ℕ
sum [] = 0
sum (n ∷ ns) = n + sum ns

-- The number of rectangles that a cell is in.
abbrev pub count_of : Bool → ℕ
count_of b = if b then 1 else 0

abbrev pub covering : List Rect → ℤ → ℤ → ℕ
covering [] px py = 0
covering (r ∷ rs) px py = count_of (contains r px py) + covering rs px py

covering-append :
    (rs ss : List Rect) (px py : ℤ)
    → covering (rs ++ ss) px py ≡ covering rs px py + covering ss px py
covering-append [] ss px py = omega arith
covering-append (r ∷ rs) ss px py = omega (arith, covering-append rs ss px py)

leb-not-ltb : (a b : ℤ) → leb_ℤ a b ≡ not (ltb_ℤ b a)
leb-not-ltb a b = ground arith

-- Two intervals end to end, in the tests of `contains`: `c` tells whether a point is before the
-- end of the first, `e` before the end of the second.
join_rows :
    (a b c d e : Bool)
    → (d ≡ true → e ≡ true)
    → (d ≡ false → b ≡ true)
    → count_of (a && b && c && d) + count_of (a && not d && c && e) ≡ count_of (a && b && c && e)
join_rows false b c d e h k = refl
join_rows true b false true e h k = ground arith
join_rows true b false false e h k = ground arith
join_rows true b true true e h k = let g = h refl in ground arith
join_rows true b true false e h k = let g = k refl in ground arith

join_columns :
    (a b c d e : Bool)
    → (c ≡ true → e ≡ true)
    → (c ≡ false → a ≡ true)
    → count_of (a && b && c && d) + count_of (not c && b && e && d) ≡ count_of (a && b && e && d)
join_columns a b true d e h k = let g = h refl in ground arith
join_columns a b false d e h k = let g = k refl in ground arith

-- The ends of two intervals end to end.
module _ (from : ℤ) (m n : ℕ) (p : ℤ) where
  longer : ltb_ℤ p (from +ℤ pos m +ℤ pos n) ≡ ltb_ℤ p (from +ℤ pos (m + n))
  longer = ap (ltb_ℤ p) (
      le_antisym_ℤ (from +ℤ pos m +ℤ pos n) (from +ℤ pos (m + n))
        (omega (
          arith,
          add_parts from (pos m),
          add_parts (from +ℤ pos m) (pos n),
          add_parts from (pos (m + n)),
        ))
        (omega (
          arith,
          add_parts from (pos m),
          add_parts (from +ℤ pos m) (pos n),
          add_parts from (pos (m + n)),
        )))

  before_first : ltb_ℤ p (from +ℤ pos m) ≡ true → ltb_ℤ p (from +ℤ pos (m + n)) ≡ true
  before_first h =
      let a = add_parts from (pos m) in let b = add_parts from (pos (m + n)) in ground arith

  behind_first : ltb_ℤ p (from +ℤ pos m) ≡ false → leb_ℤ from p ≡ true
  behind_first h = let a = add_parts from (pos m) in ground arith

-- The cells of a column of windows.
abbrev pub strip : ℤ → ℤ → ℕ → ℕ → Rect
strip x y w h = record { x = x; y = y; w = pos w; h = pos h }

empty_high : (x y : ℤ) (w : ℕ) (px py : ℤ) → count_of (contains (strip x y w 0) px py) ≡ 0
empty_high x y w px py = let h = add_parts y (pos 0) in ground arith

empty_wide : (x y : ℤ) (h : ℕ) (px py : ℤ) → count_of (contains (strip x y 0 h) px py) ≡ 0
empty_wide x y h px py = let e = add_parts x (pos 0) in ground arith

-- A column covers the strip below `y`, as high as its pieces together.
covering-column :
    (x y : ℤ) (w : ℕ) (hs : List ℕ) (px py : ℤ)
    → covering (column x y w hs) px py ≡ count_of (contains (strip x y w (sum hs)) px py)
covering-column x y w [] px py = sym (empty_high x y w px py)
covering-column x y w (h ∷ hs) px py =
    ap (◌+◌ (count_of (contains (strip x y w h) px py))) (
      covering-column x (y +ℤ pos h) w hs px py
      ∙ rw (leb-not-ltb (y +ℤ pos h) py, longer y h (sum hs) py) refl)
    ∙ join_rows (leb_ℤ x px) (leb_ℤ y py) (ltb_ℤ px (x +ℤ pos w)) (ltb_ℤ py (y +ℤ pos h))
        (ltb_ℤ py (y +ℤ pos (h + sum hs))) (before_first y h (sum hs) py)
        (behind_first y h (sum hs) py)

-- A column of `r` windows is as high as the area.
abbrev pub Fills : ℕ → ℕ → Type 0
Fills h r = (sum (split h r) ≡ h) × (length (split h r) ≡ r)

-- Columns side by side cover a rectangle, where each of them is as high as it.
covering-columns :
    (x y : ℤ) (h : ℕ) (ws rows : List ℕ) (px py : ℤ)
    → length ws ≡ length rows
    → All (Fills h) rows
    → covering (columns x y h ws rows) px py ≡ count_of (contains (strip x y (sum ws) h) px py)
covering-columns x y h [] [] px py e full = sym (empty_wide x y h px py)
covering-columns x y h [] (r ∷ rows) px py e full = absurd (omega arith)
covering-columns x y h (w ∷ ws) [] px py e full = absurd (omega arith)
covering-columns x y h (w ∷ ws) (r ∷ rows) px py e full =
    covering-append (column x y w (split h r)) (columns (x +ℤ pos w) y h ws rows) px py
    ∙ rw (covering-column x y w (split h r) px py, full.0.0)
        (ap (◌+◌ (count_of (contains (strip x y w h) px py))) (
            covering-columns (x +ℤ pos w) y h ws rows px py (omega arith) full.1
            ∙ rw (leb-not-ltb (x +ℤ pos w) px, longer x w (sum ws) px) refl)
          ∙ join_columns (leb_ℤ x px) (leb_ℤ y py) (ltb_ℤ px (x +ℤ pos w)) (ltb_ℤ py (y +ℤ pos h))
              (ltb_ℤ px (x +ℤ pos (w + sum ws))) (before_first x w (sum ws) px)
              (behind_first x w (sum ws) px))

sum-split_from :
    (base extra i count : ℕ)
    → 0 < base
    → sum (split_from base extra i count) + min extra i ≡ base * count + min extra (i + count)
unfolding split_from
sum-split_from base extra i zero h = ground arith
sum-split_from base extra i (suc count) h =
    let ih = sum-split_from base extra (suc i) count h in ground arith

length-split_from : (base extra i count : ℕ) → length (split_from base extra i count) ≡ count
unfolding split_from
length-split_from base extra i zero = refl
length-split_from base extra i (suc count) = ap suc (length-split_from base extra (suc i) count)

base_pos : (total parts : ℕ) → 0 < parts → parts ≤ total → 0 < total / parts
base_pos total parts h k = (le-div_iff_mul-le {k = parts} {x = 1} {y = total} h).1 (omega arith)

-- A total that is not under the number of its parts is divided without a rest.
pub split_lem :
    (total parts : ℕ)
    → 0 < parts
    → parts ≤ total
    → (sum (split total parts) ≡ total) × (length (split total parts) ≡ parts)
unfolding split
split_lem total parts h k =
    let e : leb parts 0 ≡ false = ground arith in
    rw e (
      omega (
        arith,
        sum-split_from (total / parts) (total % parts) 0 parts (base_pos total parts h k),
        div-add-mod total parts,
        mul_comm parts (total / parts),
        mod-lt total h,
      ),
      length-split_from (total / parts) (total % parts) 0 parts,
    )

split_from-Fills :
    (base extra i count h : ℕ)
    → 0 < base
    → base + 1 ≤ h
    → All (Fills h) (split_from base extra i count)
unfolding split_from
split_from-Fills base extra i zero h a b = tt
split_from-Fills base extra i (suc count) h a b = (
  split_lem h (max 1 (base + (if ltb i extra then 1 else 0))) (omega arith) (ground arith),
  split_from-Fills base extra (suc i) count h a b,
)

split-Fills : (n cols h : ℕ) → 0 < cols → cols ≤ n → n / cols + 1 ≤ h → All (Fills h) (split n cols)
unfolding split
split-Fills n cols h a b c =
    let e : leb cols 0 ≡ false = ground arith in
    rw e (split_from-Fills (n / cols) (n % cols) 0 cols h (base_pos n cols a b) c)

length-column : (x y : ℤ) (w : ℕ) (hs : List ℕ) → length (column x y w hs) ≡ length hs
length-column x y w [] = refl
length-column x y w (h ∷ hs) = ap suc (length-column x (y +ℤ pos h) w hs)

length-columns :
    (x y : ℤ) (h : ℕ) (ws rows : List ℕ)
    → length ws ≡ length rows
    → All (Fills h) rows
    → length (columns x y h ws rows) ≡ sum rows
length-columns x y h [] [] e full = refl
length-columns x y h [] (r ∷ rows) e full = absurd (omega arith)
length-columns x y h (w ∷ ws) [] e full = absurd (omega arith)
length-columns x y h (w ∷ ws) (r ∷ rows) e full = omega (
  arith,
  length-append (column x y w (split h r)) (columns (x +ℤ pos w) y h ws rows),
  length-column x y w (split h r),
  full.0.1,
  length-columns (x +ℤ pos w) y h ws rows (omega arith) full.1,
)

-- The columns are not more than the windows, and their square reaches them.
columns_from_lem :
    (fuel n c : ℕ)
    → 0 < c
    → c ≤ n
    → n ≤ c + fuel
    → (0 < columns_from fuel n c)
      × (columns_from fuel n c ≤ n)
      × (n ≤ columns_from fuel n c * columns_from fuel n c)
unfolding columns_from
columns_from_lem zero n c a b h = (a, b, omega (arith, mul-le-mul_left {m = 1} {n = c} c a))
columns_from_lem (suc fuel) n c a b h = elim (Bool-cases (ltb (c * c) n)) [
  | inl e ↦
      let more : c + 1 ≤ n = (let sq = mul-le-mul_left {m = 1} {n = c} c a in ground arith) in
      rw e (columns_from_lem fuel n (c + 1) (omega arith) more (omega arith))
  | inr e ↦ rw e (a, b, ground arith)
]

columns_for_lem :
    (n : ℕ)
    → 0 < n
    → (0 < columns_for n) × (columns_for n ≤ n) × (n ≤ columns_for n * columns_for n)
unfolding columns_for
columns_for_lem n h = columns_from_lem n n 1 (omega arith) h (omega arith)

tile_rects_on :
    (x y : ℤ) (w h count : ℕ)
    → 0 < count
    → 0 < w
    → 0 < h
    → tile_rects (strip x y w h) (pos count)
      ≡ columns x y h (split w (columns_for count)) (split count (columns_for count))
unfolding tile_rects
tile_rects_on x y w h count c d e =
    let a : leb_ℤ (pos count) (pos 0) ≡ false = ground arith in
    let b : leb_ℤ (pos w) (pos 0) ≡ false = ground arith in
    let f : leb_ℤ (pos h) (pos 0) ≡ false = ground arith in rw (a, b, f) refl

-- The grid has one window for each that is asked for, and covers the work area without a gap and
-- without an overlap: each cell of the area is in one window, and each cell outside in none. The
-- area has a column of cells for each column of windows, and more rows than `count / cols`.
pub tile_rects-covering :
    (x y : ℤ) (w h count : ℕ) (px py : ℤ)
    → 0 < count
    → columns_for count ≤ w
    → count / columns_for count + 1 ≤ h
    → (length (tile_rects (strip x y w h) (pos count)) ≡ count)
      × (covering (tile_rects (strip x y w h) (pos count)) px py
          ≡ count_of (contains (strip x y w h) px py))
tile_rects-covering x y w h count px py some_window wide high =
    let (c, d, _) = columns_for_lem count some_window in
    let (ws, wl) = split_lem w (columns_for count) c wide in
    let (rs, rl) = split_lem count (columns_for count) c d in
    let full = split-Fills count (columns_for count) h c d high in
    let wide' : 0 < w = omega (arith, c, wide) in
    let high' : 0 < h = omega (arith, high) in
    rw (tile_rects_on x y w h count some_window wide' high') (
      length-columns x y h (split w (columns_for count)) (split count (columns_for count))
            (wl ∙ sym rl) full
          ∙ rs,
      covering-columns x y h (split w (columns_for count)) (split count (columns_for count)) px py
            (wl ∙ sym rl) full
          ∙ ap (λ v. count_of (contains (strip x y v h) px py)) ws,
    )
