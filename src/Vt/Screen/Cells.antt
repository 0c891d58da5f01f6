-- ===== src/Vt/Screen/Cells.antt =====
-- What the writes leave at each place of the grid.
use sshos.Base.{
  ℕ, zero, suc, ◌+◌, ◌-◌, ◌*◌, ◌≤◌, ◌<◌, ◌≡◌, ap, ◌∙◌, List, arith, length, leb, ltb, ◌==◌, ◌&&◌,
  if◌then◌else◌, get_or, set, length-set, inl, inr, Bool-cases,
}
use sshos.Base.Access.{get_or-set_if}
use sshos.Vt.Cell.{ScreenCell, blank}
use sshos.Vt.Screen.{Screen, erased, index_of, at, put, clear_wide_at}
use sshos.Vt.Screen.Bounds.{lines_le, lines_mono, lines_add}
use sshos.Vt.Screen.Edit.{erase_from}
use sshos.Vt.Screen.Pairs.{cleared}

-- The cell at a place of a page of `cols` columns.
abbrev pub page : ℕ → List ScreenCell → ℕ → ℕ → ScreenCell
page cols g x y = get_or g (y * cols + x) blank

abbrev pub widths : ℕ → List ScreenCell → ℕ → ℕ → ℕ
widths cols g y x = (page cols g x y).width

pub index_lt : (cols rows x y : ℕ) → x < cols → y < rows → y * cols + x < cols * rows
index_lt cols rows x y h k = omega (arith, lines_le cols rows y k, lines_add cols y 1)

index_before : (cols x u y v : ℕ) → x < cols → y < v → y * cols + x < v * cols + u
index_before cols x u y v h k =
    omega (arith, lines_mono cols (y + 1) v (omega arith), lines_add cols y 1)

-- Two places have two indices.
pub index_same :
    (cols x u y v : ℕ) → x < cols → u < cols → (y * cols + x == v * cols + u) ≡ (u == x && v == y)
index_same cols x u y v h k = elim (Bool-cases (v == y)) [
  | inl e ↦ let p = ap (λ (t : ℕ). t * cols) {x = v} {y = y} (ground arith) in ground (arith, p)
  | inr e ↦ elim (Bool-cases (ltb y v)) [
    | inl f ↦ let p = index_before cols x u y v h (ground arith) in ground (arith, p)
    | inr f ↦ let p = index_before cols u x v y k (ground arith) in ground (arith, p)
  ]
]

pub page-set :
    (cols rows : ℕ) (g : List ScreenCell) (x y : ℕ) (c : ScreenCell) (u v : ℕ)
    → length g ≡ cols * rows
    → x < cols
    → y < rows
    → u < cols
    → page cols (set g (y * cols + x) c) u v ≡ (if u == x && v == y then c else page cols g u v)
page-set cols rows g x y c u v full hx hy hu =
    get_or-set_if g (y * cols + x) (v * cols + u) c blank
      (let p = index_lt cols rows x y hx hy in omega (arith, full))
    ∙ ap (λ b. if b then c else page cols g u v) (index_same cols x u y v hx hu)

pub at-page : (s : Screen) (x y : ℕ) → x < s.cols → y < s.rows → at s x y ≡ page s.cols s.grid x y
unfolding at
at-page s x y h k = ground arith

-- Where `put` writes.
pub page-put :
    (s : Screen) (x y : ℕ) (c : ScreenCell) (u v : ℕ)
    → length s.grid ≡ s.cols * s.rows
    → x < s.cols
    → y < s.rows
    → u < s.cols
    → page s.cols (put x y c s).grid u v ≡ (if u == x && v == y then c else page s.cols s.grid u v)
unfolding put
page-put s x y c u v full hx hy hu = page-set s.cols s.rows s.grid x y c u v full hx hy hu

pub widths-clear_wide_at :
    (s : Screen) (x y u v : ℕ)
    → length s.grid ≡ s.cols * s.rows
    → x < s.cols
    → y < s.rows
    → u < s.cols
    → widths s.cols (clear_wide_at x y s).grid v u
      ≡ (if v == y then cleared s.cols x (widths s.cols s.grid y) u else widths s.cols s.grid v u)
unfolding clear_wide_at
widths-clear_wide_at s x y u v full hx hy hu =
    let w = ap (λ (c : ScreenCell). c.width) (at-page s x y hx hy) in
    elim (Bool-cases ((at s x y).width == 2 && ltb (x + 1) s.cols)) [
      | inl e ↦ rw e (
          ap (λ (c : ScreenCell). c.width)
            (page-put s (x + 1) y (erased s) u v full (ground arith) hy hu)
          ∙ ground (arith, w))
      | inr e ↦ rw e (elim (Bool-cases ((at s x y).width == 0 && ltb 0 x)) [
        | inl f ↦ rw f (
            ap (λ (c : ScreenCell). c.width)
              (page-put s (x - 1) y (erased s) u v full (omega arith) hy hu)
            ∙ ground (arith, w))
        | inr f ↦ rw f (ground (arith, w))
      ])
    ]

pub page-erase_from :
    (count : ℕ) (s : Screen) (x y u v : ℕ)
    → length s.grid ≡ s.cols * s.rows
    → x + count ≤ s.cols
    → y < s.rows
    → u < s.cols
    → page s.cols (erase_from count x y s).grid u v
      ≡ (if v == y && (leb x u && ltb u (x + count)) then erased s else page s.cols s.grid u v)
unfolding erase_from put
page-erase_from zero s x y u v full hx hy hu = ground arith
page-erase_from (suc count) s x y u v full hx hy hu =
    let ih =
      page-erase_from count (put x y (erased s) s) (x + 1) y u v
        (length-set s.grid (index_of s x y) (erased s) ∙ full) (omega arith) hy hu in
    let one = page-put s x y (erased s) u v full (omega arith) hy hu in ih ∙ ground (arith, one)
