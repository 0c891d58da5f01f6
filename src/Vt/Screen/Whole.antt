-- ===== src/Vt/Screen/Whole.antt =====
-- No operation that writes or erases leaves half of a wide character.
use sshos.Base.{
  ℕ, ◌+◌, ◌-◌, ◌*◌, ◌≤◌, ◌<◌, ◌≡◌, refl, ap, ◌∙◌, subst, true, false, List, arith, length, leb, ltb,
  ◌==◌, ◌&&◌, if◌then◌else◌, inl, inr, Bool-cases,
}
use sshos.Vt.Cell.{ScreenCell}
use sshos.Vt.Screen.{at, Screen, erased, put, clear_wide_at}
use sshos.Vt.Screen.Redraw.{Redraws, put-Redraws, clear_wide_at-Redraws}
use sshos.Vt.Screen.Edit.{erase_from, erase_cells, write_cells, glyph}
use sshos.Vt.Screen.Pairs.{
  Pairs, Matched-one, cleared, cleared_cong, cleared-PairsOutside, cleared_twice-PairsOutside,
  Pairs-between, Pairs-same,
}
use sshos.Vt.Screen.Cells.{at-page, page, widths, widths-clear_wide_at, page-erase_from, page-put}

-- Every line of a page of `n` columns and `m` lines is whole.
abbrev pub IsWhole : ℕ → ℕ → List ScreenCell → Type 0
IsWhole n m g = (y : ℕ) → y < m → Pairs n (widths n g y)

-- A grid of `n` columns and `m` lines.
pub record On (n m : ℕ) (s : Screen) : Type 0 where
  pub columns : s.cols ≡ n
  pub lines : s.rows ≡ m
  pub full : length s.grid ≡ n * m

pub Redraws-On : (n m : ℕ) (s t : Screen) → On n m s → Redraws s t → On n m t
Redraws-On n m s t o r = record {
  columns = ap (λ (u : Screen). u.cols) r.same ∙ o.columns;
  lines = ap (λ (u : Screen). u.rows) r.same ∙ o.lines;
  full = r.size ∙ o.full;
}

module _ (n m : ℕ) (s : Screen) (o : On n m s) where
  own_size : length s.grid ≡ s.cols * s.rows
  own_size = rw (o.columns, o.lines) o.full

  pub clear_on :
      (x y u v : ℕ)
      → x < n
      → y < m
      → u < n
      → widths n (clear_wide_at x y s).grid v u
        ≡ (if v == y then cleared n x (widths n s.grid y) u else widths n s.grid v u)
  clear_on x y u v hx hy hu =
      subst
        (λ k.
          widths k (clear_wide_at x y s).grid v u
          ≡ (if v == y then cleared k x (widths k s.grid y) u else widths k s.grid v u))
        o.columns
        (widths-clear_wide_at s x y u v own_size (omega (arith, o.columns)) (omega (arith, o.lines))
          (omega (arith, o.columns)))

  pub erase_on :
      (count x y u v : ℕ)
      → x + count ≤ n
      → y < m
      → u < n
      → page n (erase_from count x y s).grid u v
        ≡ (if v == y && (leb x u && ltb u (x + count)) then erased s else page n s.grid u v)
  erase_on count x y u v hx hy hu =
      subst
        (λ k.
          page k (erase_from count x y s).grid u v
          ≡ (if v == y && (leb x u && ltb u (x + count)) then erased s else page k s.grid u v))
        o.columns
        (page-erase_from count s x y u v own_size (omega (arith, o.columns))
          (omega (arith, o.lines)) (omega (arith, o.columns)))

  pub put_on :
      (x y : ℕ) (c : ScreenCell) (u v : ℕ)
      → x < n
      → y < m
      → u < n
      → page n (put x y c s).grid u v ≡ (if u == x && v == y then c else page n s.grid u v)
  put_on x y c u v hx hy hu =
      subst
        (λ k. page k (put x y c s).grid u v ≡ (if u == x && v == y then c else page k s.grid u v))
        o.columns
        (page-put s x y c u v own_size (omega (arith, o.columns)) (omega (arith, o.lines))
          (omega (arith, o.columns)))

module _ (n m : ℕ) (t : Screen) (o : On n m t) (x y : ℕ) (hx : x < n) (hy : y < m) where
  pub at_on : (at t x y).width ≡ widths n t.grid y x
  at_on =
      ap (λ (c : ScreenCell). c.width)
        (at-page t x y (omega (arith, o.columns)) (omega (arith, o.lines)))
      ∙ ap (λ k. widths k t.grid y x) o.columns

  pub clear_narrow : widths n t.grid y x ≡ 1 → clear_wide_at x y t ≡ t
  unfolding clear_wide_at
  clear_narrow e = let a = at_on in ground arith

-- A page that differs from a whole one in one line is whole if that line is.
pub IsWhole-line :
    (n m : ℕ) (g h : List ScreenCell) (y : ℕ)
    → IsWhole n m g
    → ((v : ℕ) → v < m → v == y ≡ false → (u : ℕ) → u < n → widths n h v u ≡ widths n g v u)
    → Pairs n (widths n h y)
    → IsWhole n m h
IsWhole-line n m g h y w others line v hv = elim (Bool-cases (v == y)) [
  | inl e ↦ subst (λ k. Pairs n (widths n h k)) {x = y} (ground arith) line
  | inr e ↦ Pairs-same n (widths n g v) (widths n h v) (others v hv e) (w v hv)
]

module _ (n m : ℕ) (s : Screen) (o : On n m s) (x0 x1 y : ℕ) (l : x0 ≤ x1) (hx : x1 < n)
    (hy : y < m) where
  abbrev s1 : Screen
  s1 = clear_wide_at x0 y s

  abbrev s2 : Screen
  s2 = clear_wide_at x1 y s1

  o1 : On n m s1
  o1 = Redraws-On n m s s1 o (clear_wide_at-Redraws x0 y s)

  pub still_there : On n m s2
  still_there = Redraws-On n m s1 s2 o1 (clear_wide_at-Redraws x1 y s1)

  -- What the two clearings leave on the line.
  pub widths-cleared_line :
      (u : ℕ) → u < n → widths n s2.grid y u ≡ cleared n x1 (cleared n x0 (widths n s.grid y)) u
  widths-cleared_line u hu =
      clear_on n m s1 o1 x1 y u y hx hy hu
      ∙ ground arith
      ∙ cleared_cong n x1 (cleared n x0 (widths n s.grid y)) (widths n s1.grid y)
          (λ k hk. clear_on n m s o x0 y k y (omega arith) hy hk ∙ ground arith) hx u hu

  pub widths-cleared_others :
      (v : ℕ) → v == y ≡ false → (u : ℕ) → u < n → widths n s2.grid v u ≡ widths n s.grid v u
  widths-cleared_others v e u hu =
      clear_on n m s1 o1 x1 y u v hx hy hu
      ∙ rw e (clear_on n m s o x0 y u v (omega arith) hy hu ∙ rw e refl)

  pub erase_cells-IsWhole : IsWhole n m s.grid → IsWhole n m (erase_cells x0 x1 y s).grid
  unfolding erase_cells
  erase_cells-IsWhole w =
      IsWhole-line n m s.grid _ y w
        (λ v hv e u hu.
          ap (λ (c : ScreenCell). c.width)
            (erase_on n m s2 still_there (x1 + 1 - x0) x0 y u v (omega arith) hy hu)
          ∙ rw e (widths-cleared_others v e u hu))
        (Pairs-between n x0 x1 (cleared n x1 (cleared n x0 (widths n s.grid y))) _
          (cleared_twice-PairsOutside n x0 x1 (widths n s.grid y) l hx (w y hy))
          (λ u hu out.
            ap (λ (c : ScreenCell). c.width)
              (erase_on n m s2 still_there (x1 + 1 - x0) x0 y u y (omega arith) hy hu)
            ∙ ground arith
            ∙ widths-cleared_line u hu)
          (λ u a b. Matched-one n (widths n (erase_cells x0 x1 y s).grid y) u (
            ap (λ (c : ScreenCell). c.width)
              (erase_on n m s2 still_there (x1 + 1 - x0) x0 y u y (omega arith) hy (omega arith))
            ∙ ground arith)))

-- A character of one cell.
pub write_narrow-IsWhole :
    (n m cp : ℕ) (s : Screen)
    → On n m s
    → s.cx < n
    → s.cy < m
    → IsWhole n m s.grid
    → IsWhole n m (write_cells cp 1 s).grid
unfolding write_cells
write_narrow-IsWhole n m cp s o hx hy w =
    let s1 = clear_wide_at s.cx s.cy s in
    let o1 = Redraws-On n m s s1 o (clear_wide_at-Redraws s.cx s.cy s) in
    let c = glyph cp 1 s in
    IsWhole-line n m s.grid (put s.cx s.cy c s1).grid s.cy w
      (λ v hv e u hu.
        ap (λ (d : ScreenCell). d.width) (put_on n m s1 o1 s.cx s.cy c u v hx hy hu)
        ∙ ground (arith, clear_on n m s o s.cx s.cy u v hx hy hu))
      (Pairs-between n s.cx s.cx (cleared n s.cx (widths n s.grid s.cy)) _
        (cleared-PairsOutside n s.cx (widths n s.grid s.cy) hx (w s.cy hy))
        (λ u hu out.
          ap (λ (d : ScreenCell). d.width) (put_on n m s1 o1 s.cx s.cy c u s.cy hx hy hu)
          ∙ ground arith
          ∙ clear_on n m s o s.cx s.cy u s.cy hx hy hu
          ∙ ground arith)
        (λ u a b. Matched-one n (widths n (put s.cx s.cy c s1).grid s.cy) u (
          ap (λ (d : ScreenCell). d.width) (put_on n m s1 o1 s.cx s.cy c u s.cy hx hy (omega arith))
          ∙ ground arith)))

-- A wide character, in two cells.
pub write_wide-IsWhole :
    (n m cp : ℕ) (s : Screen)
    → On n m s
    → s.cx + 1 < n
    → s.cy < m
    → IsWhole n m s.grid
    → IsWhole n m (write_cells cp 2 s).grid
unfolding write_cells
write_wide-IsWhole n m cp s o hx hy w =
    let s1 = clear_wide_at s.cx s.cy s in
    let s2 = clear_wide_at (s.cx + 1) s.cy s1 in
    let c = glyph cp 2 s in
    let d = glyph b' ' 0 s in
    let s3 = put s.cx s.cy c s2 in
    let s4 = put (s.cx + 1) s.cy d s3 in
    let o2 = still_there n m s o s.cx (s.cx + 1) s.cy (omega arith) hx hy in
    let o3 = Redraws-On n m s2 s3 o2 (put-Redraws s.cx s.cy c s2) in
    let fits : ltb (s.cx + 1) s.cols ≡ true = ground (arith, o.columns) in
    let after : (u v : ℕ)
        → u < n
        → widths n s4.grid v u ≡ (
            if u == s.cx + 1 && v == s.cy
            then 0
            else if u == s.cx && v == s.cy
            then 2
            else widths n s2.grid v u) =
      λ u v hu. ground (
        arith,
        ap (λ (k : ScreenCell). k.width) (put_on n m s3 o3 (s.cx + 1) s.cy d u v hx hy hu),
        ap (λ (k : ScreenCell). k.width) (put_on n m s2 o2 s.cx s.cy c u v (omega arith) hy hu),
      ) in
    rw fits (
      IsWhole-line n m s.grid s4.grid s.cy w
        (λ v hv e u hu.
          after u v hu
          ∙ ground (
            arith,
            widths-cleared_others n m s o s.cx (s.cx + 1) s.cy (omega arith) hx hy v e u hu,
          ))
        (Pairs-between n s.cx (s.cx + 1)
          (cleared n (s.cx + 1) (cleared n s.cx (widths n s.grid s.cy))) _
          (cleared_twice-PairsOutside n s.cx (s.cx + 1) (widths n s.grid s.cy) (omega arith) hx
            (w s.cy hy))
          (λ u hu out.
            after u s.cy hu
            ∙ ground arith
            ∙ widths-cleared_line n m s o s.cx (s.cx + 1) s.cy (omega arith) hx hy u hu)
          (λ u a b.
            ground (arith, after u s.cy (omega arith), after (u + 1) s.cy, after (u - 1) s.cy))))
