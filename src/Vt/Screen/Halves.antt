-- ===== src/Vt/Screen/Halves.antt =====
-- The operations of the screen keep both of its pages free of half characters.
use sshos.Base.{
  ℕ, ◌+◌, ◌-◌, ◌≤◌, ◌<◌, ◌≡◌, refl, ap, sym, ◌∙◌, subst, Bool, true, false, List, arith, leb, ◌||◌,
  ◌&&◌, not, if◌then◌else◌, inl, inr, ◌⊎◌, Bool-cases,
}
use sshos.Base.Int.{ℤ, pos, pos_part, max_ℤ, min_ℤ, ltb_ℤ, ◌-ℤ◌, sub_parts}
use sshos.Vt.Cell.{ScreenCell}
use sshos.Vt.Screen.{Screen}
use sshos.Vt.Screen.Scroll.{scroll_slice_up, scroll_slice_down, keep_line, feeds_history}
use sshos.Vt.Screen.Edit.{write_cells, erase_span}
use sshos.Vt.Screen.Redraw.{Redraws, erase_span-Redraws, write_cells-Redraws}
use sshos.Vt.Screen.Bounds.{IsValid, scroll_slice_up-Redraws, scroll_slice_down-Redraws}
use sshos.Vt.Screen.Pairs.{Pairs, Pairs-same, Matched-one}
use sshos.Vt.Screen.Cells.{widths}
use sshos.Vt.Screen.Turn.{page-scroll_slice_up, page-scroll_slice_down}
use sshos.Vt.Screen.Whole.{
  IsWhole, On, erase_cells-IsWhole, write_narrow-IsWhole, write_wide-IsWhole,
}

-- A screen of `n` columns and `m` lines whose pages have no half character.
pub record HasPages (n m : ℕ) (s : Screen) : Type 0 where
  pub columns : s.cols ≡ n
  pub lines : s.rows ≡ m
  pub shown : IsWhole n m s.grid
  pub hidden : s.alt ≡ true → IsWhole n m s.parked

pub HasPages-if :
    (n m : ℕ) (b : Bool) (s t : Screen)
    → (b ≡ true → HasPages n m s)
    → (b ≡ false → HasPages n m t)
    → HasPages n m (if b then s else t)
HasPages-if n m true s t h k = h refl
HasPages-if n m false s t h k = k refl

pub On-of : (n m : ℕ) (s : Screen) → IsValid s → HasPages n m s → On n m s
On-of n m s v p = record {
  columns = p.columns;
  lines = p.lines;
  full = rw (← p.columns, ← p.lines) v.full;
}

-- The same pages.
pub HasPages-moved :
    (n m : ℕ) (s t : Screen)
    → t.cols ≡ s.cols
    → t.rows ≡ s.rows
    → t.grid ≡ s.grid
    → t.parked ≡ s.parked
    → t.alt ≡ s.alt
    → HasPages n m s
    → HasPages n m t
HasPages-moved n m s t c r g k a p = record {
  columns = c ∙ p.columns;
  lines = r ∙ p.lines;
  shown = subst (IsWhole n m) (sym g) p.shown;
  hidden = λ e. subst (IsWhole n m) (sym k) (p.hidden (sym a ∙ e));
}

-- Another grid.
pub HasPages-redrawn :
    (n m : ℕ) (s t : Screen) → Redraws s t → IsWhole n m t.grid → HasPages n m s → HasPages n m t
HasPages-redrawn n m s t r w p = record {
  columns = ap (λ (u : Screen). u.cols) r.same ∙ p.columns;
  lines = ap (λ (u : Screen). u.rows) r.same ∙ p.lines;
  shown = w;
  hidden = λ e.
      subst (IsWhole n m) (sym (ap (λ (u : Screen). u.parked) r.same))
        (p.hidden (sym (ap (λ (u : Screen). u.alt) r.same) ∙ e));
}

pub Pairs-ones : (n : ℕ) (r : ℕ → ℕ) → ((u : ℕ) → u < n → r u ≡ 1) → Pairs n r
Pairs-ones n r e x h = Matched-one n r x (e x h)

-- A page whose lines are those of a whole page, or erased.
IsWhole-lines :
    (n m : ℕ) (g h : List ScreenCell) (from : ℕ → ℕ) (kept : ℕ → Bool)
    → IsWhole n m g
    → ((y : ℕ) → y < m → kept y ≡ true → from y < m)
    → ((y u : ℕ) → y < m → u < n → widths n h y u ≡ (if kept y then widths n g (from y) u else 1))
    → IsWhole n m h
IsWhole-lines n m g h from kept w inside e y hy = elim (Bool-cases (kept y)) [
  | inl k ↦
      Pairs-same n (widths n g (from y)) (widths n h y) (λ u hu. e y u hy hu ∙ rw k refl)
        (w (from y) (inside y hy k))
  | inr k ↦ Pairs-ones n (widths n h y) (λ u hu. e y u hy hu ∙ rw k refl)
]

module _ (n m : ℕ) (s : Screen) (v : IsValid s) (p : HasPages n m s) where
  pub slice_up-HasPages :
      (top bottom k : ℕ)
      → top ≤ bottom
      → bottom < s.rows
      → 0 < k
      → HasPages n m (scroll_slice_up top bottom k s)
  slice_up-HasPages top bottom k h inside some_line =
      HasPages-redrawn n m s _ (scroll_slice_up-Redraws s v.full top bottom k)
        (IsWhole-lines n m s.grid _ (λ y. if leb top y && leb y bottom then y + k else y)
          (λ y. not (leb top y && leb y bottom) || leb (y + k) bottom) p.shown
          (λ y hy e. let l = p.lines in ground arith)
          (λ y u hy hu.
            subst
              (λ j. widths j (scroll_slice_up top bottom k s).grid y u ≡ (
                if not (leb top y && leb y bottom) || leb (y + k) bottom
                then widths j s.grid (if leb top y && leb y bottom then y + k else y) u
                else 1))
              p.columns
              (ap (λ (c : ScreenCell). c.width)
                  (page-scroll_slice_up s v.full top bottom k h inside u y
                    (omega (arith, p.columns)) some_line)
                ∙ ground arith)))
        p

  pub slice_down-HasPages :
      (top bottom k : ℕ)
      → top ≤ bottom
      → bottom < s.rows
      → 0 < k
      → HasPages n m (scroll_slice_down top bottom k s)
  slice_down-HasPages top bottom k h inside some_line =
      HasPages-redrawn n m s _ (scroll_slice_down-Redraws s v.full top bottom k)
        (IsWhole-lines n m s.grid _ (λ y. if leb top y && leb y bottom then y - k else y)
          (λ y. not (leb top y && leb y bottom) || leb (top + k) y) p.shown
          (λ y hy e. let l = p.lines in ground arith)
          (λ y u hy hu.
            subst
              (λ j. widths j (scroll_slice_down top bottom k s).grid y u ≡ (
                if not (leb top y && leb y bottom) || leb (top + k) y
                then widths j s.grid (if leb top y && leb y bottom then y - k else y) u
                else 1))
              p.columns
              (ap (λ (c : ScreenCell). c.width)
                  (page-scroll_slice_down s v.full top bottom k h inside u y
                    (omega (arith, p.columns)) some_line)
                ∙ ground arith)))
        p

  -- A span of the line `y` is erased.
  pub erase_span-HasPages : (x0 x1 : ℤ) (y : ℕ) → HasPages n m (erase_span x0 x1 y s)
  erase_span-HasPages x0 x1 y = HasPages-redrawn n m s _ (erase_span-Redraws x0 x1 y s) whole p
    where
      lo : ℤ
      lo = max_ℤ (pos 0) x0

      hi : ℤ
      hi = min_ℤ (pos s.cols -ℤ pos 1) x1

      whole : IsWhole n m (erase_span x0 x1 y s).grid
      whole = elim (Bool-cases (leb s.rows y || ltb_ℤ hi lo)) [
        | inl e ↦ unfold erase_span in rw e p.shown
        | inr e ↦
            let q = sub_parts (pos s.cols) (pos 1) in
            let l = p.lines in
            let c = p.columns in
            unfold erase_span in
            rw e (
              erase_cells-IsWhole n m s (On-of n m s v p) (pos_part lo) (pos_part hi) y
                (ground arith) (ground (arith, v.some_column)) (ground arith) p.shown)
      ]

  pub keep_line-HasPages : HasPages n m (keep_line s)
  keep_line-HasPages =
      HasPages-if n m (feeds_history s) _ _ (λ _. HasPages-moved n m s _ refl refl refl refl refl p)
        (λ _. p)

  pub write_cells-HasPages :
      (cp w : ℕ) → s.cx + w ≤ n → (w ≡ 1) ⊎ (w ≡ 2) → HasPages n m (write_cells cp w s)
  write_cells-HasPages cp w fits one_or_two =
      HasPages-redrawn n m s _ (write_cells-Redraws cp w s)
        (elim one_or_two [
          | inl e ↦
              subst (λ k. IsWhole n m (write_cells cp k s).grid) (sym e)
                (write_narrow-IsWhole n m cp s (On-of n m s v p) (omega arith)
                  (omega (arith, p.lines, v.line)) p.shown)
          | inr e ↦
              subst (λ k. IsWhole n m (write_cells cp k s).grid) (sym e)
                (write_wide-IsWhole n m cp s (On-of n m s v p) (omega arith)
                  (omega (arith, p.lines, v.line)) p.shown)
        ])
        p
