-- ===== src/Vt/Screen/Cut.antt =====
-- A new size cuts no wide character in two.
use sshos.Base.{
  ℕ, zero, suc, ◌+◌, ◌-◌, ◌*◌, ◌≤◌, ◌<◌, ◌≡◌, refl, ap, sym, ◌∙◌, subst, Bool, true, false, List,
  arith, length, ltb, ◌==◌, ◌&&◌, if◌then◌else◌, get_or, take, drop, ◌++◌, inl, inr, Bool-cases,
  min, max, replicate, lt→ltb, le→ltb, length-append, length-take, length-replicate,
}
use sshos.Base.Access.{
  get_or-replicate_if, get_or-take_if, get_or-drop, get_or-append_if, get_or-set_if,
}
use sshos.Base.Int.{ℤ, pos_part}
use sshos.Vt.Cell.{ScreenCell, blank}
use sshos.Vt.Screen.{Screen, erased, tabs_from}
use sshos.Vt.Screen.Pages.{reshape_row, reshape_rows, reshape, reshape_pages, fit, resize}
use sshos.Vt.Screen.Bounds.{IsValid, lines_add}
use sshos.Vt.Screen.Pairs.{Pairs, Pairs-same}
use sshos.Vt.Screen.Cells.{page, widths}
use sshos.Vt.Screen.Whole.{IsWhole}
use sshos.Vt.Screen.Halves.{HasPages, Pairs-ones}
use sshos.Vt.Screen.Reshape.{length-reshape_row, length-line, length-if}
use sshos.Vt.Screen.Kept.{blank_page-IsWhole}

-- The widths of a line.
abbrev line_widths : List ScreenCell → ℕ → ℕ
line_widths line x = (get_or line x blank).width

-- A line that is cut at `keep` columns, its edge mended, in widths.
abbrev cut : ℕ → (ℕ → ℕ) → ℕ → ℕ
cut keep r u = if r (keep - 1) == 2 && u == keep - 1 then 1 else if ltb u keep then r u else 1

cut-Pairs :
    (n cols keep : ℕ) (r : ℕ → ℕ)
    → keep ≤ n
    → keep ≤ cols
    → 0 < keep
    → Pairs n r
    → Pairs cols (cut keep r)
cut-Pairs n cols keep r a b c p x h = ground (arith, p x, p (x + 1), p (x - 1), p (keep - 1))

line_widths-reshape_row :
    (s : Screen) (cols : ℕ) (line : List ScreenCell)
    → 0 < s.cols
    → 0 < cols
    → length line ≡ s.cols
    → (u : ℕ) → u < cols
    → line_widths (reshape_row s cols line) u ≡ cut (min cols s.cols) (line_widths line) u
unfolding reshape_row
line_widths-reshape_row s cols line some_col some_new h u hu =
    let keep = min cols s.cols in
    let out = take keep line ++ replicate (cols - keep) (erased s) in
    let size : length out ≡ cols = omega (
      arith,
      length-append (take keep line) (replicate (cols - keep) (erased s)),
      length-take keep line,
      length-replicate (cols - keep) (erased s),
    ) in
    let there : (k : ℕ)
        → k < cols
        → line_widths out k ≡ (if ltb k keep then line_widths line k else 1) =
      λ k hk.
        ap (λ (c : ScreenCell). c.width)
          (get_or-append_if (take keep line) (replicate (cols - keep) (erased s)) k blank)
        ∙ ground (
          arith,
          ap (λ (c : ScreenCell). c.width) (get_or-take_if keep line k blank),
          ap (λ (c : ScreenCell). c.width)
              (get_or-replicate_if (cols - keep) (erased s) (k - length (take keep line)) blank),
          length-take keep line,
        ) in
    let edge = there (keep - 1) (omega arith) in
    elim (Bool-cases ((get_or out (keep - 1) blank).width == 2)) [
      | inl e ↦ rw e (
          ap (λ (c : ScreenCell). c.width)
            (get_or-set_if out (keep - 1) u (erased s) blank (omega (arith, size)))
          ∙ ground (arith, there u hu, edge))
      | inr e ↦ rw e (there u hu ∙ ground (arith, edge))
    ]

-- The line `y` of the new page.
abbrev new_line : Screen → ℕ → List ScreenCell → ℕ → ℕ → List ScreenCell
new_line s cols g keep y =
    if ltb y keep
    then reshape_row s cols (take s.cols (drop (y * s.cols) g))
    else replicate cols (erased s)

length-new_line :
    (s : Screen) (cols : ℕ) (g : List ScreenCell) (keep y : ℕ)
    → length g ≡ s.cols * s.rows
    → keep ≤ s.rows
    → length (new_line s cols g keep y) ≡ cols
length-new_line s cols g keep y h k =
    length-if (ltb y keep) _ _ cols
      (λ e. length-reshape_row s cols _ (length-line s.cols s.rows y g h (ground arith)))
      (λ _. length-replicate cols (erased s))

page-reshape_rows :
    (s : Screen) (cols : ℕ) (g : List ScreenCell) (keep count y v u : ℕ)
    → length g ≡ s.cols * s.rows
    → keep ≤ s.rows
    → v < count
    → u < cols
    → page cols (reshape_rows s cols g keep count y) u v
      ≡ get_or (new_line s cols g keep (y + v)) u blank
unfolding reshape_rows
page-reshape_rows s cols g keep zero y v u h k hv hu = absurd (omega arith)
page-reshape_rows s cols g keep (suc count) y zero u h k hv hu =
    let l = length-new_line s cols g keep y h k in
    get_or-append_if (new_line s cols g keep y) (reshape_rows s cols g keep count (y + 1)) _ blank
    ∙ rw (lt→ltb (0 * cols + u) (length (new_line s cols g keep y)) (omega (arith, l)))
        (ap (λ (t : List ScreenCell). get_or t (0 * cols + u) blank) refl ∙ shift)
  where
    shift :
        get_or (new_line s cols g keep y) (0 * cols + u) blank
        ≡ get_or (new_line s cols g keep (y + 0)) u blank
    shift =
        let a : 0 * cols + u ≡ u = omega arith in let b : y + 0 ≡ y = omega arith in rw (a, b) refl
page-reshape_rows s cols g keep (suc count) y (suc v) u h k hv hu =
    let l = length-new_line s cols g keep y h k in
    let q = lines_add cols v 1 in
    let q' = ap (λ (t : ℕ). t * cols) {x = v + 1} {y = suc v} (omega arith) in
    get_or-append_if (new_line s cols g keep y) (reshape_rows s cols g keep count (y + 1)) _ blank
    ∙ rw (le→ltb (suc v * cols + u) (length (new_line s cols g keep y)) (omega (arith, l))) (
        ap (λ j. get_or (reshape_rows s cols g keep count (y + 1)) j blank)
          {x = suc v * cols + u - length (new_line s cols g keep y)} {y = v * cols + u}
          (omega (arith, l))
        ∙ page-reshape_rows s cols g keep count (y + 1) v u h k (omega arith) hu
        ∙ ap (λ j. get_or (new_line s cols g keep j) u blank) {x = y + 1 + v} {y = y + suc v}
            (omega arith))

line_widths-line :
    (n y u : ℕ) (g : List ScreenCell)
    → u < n
    → line_widths (take n (drop (y * n) g)) u ≡ widths n g y u
line_widths-line n y u g h =
    ap (λ (c : ScreenCell). c.width) (get_or-take_if n (drop (y * n) g) u blank)
    ∙ rw (lt→ltb u n h) (ap (λ (c : ScreenCell). c.width) (get_or-drop (y * n) g u blank))

reshape-IsWhole :
    (s : Screen) (g : List ScreenCell) (cols rows : ℕ)
    → 0 < s.cols
    → 0 < cols
    → length g ≡ s.cols * s.rows
    → IsWhole s.cols s.rows g
    → IsWhole cols rows (reshape g cols rows s)
unfolding reshape
reshape-IsWhole s g cols rows some_col some_new h w y hy =
    let keep = min rows s.rows in
    let line = take s.cols (drop (y * s.cols) g) in
    elim (Bool-cases (ltb y keep)) [
      | inl e ↦
          Pairs-same cols (cut (min cols s.cols) (line_widths line)) _
            (λ u hu.
              ap (λ (c : ScreenCell). c.width)
                (page-reshape_rows s cols g keep rows 0 y u h (omega arith) hy hu)
              ∙ first_line e u
              ∙ line_widths-reshape_row s cols line some_col some_new
                  (length-line s.cols s.rows y g h (ground arith)) u hu)
            (cut-Pairs s.cols cols (min cols s.cols) (line_widths line) (omega arith) (omega arith)
              (omega arith)
              (Pairs-same s.cols (widths s.cols g y) (line_widths line)
                (λ u hu. line_widths-line s.cols y u g hu) (w y (ground arith))))
      | inr e ↦ Pairs-ones cols _ λ u hu.
          ap (λ (c : ScreenCell). c.width)
            (page-reshape_rows s cols g keep rows 0 y u h (omega arith) hy hu)
          ∙ blank_line e u hu
    ]
  where
    first_line :
        ltb y (min rows s.rows) ≡ true
        → (u : ℕ)
        → line_widths (new_line s cols g (min rows s.rows) (0 + y)) u
          ≡ line_widths (reshape_row s cols (take s.cols (drop (y * s.cols) g))) u
    first_line e u = let z : 0 + y ≡ y = omega arith in rw (z, e) refl

    blank_line :
        ltb y (min rows s.rows) ≡ false
        → (u : ℕ) → u < cols
        → line_widths (new_line s cols g (min rows s.rows) (0 + y)) u ≡ 1
    blank_line e u hu =
        let z : 0 + y ≡ y = omega arith in
        rw (z, e)
          (ap (λ (c : ScreenCell). c.width) (get_or-replicate_if cols (erased s) u blank)
            ∙ ground arith)

-- The pages of `t` in a new size, where `t` is `s` with new pages.
record NewPages (w h : ℕ) (s t : Screen) : Type 0 where
  whole : IsWhole w h t.grid
  whole_hidden : s.alt ≡ true → IsWhole w h t.parked
  same_alt : t.alt ≡ s.alt

NewPages-if :
    (w h : ℕ) (b : Bool) (s t u : Screen)
    → (b ≡ true → NewPages w h s t)
    → (b ≡ false → NewPages w h s u)
    → NewPages w h s (if b then t else u)
NewPages-if w h true s t u p q = p refl
NewPages-if w h false s t u p q = q refl

reshape_pages-NewPages :
    (w h : ℕ) (s : Screen)
    → 0 < w
    → IsValid s
    → HasPages s.cols s.rows s
    → NewPages w h s (reshape_pages w h s)
unfolding reshape_pages
reshape_pages-NewPages w h s pw v p =
    NewPages-if w h s.alt s _ _
      (λ e. record {
        whole = blank_page-IsWhole w h (erased s) refl;
        whole_hidden =
            λ _. reshape-IsWhole s s.parked w h v.some_column pw (v.waiting e) (p.hidden e);
        same_alt = refl;
      })
      (λ e. record {
        whole = reshape-IsWhole s s.grid w h v.some_column pw v.full p.shown;
        whole_hidden = λ a. cc (a, e);
        same_alt = refl;
      })

-- The screen has pages of its own size without a half character.
abbrev pub IsPaired : Screen → Type 0
IsPaired s = HasPages s.cols s.rows s

pub IsPaired-of : (n m : ℕ) (s : Screen) → HasPages n m s → IsPaired s
IsPaired-of n m s p =
    subst (λ k. HasPages k s.rows s) (sym p.columns) (subst (λ k. HasPages n k s) (sym p.lines) p)

IsPaired-if :
    (b : Bool) (s t : Screen)
    → (b ≡ true → IsPaired s)
    → (b ≡ false → IsPaired t)
    → IsPaired (if b then s else t)
IsPaired-if true s t h k = h refl
IsPaired-if false s t h k = k refl

fit-IsPaired :
    (w h : ℕ) (s : Screen) (tabs : List Bool)
    → 0 < w
    → IsValid s
    → IsPaired s
    → IsPaired (record (fit w h (reshape_pages w h s)) { tabs = tabs })
unfolding fit
fit-IsPaired w h s tabs pw v p =
    let q = reshape_pages-NewPages w h s pw v p in
    record {
      columns = refl;
      lines = refl;
      shown = q.whole;
      hidden = λ e. q.whole_hidden (sym q.same_alt ∙ e);
    }

pub resize-IsPaired :
    (cols rows : ℤ) (s : Screen) → IsValid s → IsPaired s → IsPaired (resize cols rows s)
unfolding resize
resize-IsPaired cols rows s v p =
    let w = max 1 (pos_part cols) in
    let h = max 1 (pos_part rows) in
    let t = fit w h (reshape_pages w h s) in
    IsPaired-if (w == s.cols && h == s.rows) _ _ (λ _. p)
      λ _.
        IsPaired-if (w == s.cols) _ _ (λ _. fit-IsPaired w h s t.tabs (omega arith) v p)
          (λ _. fit-IsPaired w h s (tabs_from 0 t.cols) (omega arith) v p)
