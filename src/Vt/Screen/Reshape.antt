-- ===== src/Vt/Screen/Reshape.antt =====
-- A new size, and the page of the full-screen applications.
use sshos.Base.{
  ℕ, zero, suc, ◌+◌, ◌-◌, ◌*◌, ◌≤◌, ◌<◌, ◌≡◌, refl, ap, sym, ◌∙◌, subst, Bool, true, false, List,
  arith, length, ltb, ◌==◌, ◌&&◌, not, if◌then◌else◌, min, max, length-set, length-replicate,
  replicate, take, drop, ◌++◌, length-append, length-take, length-drop, Bool-cases, inl, inr,
}
use sshos.Base.Int.{ℤ, pos_part}
use sshos.Vt.Cell.{ScreenCell, blank}
use sshos.Vt.Screen.{Screen, erased, new_screen, tabs_from}
use sshos.Vt.Screen.Bounds.{IsValid, IsValid-if, lines_le, lines_add}
use sshos.Vt.Screen.Pages.{
  reshape_row, reshape_rows, reshape, reshape_pages, fit, resize, enter_alt_screen,
  leave_alt_screen,
}

pub length-if {ℓ} :
    {A : Type ℓ} (b : Bool) (xs ys : List A) (n : ℕ)
    → (b ≡ true → length xs ≡ n)
    → (b ≡ false → length ys ≡ n)
    → length (if b then xs else ys) ≡ n
length-if true xs ys n h k = h refl
length-if false xs ys n h k = k refl

pub length-reshape_row :
    (s : Screen) (cols : ℕ) (line : List ScreenCell)
    → length line ≡ s.cols
    → length (reshape_row s cols line) ≡ cols
unfolding reshape_row
length-reshape_row s cols line h =
    let keep = min cols s.cols in
    let out = take keep line ++ replicate (cols - keep) (erased s) in
    let size : length out ≡ cols = omega (
      arith,
      length-append (take keep line) (replicate (cols - keep) (erased s)),
      length-take keep line,
      length-replicate (cols - keep) (erased s),
    ) in
    length-if _ _ _ cols (λ _. length-set out (keep - 1) (erased s) ∙ size) (λ _. size)

-- The line `y` of a page.
pub length-line :
    (cols rows y : ℕ) (g : List ScreenCell)
    → length g ≡ cols * rows
    → y < rows
    → length (take cols (drop (y * cols) g)) ≡ cols
length-line cols rows y g h k = omega (
  arith,
  h,
  length-take cols (drop (y * cols) g),
  length-drop (y * cols) g,
  lines_le cols rows y k,
  lines_add cols y 1,
)

length-reshape_rows :
    (s : Screen) (cols : ℕ) (g : List ScreenCell) (keep count y : ℕ)
    → length g ≡ s.cols * s.rows
    → keep ≤ s.rows
    → length (reshape_rows s cols g keep count y) ≡ cols * count
unfolding reshape_rows
length-reshape_rows s cols g keep zero y h k = omega arith
length-reshape_rows s cols g keep (suc count) y h k =
    let one =
      if ltb y keep
      then reshape_row s cols (take s.cols (drop (y * s.cols) g))
      else replicate cols (erased s) in
    let size : length one ≡ cols =
      length-if _ _ _ cols
        (λ old.
          length-reshape_row s cols (take s.cols (drop (y * s.cols) g))
            (length-line s.cols s.rows y g h (ground arith)))
        (λ _. length-replicate cols (erased s)) in
    let rest = length-reshape_rows s cols g keep count (y + 1) h k in
    grind (arith, length-append one (reshape_rows s cols g keep count (y + 1)))

pub length-reshape :
    (g : List ScreenCell) (cols rows : ℕ) (s : Screen)
    → length g ≡ s.cols * s.rows
    → length (reshape g cols rows s) ≡ cols * rows
unfolding reshape
length-reshape g cols rows s h =
    length-reshape_rows s cols g (min rows s.rows) rows 0 h (omega arith)

pub length-tabs_from : (x count : ℕ) → length (tabs_from x count) ≡ count
unfolding tabs_from
length-tabs_from x zero = refl
length-tabs_from x (suc count) = ap suc (length-tabs_from (x + 1) count)

-- `t` is `s` with pages of another size.
record Repaged (w h : ℕ) (s t : Screen) : Type 0 where
  same : t ≡ record s { grid = t.grid; parked = t.parked }
  shown : length t.grid ≡ w * h
  hidden : s.alt ≡ true → length t.parked ≡ w * h

Repaged-if :
    (w h : ℕ) (b : Bool) (s t u : Screen)
    → (b ≡ true → Repaged w h s t)
    → (b ≡ false → Repaged w h s u)
    → Repaged w h s (if b then t else u)
Repaged-if w h true s t u p q = p refl
Repaged-if w h false s t u p q = q refl

reshape_pages-Repaged : (w h : ℕ) (s : Screen) → IsValid s → Repaged w h s (reshape_pages w h s)
unfolding reshape_pages
reshape_pages-Repaged w h s v =
    Repaged-if w h s.alt s _ _
      (λ e. record {
        same = refl;
        shown = length-replicate (w * h) (erased s);
        hidden = λ _. length-reshape s.parked w h s (v.waiting e);
      })
      (λ e. record {
        same = refl;
        shown = length-reshape s.grid w h s v.full;
        hidden = λ a. cc (a, e);
      })

-- A valid screen with the pages `g` and `p` of a new size, and stops for it.
fit-IsValid :
    (w h : ℕ) (s : Screen) (g p : List ScreenCell) (tabs : List Bool)
    → 0 < w
    → 0 < h
    → IsValid s
    → length g ≡ w * h
    → (s.alt ≡ true → length p ≡ w * h)
    → length tabs ≡ w
    → IsValid (record (fit w h (record s { grid = g; parked = p })) { tabs = tabs })
unfolding fit
fit-IsValid w h s g p tabs pw ph v shown hidden stops = record {
  some_column = pw;
  some_line = ph;
  full = shown;
  stops = stops;
  column = omega arith;
  line = omega arith;
  region = omega arith;
  inside = omega arith;
  waiting = hidden;
  back_column = omega arith;
  back_line = omega arith;
  history = v.history;
}

fit-reshape_pages-IsValid :
    (w h : ℕ) (s : Screen) (tabs : List Bool)
    → 0 < w
    → 0 < h
    → IsValid s
    → length tabs ≡ w
    → IsValid (record (fit w h (reshape_pages w h s)) { tabs = tabs })
fit-reshape_pages-IsValid w h s tabs pw ph v stops =
    let t = reshape_pages w h s in
    let r = reshape_pages-Repaged w h s v in
    subst (λ u. IsValid (record (fit w h u) { tabs = tabs })) (sym r.same)
      (fit-IsValid w h s t.grid t.parked tabs pw ph v r.shown r.hidden stops)

-- `fit` and the pages leave the stops alone.
tabs-fit : (w h : ℕ) (s : Screen) → (fit w h (reshape_pages w h s)).tabs ≡ s.tabs
unfolding fit reshape_pages
tabs-fit w h s = elim (Bool-cases s.alt) [ inl e ↦ rw e | inr e ↦ rw e ]

cols-fit : (w h : ℕ) (s : Screen) → (fit w h s).cols ≡ w
unfolding fit
cols-fit w h s = refl

pub resize-IsValid : (cols rows : ℤ) (s : Screen) → IsValid s → IsValid (resize cols rows s)
unfolding resize
resize-IsValid cols rows s v =
    let w = max 1 (pos_part cols) in
    let h = max 1 (pos_part rows) in
    let t = fit w h (reshape_pages w h s) in
    IsValid-if (w == s.cols && h == s.rows) _ _ (λ _. v)
      λ _.
        IsValid-if (w == s.cols) _ _
          (λ e.
            fit-reshape_pages-IsValid w h s t.tabs (omega arith) (omega arith) v
              (ap length (tabs-fit w h s) ∙ v.stops ∙ ground arith))
          (λ _.
            fit-reshape_pages-IsValid w h s (tabs_from 0 t.cols) (omega arith) (omega arith) v
              (length-tabs_from 0 t.cols ∙ cols-fit w h (reshape_pages w h s)))

pub enter_alt_screen-IsValid : (s : Screen) → IsValid s → IsValid (enter_alt_screen s)
unfolding enter_alt_screen
enter_alt_screen-IsValid s v =
    IsValid-if s.alt _ _ (λ _. v)
      λ _. record {
        some_column = v.some_column;
        some_line = v.some_line;
        full = length-replicate (s.cols * s.rows) (erased s);
        stops = v.stops;
        column = v.column;
        line = v.line;
        region = v.region;
        inside = v.inside;
        waiting = λ _. v.full;
        back_column = v.column;
        back_line = v.line;
        history = v.history;
      }

pub leave_alt_screen-IsValid : (s : Screen) → IsValid s → IsValid (leave_alt_screen s)
unfolding leave_alt_screen
leave_alt_screen-IsValid s v =
    IsValid-if (not s.alt) _ _ (λ _. v)
      λ e. record {
        some_column = v.some_column;
        some_line = v.some_line;
        full = v.waiting (ground arith);
        stops = v.stops;
        column = v.back_column;
        line = v.back_line;
        region = v.region;
        inside = v.inside;
        waiting = λ a. cc;
        back_column = v.back_column;
        back_line = v.back_line;
        history = v.history;
      }

pub new_screen-IsValid : (cols rows : ℤ) → IsValid (new_screen cols rows)
new_screen-IsValid cols rows =
    let w = max 1 (pos_part cols) in
    let h = max 1 (pos_part rows) in
    record {
      some_column = omega arith;
      some_line = omega arith;
      full = length-replicate (w * h) blank;
      stops = length-tabs_from 0 w;
      column = omega arith;
      line = omega arith;
      region = omega arith;
      inside = omega arith;
      waiting = λ a. cc;
      back_column = omega arith;
      back_line = omega arith;
      history = tt;
    }
