-- ===== src/Vt/Screen/Bounds.antt =====
-- The cursor stays on the grid, and the grid keeps its size.
use sshos.Base.{
  ℕ, ◌+◌, ◌-◌, ◌*◌, ◌≤◌, ◌<◌, ◌≡◌, refl, sym, ◌∙◌, subst, Bool, true, false, arith, length, leb,
  if◌then◌else◌, Option, none, some,
}
use sshos.Vt.Scrollback as History
use sshos.Vt.Scrollback.{Scrollback}
use sshos.Vt.Screen.{Screen, erased}
use sshos.Vt.Screen.Scroll.{rotate, scroll_slice_up, scroll_slice_down}
use sshos.Vt.Screen.Slices.{length-fill, length-rotate}
use sshos.Vt.Screen.Redraw.{Redraws, Redraws-self}

abbrev pub HistoryIsValid : Option Scrollback → Type 0
HistoryIsValid none = Unit
HistoryIsValid (some sb) = History.IsValid sb

pub record IsValid (s : Screen) : Type 0 where
  pub some_column : 0 < s.cols
  pub some_line : 0 < s.rows
  pub full : length s.grid ≡ s.cols * s.rows
  pub stops : length s.tabs ≡ s.cols
  pub column : s.cx < s.cols
  pub line : s.cy < s.rows
  pub region : s.top ≤ s.bottom
  pub inside : s.bottom < s.rows
  pub waiting : s.alt ≡ true → length s.parked ≡ s.cols * s.rows
  pub back_column : s.parked_cursor.x < s.cols
  pub back_line : s.parked_cursor.y < s.rows
  pub history : HistoryIsValid s.scrollback

pub IsValid-if :
    (b : Bool) (s t : Screen)
    → (b ≡ true → IsValid s)
    → (b ≡ false → IsValid t)
    → IsValid (if b then s else t)
IsValid-if true s t h k = h refl
IsValid-if false s t h k = k refl

pub Redraws-when :
    (b : Bool) (s t u : Screen)
    → (b ≡ true → Redraws s t)
    → (b ≡ false → Redraws s u)
    → Redraws s (if b then t else u)
Redraws-when true s t u h k = h refl
Redraws-when false s t u h k = k refl

-- A new grid of the same size.
pub Redraws-IsValid : (s t : Screen) → IsValid s → Redraws s t → IsValid t
Redraws-IsValid s t v r = subst IsValid (sym r.same) (record {
  some_column = v.some_column;
  some_line = v.some_line;
  full = r.size ∙ v.full;
  stops = v.stops;
  column = v.column;
  line = v.line;
  region = v.region;
  inside = v.inside;
  waiting = v.waiting;
  back_column = v.back_column;
  back_line = v.back_line;
  history = v.history;
})

pub lines_le : (cols rows y : ℕ) → y < rows → (y + 1) * cols ≤ cols * rows
lines_le cols rows y h = grind arith

pub lines_mono : (cols a b : ℕ) → a ≤ b → a * cols ≤ b * cols
lines_mono cols a b h = grind arith

pub lines_add : (cols a b : ℕ) → (a + b) * cols ≡ a * cols + b * cols
lines_add cols a b = grind arith

module _ (s : Screen) (full : length s.grid ≡ s.cols * s.rows) where
  -- The slice lies in the grid, and the lines that go are fewer than its own.
  pub slice_fits :
      (top bottom n : ℕ)
      → top ≤ bottom
      → bottom < s.rows
      → (top * s.cols ≤ (bottom + 1) * s.cols) × ((bottom + 1) * s.cols ≤ length s.grid)
  slice_fits top bottom n h k = (
    lines_mono s.cols top (bottom + 1) (omega arith),
    omega (arith, full, lines_le s.cols s.rows bottom k),
  )

  pub scroll_slice_up-Redraws : (top bottom n : ℕ) → Redraws s (scroll_slice_up top bottom n s)
  unfolding scroll_slice_up
  scroll_slice_up-Redraws top bottom n =
      Redraws-when _ s _ _ (λ _. Redraws-self s)
        λ inside.
          let (h, k) = slice_fits top bottom n (ground arith) (ground arith) in
          Redraws-when (leb (bottom - top + 1) n) s _ _
            (λ _. record { same = refl; size = length-fill _ _ (erased s) s.grid h k })
            λ fewer.
              let m : (top + n) * s.cols ≤ (bottom + 1) * s.cols =
                lines_mono s.cols (top + n) (bottom + 1) (ground arith) in
              let a = lines_add s.cols top n in
              let first = top * s.cols in
              let last = (bottom + 1) * s.cols in
              let turned = rotate first (first + n * s.cols) last s.grid in
              let size : length turned ≡ length s.grid =
                length-rotate first (first + n * s.cols) last s.grid (omega arith) (omega arith)
                  k in
              record {
                same = refl;
                size =
                    length-fill (last - n * s.cols) last (erased s) turned (omega arith)
                      (omega arith)
                    ∙ size;
              }

  pub scroll_slice_down-Redraws : (top bottom n : ℕ) → Redraws s (scroll_slice_down top bottom n s)
  unfolding scroll_slice_down
  scroll_slice_down-Redraws top bottom n =
      Redraws-when _ s _ _ (λ _. Redraws-self s)
        λ inside.
          let (h, k) = slice_fits top bottom n (ground arith) (ground arith) in
          Redraws-when (leb (bottom - top + 1) n) s _ _
            (λ _. record { same = refl; size = length-fill _ _ (erased s) s.grid h k })
            λ fewer.
              let m : (top + n) * s.cols ≤ (bottom + 1) * s.cols =
                lines_mono s.cols (top + n) (bottom + 1) (ground arith) in
              let a = lines_add s.cols top n in
              let first = top * s.cols in
              let last = (bottom + 1) * s.cols in
              let turned = rotate first (last - n * s.cols) last s.grid in
              let size : length turned ≡ length s.grid =
                length-rotate first (last - n * s.cols) last s.grid (omega arith) (omega arith) k in
              record {
                same = refl;
                size =
                    length-fill first (first + n * s.cols) (erased s) turned (omega arith)
                      (omega arith)
                    ∙ size;
              }
