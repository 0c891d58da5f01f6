-- ===== src/Vt/Screen/Scroll.antt =====
-- src/vt/screen.cpp: the slices of lines that turn, and the lines that go to the history.
use sshos.Base.{
  ℕ, ◌+◌, ◌-◌, ◌*◌, Bool, ◌&&◌, not, List, ◌++◌, Option, none, some, take, drop, replicate, ltb,
  leb, ◌==◌, if◌then◌else◌, ◌||◌,
}
use sshos.Vt.Cell.{ScreenCell}
use sshos.Vt.Scrollback as History
use sshos.Vt.Scrollback.{Scrollback}
use sshos.Vt.Screen.{Screen, erased}

module _ {ℓ} {A : Type ℓ} where
  -- `std::fill` from `first` to `last`.
  unfoldable pub fill : ℕ → ℕ → A → List A → List A
  fill first last a xs = take first xs ++ (replicate (last - first) a ++ drop last xs)

  -- `std::rotate` from `first` to `last`: what stands at `cut` comes to `first`.
  unfoldable pub rotate : ℕ → ℕ → ℕ → List A → List A
  rotate first cut last xs =
      take first xs
      ++ (take (last - cut) (drop cut xs) ++ (take (cut - first) (drop first xs) ++ drop last xs))

unfoldable pub scroll_slice_up : ℕ → ℕ → ℕ → Screen → Screen
scroll_slice_up top bottom n s =
    let first = top * s.cols in
    let last = (bottom + 1) * s.cols in
    if n == 0 || leb s.rows bottom || ltb bottom top
    then s
    else if leb (bottom - top + 1) n
    then record s { grid = fill first last (erased s) s.grid }
    else record s {
      grid =
          fill (last - n * s.cols) last (erased s) (rotate first (first + n * s.cols) last s.grid);
    }

unfoldable pub scroll_slice_down : ℕ → ℕ → ℕ → Screen → Screen
scroll_slice_down top bottom n s =
    let first = top * s.cols in
    let last = (bottom + 1) * s.cols in
    if n == 0 || leb s.rows bottom || ltb bottom top
    then s
    else if leb (bottom - top + 1) n
    then record s { grid = fill first last (erased s) s.grid }
    else record s {
      grid =
          fill first (first + n * s.cols) (erased s) (rotate first (last - n * s.cols) last s.grid);
    }

-- `cols` cells of the grid from the first of the line `y`.
abbrev pub row : Screen → ℕ → List ScreenCell
row s y = take s.cols (drop (y * s.cols) s.grid)

abbrev pub push_to : List ScreenCell → Option Scrollback → Option Scrollback
push_to cells none = none
push_to cells (some sb) = some (History.push cells sb)

-- The page itself scrolls, and it is the main one.
abbrev pub feeds_history : Screen → Bool
feeds_history s = not s.alt && s.top == 0 && s.bottom == s.rows - 1

abbrev pub keep_line : Screen → Screen
keep_line s =
    if feeds_history s then record s { scrollback = push_to (row s s.top) s.scrollback } else s

unfoldable pub scroll_up : Screen → Screen
scroll_up s = scroll_slice_up s.top s.bottom 1 (keep_line s)

unfoldable pub scroll_down : Screen → Screen
scroll_down s = scroll_slice_down s.top s.bottom 1 s
