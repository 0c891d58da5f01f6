-- ===== src/Vt/Screen/Pages.antt =====
-- src/vt/screen.cpp: the size, the page of the full-screen applications, and the text of a line.
use sshos.Base.{
  ℕ, zero, suc, ◌+◌, ◌-◌, ◌*◌, true, false, ◌&&◌, not, List, [], ◌++◌, Bytes, max, min, take, drop,
  set, get_or, replicate, ltb, leb, ◌==◌, if◌then◌else◌,
}
use sshos.Base.Int.{ℤ, pos_part}
use sshos.Common.Utf8.{encode_scalar}
use sshos.Vt.Cell.{ScreenCell, blank}
use sshos.Vt.Screen.{Screen, SavedCursor, no_cursor, erased, at, reset_tabs}
use sshos.Vt.Screen.Cursor.{cursor_of}

-- What is kept of a line of `s.cols` cells in one of `cols`: the cut does not leave a first half.
unfoldable pub reshape_row : Screen → ℕ → List ScreenCell → List ScreenCell
reshape_row s cols line =
    let keep = min cols s.cols in
    let out = take keep line ++ replicate (cols - keep) (erased s) in
    if (get_or out (keep - 1) blank).width == 2 then set out (keep - 1) (erased s) else out

-- The lines from `y` on, `count` of them, the first `keep` from the old page.
unfoldable pub reshape_rows : Screen → ℕ → List ScreenCell → ℕ → ℕ → ℕ → List ScreenCell
reshape_rows s cols g keep zero y = []
reshape_rows s cols g keep (suc count) y =
    (if ltb y keep
      then reshape_row s cols (take s.cols (drop (y * s.cols) g))
      else replicate cols (erased s))
    ++ reshape_rows s cols g keep count (y + 1)

unfoldable pub reshape : List ScreenCell → ℕ → ℕ → Screen → List ScreenCell
reshape g cols rows s = reshape_rows s cols g (min rows s.rows) rows 0

-- The page that is on the screen and the one that waits, in the new size.
unfoldable pub reshape_pages : ℕ → ℕ → Screen → Screen
reshape_pages cols rows s =
    if s.alt
    then record s {
      parked = reshape s.parked cols rows s;
      grid = replicate (cols * rows) (erased s);
    }
    else record s { grid = reshape s.grid cols rows s }

abbrev pub bounded : ℕ → ℕ → SavedCursor → SavedCursor
bounded cols rows c = record c { x = min (cols - 1) c.x; y = min (rows - 1) c.y }

unfoldable pub fit : ℕ → ℕ → Screen → Screen
fit cols rows s = record s {
  cols = cols;
  rows = rows;
  cx = min (cols - 1) s.cx;
  cy = min (rows - 1) s.cy;
  wrap_pending = false;
  parked_cursor = bounded cols rows s.parked_cursor;
  top = 0;
  bottom = rows - 1;
}

unfoldable pub resize : ℤ → ℤ → Screen → Screen
resize cols rows s =
    let w = max 1 (pos_part cols) in
    let h = max 1 (pos_part rows) in
    if w == s.cols && h == s.rows
    then s
    else if w == s.cols
    then fit w h (reshape_pages w h s)
    else reset_tabs (fit w h (reshape_pages w h s))

unfoldable pub enter_alt_screen : Screen → Screen
enter_alt_screen s = if s.alt then s else record s {
  parked = s.grid;
  grid = replicate (s.cols * s.rows) (erased s);
  parked_cursor = cursor_of s;
  parked_decsc = s.saved;
  saved = no_cursor;
  alt = true;
}

unfoldable pub leave_alt_screen : Screen → Screen
leave_alt_screen s = if not s.alt then s else record s {
  grid = s.parked;
  parked = s.grid;
  cx = s.parked_cursor.x;
  cy = s.parked_cursor.y;
  wrap_pending = s.parked_cursor.wrap_pending;
  pen = s.parked_cursor.style;
  charset = s.parked_cursor.charset;
  saved = s.parked_decsc;
  alt = false;
}

-- The cascade of `encode_utf8`, without its check of the scalar.
abbrev pub append_utf8 : ℕ → Bytes
append_utf8 cp = encode_scalar cp

-- One more than the last column, of the `count` first, that holds a character.
unfoldable pub text_end : Screen → ℕ → ℕ → ℕ
text_end s y zero = 0
text_end s y (suc count) =
    let rest = text_end s y count in
    if not ((at s count y).width == 0) && not ((at s count y).ch == b' ') then suc count else rest

unfoldable pub text_of : Screen → ℕ → ℕ → ℕ → Bytes
text_of s y x zero = []
text_of s y x (suc count) =
    let rest = text_of s y (x + 1) count in
    if (at s x y).width == 0 then rest else append_utf8 (at s x y).ch ++ rest

unfoldable pub line_text : Screen → ℕ → Bytes
line_text s y = if leb s.rows y then [] else text_of s y 0 (text_end s y s.cols)
