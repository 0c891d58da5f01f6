-- ===== src/Vt/Scrollback.antt =====
-- src/vt/scrollback.hpp and src/vt/scrollback.cpp: the history of a terminal, a ring of trimmed
-- lines, and the point that it is read from.
use sshos.Base.{
  ℕ, zero, suc, ◌+◌, ◌-◌, ◌%◌, ◌≤◌, Bool, ◌≡◌, List, [], ◌∷◌, length, take, set, get_or, replicate,
  ltb, leb, ◌==◌, if◌then◌else◌,
}
use sshos.Vt.Cell.{ScreenCell, blank, ==_ScreenCell}
pub mod Ring
pub mod View
pub mod Trim

abbrev pub ScrollbackLine : Type 0
ScrollbackLine = List ScreenCell

pub record Scrollback : Type 0 where
  pub capacity : ℕ
  pub ring : List ScrollbackLine
  pub head : ℕ
  pub size : ℕ
  pub offset : ℕ

abbrev pub default_scrollback_lines : ℕ
default_scrollback_lines = 10000

abbrev pub new_scrollback : ℕ → Scrollback
new_scrollback n = record { capacity = n; ring = replicate n []; head = 0; size = 0; offset = 0 }

-- The loop of `push` that drops the default blanks at the end.
unfoldable pub trimmed : List ScreenCell → ℕ → ℕ
trimmed cells zero = 0
trimmed cells (suc len) =
    let rest = trimmed cells len in
    if ==_ScreenCell (get_or cells len blank) blank then rest else suc len

-- What is kept of a row.
abbrev pub trim : List ScreenCell → ScrollbackLine
trim cells = take (trimmed cells (length cells)) cells

-- The end of `push`: the point that it is read from follows what it shows.
abbrev pub follow : Scrollback → Scrollback
follow sb =
    if ltb 0 sb.offset
    then (if ltb sb.size (sb.offset + 1)
        then record sb { offset = sb.size }
        else record sb { offset = sb.offset + 1 })
    else sb

-- `ring_[slot].assign(cells, cells + len)`.
abbrev pub store : Scrollback → ℕ → ScrollbackLine → Scrollback
store sb slot line = record sb { ring = set sb.ring slot line }

-- The choice of the slot, and the write.
abbrev pub place : ScrollbackLine → Scrollback → Scrollback
place line sb =
    if ltb sb.size sb.capacity
    then store (record sb { size = sb.size + 1 }) ((sb.head + sb.size) % sb.capacity) line
    else store (record sb { head = (sb.head + 1) % sb.capacity }) sb.head line

unfoldable pub push : List ScreenCell → Scrollback → Scrollback
push cells sb = if sb.capacity == 0 then sb else follow (place (trim cells) sb)

unfoldable pub at : Scrollback → ℕ → ScrollbackLine
at sb index = if leb sb.size index then [] else get_or sb.ring ((sb.head + index) % sb.capacity) []

abbrev pub clear : Scrollback → Scrollback
clear sb = record sb { size = 0; offset = 0 }

abbrev pub scroll_back : ℕ → Scrollback → Scrollback
scroll_back n sb =
    if ltb (sb.size - sb.offset) n
    then record sb { offset = sb.size }
    else record sb { offset = sb.offset + n }

abbrev pub scroll_forward : ℕ → Scrollback → Scrollback
scroll_forward n sb =
    if ltb sb.offset n then record sb { offset = 0 } else record sb { offset = sb.offset - n }

abbrev pub scroll_to_bottom : Scrollback → Scrollback
scroll_to_bottom sb = record sb { offset = 0 }

-- The ring has its slots, and the indices are inside.
abbrev pub IsValid : Scrollback → Type 0
IsValid sb =
    (length sb.ring ≡ sb.capacity)
    × (sb.size ≤ sb.capacity)
    × (sb.head ≤ sb.capacity - 1)
    × (sb.offset ≤ sb.size)
