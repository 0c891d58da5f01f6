-- ===== src/Vt/Charset.antt =====
-- src/vt/charset.hpp and src/vt/charset.cpp: the sets of characters of the VT100.
use sshos.Base.{ℕ, ◌-◌, List, [], ◌∷◌, ◌||◌, get_or, ltb, ◌==◌, if◌then◌else◌}

pub data Charset : Type 0 where
  ascii graphics : Charset

-- `kGraphics`, from 0x5F to 0x7E.
abbrev pub graphics_table : List ℕ
graphics_table =
    0x20 ∷ 0x25C6 ∷ 0x2592 ∷ 0x2409 ∷ 0x240C ∷ 0x240D ∷ 0x240A ∷ 0xB0 ∷ 0xB1 ∷ 0x2424 ∷ 0x240B
    ∷ 0x2518 ∷ 0x2510 ∷ 0x250C ∷ 0x2514 ∷ 0x253C ∷ 0x23BA ∷ 0x23BB ∷ 0x2500 ∷ 0x23BC ∷ 0x23BD
    ∷ 0x251C ∷ 0x2524 ∷ 0x2534 ∷ 0x252C ∷ 0x2502 ∷ 0x2264 ∷ 0x2265 ∷ 0x3C0 ∷ 0x2260 ∷ 0xA3 ∷ 0xB7
    ∷ []

abbrev pub first_graphic : ℕ
first_graphic = 0x5F

abbrev pub last_graphic : ℕ
last_graphic = 0x7E

abbrev pub charset_from_final : ℕ → Charset
charset_from_final byte = if byte == b'0' then graphics else ascii

unfoldable pub translate : ℕ → Charset → ℕ
translate cp ascii = cp
translate cp graphics =
    if ltb cp first_graphic || ltb last_graphic cp
    then cp
    else get_or graphics_table (cp - first_graphic) 0
