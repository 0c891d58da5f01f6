-- ===== src/Vt/Attrs.antt =====
-- src/vt/attrs.hpp and src/vt/attrs.cpp: SGR, the attributes and the colours of the pen.
-- An attribute is one bit of `attrs`: `|=` and `&= ~` with it set and clear its binary digit.
pub mod Bounds
use sshos.Base.{
  ℕ, zero, suc, ◌+◌, ◌-◌, ◌*◌, ◌/◌, ◌%◌, ◌^◌, Bool, true, false, ◌&&◌, ◌||◌, List, [], ◌∷◌, Option,
  none, some, length, get_or, drop, min, ltb, leb, ◌==◌, if◌then◌else◌,
}
use sshos.Base.Int.{ℤ, pos, pos_part, ==_ℤ, leb_ℤ}
use sshos.Render.Cell.{Color, indexed, rgb, def, Style, plain}
use sshos.Vt.Parser.{Param, Params, absent, param_or}

abbrev pub indexed_color : ℕ → Color
indexed_color i = record { kind = indexed; idx = i; r = 0; g = 0; b = 0 }

abbrev pub rgb_color : ℕ → ℕ → ℕ → Color
rgb_color r g b = record { kind = rgb; idx = 0; r = r; g = g; b = b }

-- The attributes by the place of their bit.
abbrev pub bold : ℕ
bold = 0

abbrev pub dim : ℕ
dim = 1

abbrev pub italic : ℕ
italic = 2

abbrev pub underline : ℕ
underline = 3

abbrev pub reverse_video : ℕ
reverse_video = 4

abbrev pub strike : ℕ
strike = 5

abbrev pub blink : ℕ
blink = 6

abbrev pub hidden : ℕ
hidden = 7

abbrev pub has : ℕ → ℕ → Bool
has bit attrs = attrs / 2 ^ bit % 2 == 1

unfoldable pub raise : ℕ → ℕ → ℕ
raise bit attrs = if has bit attrs then attrs else attrs + 2 ^ bit

unfoldable pub lower : ℕ → ℕ → ℕ
lower bit attrs = if has bit attrs then attrs - 2 ^ bit else attrs

abbrev pub value_at : Params → ℕ → ℤ
value_at p i = (get_or p i (absent false)).value

abbrev pub is_byte : ℤ → Bool
is_byte v = leb_ℤ (pos 0) v && leb_ℤ v (pos 255)

-- The colour that the parameters from `first` to `last` describe, if they do.
unfoldable pub read_extended : Params → ℕ → ℕ → Option Color
read_extended p first last =
    let args = last - first - 1 in
    let idx = value_at p (last - 1) in
    let r = value_at p (last - 3) in
    let g = value_at p (last - 2) in
    let b = value_at p (last - 1) in
    if leb last first
    then none
    else if ==_ℤ (value_at p first) (pos 5)
    then (if ltb args 1
        then none
        else if is_byte idx
        then some (indexed_color (pos_part idx))
        else none)
    else if ==_ℤ (value_at p first) (pos 2)
    then (if ltb args 3
        then none
        else if is_byte r && is_byte g && is_byte b
        then some (rgb_color (pos_part r) (pos_part g) (pos_part b))
        else none)
    else none

-- Where a colour written with semicolons ends.
unfoldable pub flat_extent : Params → ℕ → ℕ
flat_extent p first =
    let mode = value_at p first in
    if leb (length p) first
    then first
    else min (length p) (
        if ==_ℤ mode (pos 2) then first + 4 else if ==_ℤ mode (pos 5) then first + 2 else first + 1)

-- The parameters at the head of a list that are sub-parameters.
unfoldable pub count_sub : Params → ℕ
count_sub [] = 0
count_sub (p ∷ ps) = if p.sub then suc (count_sub ps) else 0

abbrev pub group_end : Params → ℕ → ℕ
group_end p i = i + 1 + count_sub (drop (i + 1) p)

abbrev pub with_attrs : Style → ℕ → Style
with_attrs style attrs = record style { attrs = attrs }

-- The `switch` on a code.
unfoldable pub apply_code : Params → ℕ → ℕ → ℕ → Style → Style
apply_code p i end code style =
    let attrs = style.attrs in
    if code == 0
    then plain
    else if code == 1
    then with_attrs style (raise bold attrs)
    else if code == 2
    then with_attrs style (raise dim attrs)
    else if code == 3
    then with_attrs style (raise italic attrs)
    else if code == 4
    then (if ltb (i + 1) end && ==_ℤ (param_or p (i + 1) (pos 1)) (pos 0)
        then with_attrs style (lower underline attrs)
        else with_attrs style (raise underline attrs))
    else if code == 5 || code == 6
    then with_attrs style (raise blink attrs)
    else if code == 7
    then with_attrs style (raise reverse_video attrs)
    else if code == 8
    then with_attrs style (raise hidden attrs)
    else if code == 9
    then with_attrs style (raise strike attrs)
    else if code == 21
    then with_attrs style (raise underline attrs)
    else if code == 22
    then with_attrs style (lower dim (lower bold attrs))
    else if code == 23
    then with_attrs style (lower italic attrs)
    else if code == 24
    then with_attrs style (lower underline attrs)
    else if code == 25
    then with_attrs style (lower blink attrs)
    else if code == 27
    then with_attrs style (lower reverse_video attrs)
    else if code == 28
    then with_attrs style (lower hidden attrs)
    else if code == 29
    then with_attrs style (lower strike attrs)
    else if code == 39
    then record style { fg = def }
    else if code == 49
    then record style { bg = def }
    else if leb 30 code && leb code 37
    then record style { fg = indexed_color (code - 30) }
    else if leb 40 code && leb code 47
    then record style { bg = indexed_color (code - 40) }
    else if leb 90 code && leb code 97
    then record style { fg = indexed_color (code - 90 + 8) }
    else if leb 100 code && leb code 107
    then record style { bg = indexed_color (code - 100 + 8) }
    else style

abbrev pub paint : ℕ → Option Color → Style → Style
paint code none style = style
paint code (some c) style =
    if code == 38
    then record style { fg = c }
    else if code == 48
    then record style { bg = c }
    else style

abbrev pub is_extended : ℕ → Bool
is_extended code = code == 38 || code == 48 || code == 58

-- Where the parameters of an extended colour end.
abbrev pub extended_end : Params → ℕ → ℕ
extended_end p i = if ltb (i + 1) (group_end p i) then group_end p i else flat_extent p (i + 1)

abbrev pub next_index : ℕ → ℕ → ℕ
next_index i last = if ltb i last then last else i + 1

-- One turn of the loop: the index that follows, and the style.
unfoldable pub turn : Params → ℕ → Style → ℕ × Style
turn p i style =
    let code = pos_part (value_at p i) in
    if is_extended code
    then (
      next_index i (extended_end p i),
      paint code (read_extended p (i + 1) (extended_end p i)) style,
    )
    else (group_end p i, apply_code p i (group_end p i) code style)

unfoldable pub sgr_loop : ℕ → Params → ℕ → Style → ℕ × Style
sgr_loop zero p i style = (i, style)
sgr_loop (suc fuel) p i style =
    let rest = sgr_loop fuel p (turn p i style).0 (turn p i style).1 in
    if ltb i (length p) then rest else (i, style)

unfoldable pub apply_sgr : Params → Style → Style
apply_sgr [] style = plain
apply_sgr (p ∷ ps) style = (sgr_loop (length (p ∷ ps)) (p ∷ ps) 0 style).1
