-- ===== src/Render/Width.antt =====
-- src/render/width.cpp: how many cells a character takes.
-- `ambiguous` is the global that `set_ambiguous_wide` writes.
use sshos.Base.{
  ℕ, ◌≤◌, Bool, false, ◌&&◌, ◌||◌, List, [], ◌∷◌, Option, none, some, arith, ltb, leb,
  if◌then◌else◌,
}

pub record Range : Type 0 where
  pub lo : ℕ
  pub hi : ℕ

infix 68 ◌to◌
abbrev pub ◌to◌ : ℕ → ℕ → Range
lo to hi = record { lo = lo; hi = hi }

abbrev pub zero_ranges : List Range
zero_ranges =
    0x0300 to 0x036F
    ∷ 0x0483 to 0x0489
    ∷ 0x0591 to 0x05BD
    ∷ 0x0610 to 0x061A
    ∷ 0x064B to 0x065F
    ∷ 0x0670 to 0x0670
    ∷ 0x06D6 to 0x06DC
    ∷ 0x0E31 to 0x0E31
    ∷ 0x0E47 to 0x0E4E
    ∷ 0x200B to 0x200F
    ∷ 0x2060 to 0x2064
    ∷ 0xFE00 to 0xFE0F
    ∷ 0xFE20 to 0xFE2F
    ∷ 0xE0100 to 0xE01EF
    ∷ []

abbrev pub wide_ranges : List Range
wide_ranges =
    0x1100 to 0x115F
    ∷ 0x2E80 to 0x303E
    ∷ 0x3041 to 0x33FF
    ∷ 0x3400 to 0x4DBF
    ∷ 0x4E00 to 0x9FFF
    ∷ 0xA000 to 0xA4CF
    ∷ 0xAC00 to 0xD7A3
    ∷ 0xF900 to 0xFAFF
    ∷ 0xFE10 to 0xFE19
    ∷ 0xFE30 to 0xFE6F
    ∷ 0xFF00 to 0xFF60
    ∷ 0xFFE0 to 0xFFE6
    ∷ 0x1F300 to 0x1F64F
    ∷ 0x1F900 to 0x1F9FF
    ∷ 0x20000 to 0x3FFFD
    ∷ []

abbrev pub ambiguous_ranges : List Range
ambiguous_ranges =
    0x00A1 to 0x00A1
    ∷ 0x00B0 to 0x00B4
    ∷ 0x00B6 to 0x00BA
    ∷ 0x2010 to 0x2027
    ∷ 0x2190 to 0x21FF
    ∷ 0x2500 to 0x257F
    ∷ 0x25A0 to 0x25FF
    ∷ 0x2E80 to 0x2E80
    ∷ []

-- `std::prev` of `std::upper_bound`: the last range of a sorted table that begins at `cp` or before.
unfoldable pub last_from : Option Range → List Range → ℕ → Option Range
last_from before [] cp = before
last_from before (r ∷ rs) cp =
    let rest = last_from (some r) rs cp in if ltb cp r.lo then before else rest

abbrev pub reaches : Option Range → ℕ → Bool
reaches none cp = false
reaches (some r) cp = leb cp r.hi

abbrev pub is_in : List Range → ℕ → Bool
is_in table cp = reaches (last_from none table cp) cp

unfoldable pub char_width : Bool → ℕ → ℕ
char_width ambiguous cp =
    if ltb cp 0x20 || (leb 0x7F cp && ltb cp 0xA0)
    then 0
    else if is_in zero_ranges cp
    then 0
    else if ambiguous && is_in ambiguous_ranges cp
    then 2
    else if is_in wide_ranges cp
    then 2
    else 1

pub char_width_le : (ambiguous : Bool) (cp : ℕ) → char_width ambiguous cp ≤ 2
unfolding char_width
char_width_le ambiguous cp = ground arith
