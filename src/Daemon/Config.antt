-- ===== src/Daemon/Config.antt =====
-- src/daemon/config.hpp and src/daemon/config.cpp: the settings of the desktop, as they are written to a
-- file and read back. The file itself is the system's.
pub mod RoundTrip
use sshos.Base.{
  ℕ, Bool, true, false, not, ◌||◌, Option, none, some, List, [], ◌∷◌, ◌++◌, Bytes, length, get_or,
  drop, ◌==◌, if◌then◌else◌,
}
use sshos.Base.Text.{codes, ==_Bytes, strip_front, strip_back, split_at_equals, lines_of}

pub record DesktopConfig : Type 0 where
  pub start_dir : Bytes

abbrev pub new_config : DesktopConfig
new_config = record { start_dir = [] }

abbrev pub is_blank : ℕ → Bool
is_blank c = c == b' ' || c == 0x09

abbrev pub is_end : ℕ → Bool
is_end c = is_blank c || c == 0x0D

abbrev pub trim : Bytes → Bytes
trim s = strip_back is_end (strip_front is_blank s)

abbrev pub take_setting : Option (Bytes × Bytes) → DesktopConfig → DesktopConfig
take_setting none c = c
take_setting (some (key, value)) c =
    if ==_Bytes (trim key) (codes "start_dir") then record c { start_dir = trim value } else c

-- A line is a comment, or a key with a value.
unfoldable pub take_line : Bytes → DesktopConfig → DesktopConfig
take_line line c =
    let clean = trim line in
    if length clean == 0 || get_or clean 0 0 == b'#'
    then c
    else take_setting (split_at_equals clean) c

unfoldable pub take_lines : List Bytes → DesktopConfig → DesktopConfig
take_lines [] c = c
take_lines (line ∷ lines) c = take_lines lines (take_line line c)

abbrev pub parse_config : Bytes → DesktopConfig
parse_config text = take_lines (lines_of text) new_config

abbrev pub first_line : Bytes
first_line = codes "# Reglages du bureau termos. Modifiable a la main ; le demon le relit"

abbrev pub second_line : Bytes
second_line = codes "# a son demarrage et le reecrit quand on change un reglage depuis le"

abbrev pub third_line : Bytes
third_line = codes "# bureau. Une ligne inconnue est ignoree, pas effacee au prochain tour."

abbrev pub setting : Bytes → Bytes
setting dir = codes "start_dir = " ++ dir

abbrev pub render_config : DesktopConfig → Bytes
render_config c =
    first_line
    ++ 0x0A
      ∷ (second_line
          ++ 0x0A
            ∷ (third_line
                ++ 0x0A
                  ∷ (if length c.start_dir == 0 then [] else setting c.start_dir ++ 0x0A ∷ [])))

unfoldable pub expand_home : Bytes → Bytes → Bytes
expand_home p home =
    if length p == 0 || not (get_or p 0 0 == b'~')
    then p
    else if length p == 1
    then home
    else if not (get_or p 1 0 == b'/')
    then p
    else home ++ drop 1 p

-- `Settings::start_dir`.
abbrev pub start_dir_of : Bytes → DesktopConfig → Bytes
start_dir_of home c = if length c.start_dir == 0 then home else expand_home c.start_dir home
