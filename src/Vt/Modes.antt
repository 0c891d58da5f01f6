-- ===== src/Vt/Modes.antt =====
-- src/vt/modes.hpp and src/vt/modes.cpp: the private modes that a guest sets and asks for.
use sshos.Base.{ℕ, Bool, true, false, List, [], ◌∷◌, Option, none, some, ◌==◌, if◌then◌else◌}
use sshos.Base.Int.{ℤ, pos, ==_ℤ}
use sshos.Vt.Parser.{Param, Params}
pub mod Laws

pub data MouseTracking : Type 0 where
  no_tracking click drag any_motion : MouseTracking

pub record Modes : Type 0 where
  pub cursor_keys_application : Bool
  pub autowrap : Bool
  pub cursor_visible : Bool
  pub mouse_click : Bool
  pub mouse_drag : Bool
  pub mouse_any : Bool
  pub mouse_sgr : Bool
  pub alt_screen : Bool
  pub bracketed_paste : Bool

abbrev pub default_modes : Modes
default_modes = record {
  cursor_keys_application = false;
  autowrap = true;
  cursor_visible = true;
  mouse_click = false;
  mouse_drag = false;
  mouse_any = false;
  mouse_sgr = false;
  alt_screen = false;
  bracketed_paste = false;
}

-- A member of `Modes`, for the pointers of `kModes`.
pub data Flag : Type 0 where
  cursor_keys autowrap_flag visible click_flag drag_flag any_flag sgr_flag alt_flag paste_flag :
      Flag

abbrev pub read : Flag → Modes → Bool
read cursor_keys m = m.cursor_keys_application
read autowrap_flag m = m.autowrap
read visible m = m.cursor_visible
read click_flag m = m.mouse_click
read drag_flag m = m.mouse_drag
read any_flag m = m.mouse_any
read sgr_flag m = m.mouse_sgr
read alt_flag m = m.alt_screen
read paste_flag m = m.bracketed_paste

abbrev pub write : Flag → Bool → Modes → Modes
write cursor_keys on m = record m { cursor_keys_application = on }
write autowrap_flag on m = record m { autowrap = on }
write visible on m = record m { cursor_visible = on }
write click_flag on m = record m { mouse_click = on }
write drag_flag on m = record m { mouse_drag = on }
write any_flag on m = record m { mouse_any = on }
write sgr_flag on m = record m { mouse_sgr = on }
write alt_flag on m = record m { alt_screen = on }
write paste_flag on m = record m { bracketed_paste = on }

-- `kModes`.
abbrev pub mode_table : List (ℕ × Flag)
mode_table =
    (1, cursor_keys)
    ∷ (7, autowrap_flag)
    ∷ (25, visible)
    ∷ (1000, click_flag)
    ∷ (1002, drag_flag)
    ∷ (1003, any_flag)
    ∷ (1006, sgr_flag)
    ∷ (1049, alt_flag)
    ∷ (2004, paste_flag)
    ∷ []

unfoldable pub find_in : List (ℕ × Flag) → ℤ → Option Flag
find_in [] mode = none
find_in ((code, flag) ∷ entries) mode =
    if ==_ℤ (pos code) mode then some flag else find_in entries mode

abbrev pub find : ℤ → Option Flag
find mode = find_in mode_table mode

abbrev pub tracking : Modes → MouseTracking
tracking m =
    if m.mouse_any
    then any_motion
    else if m.mouse_drag
    then drag
    else if m.mouse_click
    then click
    else no_tracking

abbrev pub write_found : Option Flag → Bool → Modes → Modes
write_found none on m = m
write_found (some flag) on m = write flag on m

abbrev pub is_found : Option Flag → Bool
is_found none = false
is_found (some flag) = true

abbrev pub read_found : Option Flag → Modes → Bool
read_found none m = false
read_found (some flag) m = read flag m

unfoldable pub set : ℤ → Bool → Modes → Modes
set mode on m = write_found (find mode) on m

unfoldable pub knows : ℤ → Bool
knows mode = is_found (find mode)

unfoldable pub get : ℤ → Modes → Bool
get mode m = read_found (find mode) m

unfoldable pub apply_dec_private : Params → Bool → Modes → Modes
apply_dec_private [] on m = m
apply_dec_private (p ∷ ps) on m = apply_dec_private ps on (set p.value on m)
