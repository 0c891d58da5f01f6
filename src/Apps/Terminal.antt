-- ===== src/Apps/Terminal.antt =====
-- src/apps/terminal.cpp: the tab of the terminal that a guest writes to. Its screen, its modes and
-- its history follow what the parser calls; `pending` is what the guest is answered, for the master
-- of its pseudo-terminal. The pseudo-terminal itself and the bar of the tabs are not modelled here.
pub mod Calls
pub mod Typing
use sshos.Base.{
  ℕ, ◌+◌, Bool, true, false, not, ◌&&◌, ◌||◌, List, [], ◌∷◌, ◌++◌, Bytes, Option, none, some, ◌==◌,
  if◌then◌else◌,
}
use sshos.Base.Int.{ℤ, pos, pos_part, ◌-ℤ◌, ==_ℤ, max_ℤ}
use sshos.Vt.Parser.{
  Params, Event, print, execute, csi, esc, osc, dcs_start, dcs_data, dcs_end, Parser, fresh,
  param_or,
}
use sshos.Vt.Parser.Machine.{feed}
use sshos.Vt.Attrs.{apply_sgr}
use sshos.Vt.Charset.{charset_from_final}
use sshos.Vt.Modes.{Modes, default_modes, apply_dec_private}
use sshos.Base.Text.{==_Bytes}
use sshos.Vt.Reply.{reply_for_csi}
use sshos.Vt.Scrollback.{new_scrollback, default_scrollback_lines}
use sshos.Vt.Screen.{Screen, new_screen}
use sshos.Vt.Screen.Cursor as Cursor
use sshos.Vt.Screen.Edit as Edit
use sshos.Vt.Screen.Pages.{enter_alt_screen, leave_alt_screen}

pub record Tab : Type 0 where
  pub parser : Parser
  pub screen : Screen
  pub modes : Modes
  pub pending : Bytes
  pub guest_title : Bytes

-- `Tab`, with its history given to its screen.
abbrev pub new_tab : Tab
new_tab = record {
  parser = fresh;
  screen =
      Cursor.set_scrollback (some (new_scrollback default_scrollback_lines))
        (new_screen (pos 80) (pos 24));
  modes = default_modes;
  pending = [];
  guest_title = [];
}

abbrev pub count_of : Params → ℕ → ℤ
count_of p index = max_ℤ (pos 1) (param_or p index (pos 1))

-- A byte of the C0 set.
unfoldable pub executed : ℕ → Screen → Screen
executed byte s =
    if byte == 0x0A || byte == 0x0B || byte == 0x0C
    then Cursor.line_feed s
    else if byte == 0x0D
    then Cursor.carriage_return s
    else if byte == 0x08
    then Cursor.backspace s
    else if byte == 0x09
    then Cursor.tab s
    else s

unfoldable pub sync_modes : Modes → Screen → Screen
sync_modes m s =
    let t = Cursor.set_autowrap m.autowrap s in
    if m.alt_screen && not t.alt
    then enter_alt_screen t
    else if not m.alt_screen && t.alt
    then leave_alt_screen t
    else t

abbrev pub set_region : Params → Screen → Screen
set_region [] s = Cursor.reset_scroll_region s
set_region (p ∷ ps) s =
    Cursor.set_scroll_region (count_of (p ∷ ps) 0 -ℤ pos 1)
      (param_or (p ∷ ps) 1 (pos s.rows) -ℤ pos 1) s

-- The `switch` on the final byte of a sequence without intermediates.
unfoldable pub csi_screen : Params → ℕ → Screen → Screen
csi_screen params b s =
    let n = count_of params 0 in
    if b == b'A'
    then Cursor.move_up n s
    else if b == b'B'
    then Cursor.move_down n s
    else if b == b'C'
    then Cursor.move_right n s
    else if b == b'D'
    then Cursor.move_left n s
    else if b == b'G'
    then Cursor.set_column (n -ℤ pos 1) s
    else if b == b'd'
    then Cursor.set_row (n -ℤ pos 1) s
    else if b == b'H' || b == b'f'
    then Cursor.move_to (count_of params 1 -ℤ pos 1) (count_of params 0 -ℤ pos 1) s
    else if b == b'J'
    then Edit.erase_display (pos_part (param_or params 0 (pos 0))) s
    else if b == b'K'
    then Edit.erase_line (pos_part (param_or params 0 (pos 0))) s
    else if b == b'X'
    then Edit.erase_chars n s
    else if b == b'@'
    then Edit.insert_chars n s
    else if b == b'P'
    then Edit.delete_chars n s
    else if b == b'L'
    then Edit.insert_lines n s
    else if b == b'M'
    then Edit.delete_lines n s
    else if b == b'r'
    then set_region params s
    else if b == b'g'
    then (if ==_ℤ (param_or params 0 (pos 0)) (pos 0)
        then Cursor.clear_tab s
        else if ==_ℤ (param_or params 0 (pos 0)) (pos 3)
        then Cursor.clear_all_tabs s
        else s)
    else if b == b'm'
    then Cursor.set_pen (apply_sgr params s.pen) s
    else s

-- A question is answered, and does nothing else.
unfoldable pub on_csi : Params → Bytes → ℕ → Tab → Tab
on_csi params intermediates b t =
    let answer = reply_for_csi params intermediates b t.screen.cx t.screen.cy t.modes in
    let modes = apply_dec_private params (b == b'h') t.modes in
    if not (==_Bytes answer [])
    then record t { pending = t.pending ++ answer }
    else if ==_Bytes intermediates (b'?' ∷ [])
    then (if b == b'h' || b == b'l'
        then record t { modes = modes; screen = sync_modes modes t.screen }
        else t)
    else if not (==_Bytes intermediates [])
    then t
    else record t { screen = csi_screen params b t.screen }

unfoldable pub esc_screen : Bytes → ℕ → Screen → Screen
esc_screen intermediates b s =
    if ==_Bytes intermediates (b'(' ∷ [])
    then Cursor.set_charset (charset_from_final b) s
    else if not (==_Bytes intermediates [])
    then s
    else if b == b'7'
    then Cursor.save_cursor s
    else if b == b'8'
    then Cursor.restore_cursor s
    else if b == b'D'
    then Cursor.index s
    else if b == b'M'
    then Cursor.reverse_index s
    else if b == b'E'
    then Cursor.next_line s
    else if b == b'H'
    then Cursor.set_tab s
    else s

-- A text cut at its first `;`.
unfoldable pub split_at_semicolon : Bytes → Option (Bytes × Bytes)
split_at_semicolon [] = none
split_at_semicolon (b ∷ bs) =
    let rest = split_at_semicolon bs in
    if b == b';'
    then some ([], bs)
    else elim rest [ none ↦ none | some (id, text) ↦ some (b ∷ id, text) ]

abbrev pub is_title : Bytes → Bool
is_title id = ==_Bytes id (b'0' ∷ []) || ==_Bytes id (b'2' ∷ [])

abbrev pub entitle : Option (Bytes × Bytes) → Tab → Tab
entitle none t = t
entitle (some (id, title)) t = if is_title id then record t { guest_title = title } else t

unfoldable pub on_osc : Bytes → Tab → Tab
on_osc text t = entitle (split_at_semicolon text) t

-- The calls of the parser on its sink.
unfoldable pub handle : Bool → Event → Tab → Tab
handle ambiguous (print cp) t = record t { screen = Edit.print ambiguous cp t.screen }
handle ambiguous (execute b) t = record t { screen = executed b t.screen }
handle ambiguous (csi params intermediates b) t = on_csi params intermediates b t
handle ambiguous (esc intermediates b) t = record t { screen = esc_screen intermediates b t.screen }
handle ambiguous (osc text) t = on_osc text t
handle ambiguous (dcs_start params intermediates b) t = t
handle ambiguous (dcs_data chunk) t = t
handle ambiguous dcs_end t = t

abbrev pub handle_all : Bool → List Event → Tab → Tab
handle_all ambiguous [] t = t
handle_all ambiguous (e ∷ es) t = handle_all ambiguous es (handle ambiguous e t)

-- The bytes that are read from the guest.
unfoldable pub receive : Bool → Bytes → Tab → Tab
receive ambiguous bytes t =
    let fed = feed bytes t.parser in handle_all ambiguous fed.1 (record t { parser = fed.0 })
