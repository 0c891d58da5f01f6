-- ===== src/Vt/Reply.antt =====
-- src/vt/reply.hpp and src/vt/reply.cpp: what a guest is answered.
use sshos.Base.{ℕ, ◌+◌, ◌&&◌, [], ◌∷◌, ◌++◌, Bytes, ◌==◌, if◌then◌else◌}
use sshos.Base.Text.{==_Bytes}
use sshos.Base.Decimal.{to_string}
use sshos.Base.Int.{ℤ, pos, negsuc, pos_part, ==_ℤ, ltb_ℤ}
use sshos.Vt.Parser.{Params, param_or}
use sshos.Vt.Modes.{Modes, knows, get}

-- `ESC [` and what follows.
abbrev pub csi_of : Bytes → Bytes
csi_of rest = 0x1B ∷ b'[' ∷ rest

abbrev pub device_attributes : Bytes
device_attributes = csi_of (b'?' ∷ b'6' ∷ b'2' ∷ b';' ∷ b'2' ∷ b'2' ∷ b'c' ∷ [])

abbrev pub secondary_device_attributes : Bytes
secondary_device_attributes = csi_of (b'>' ∷ b'1' ∷ b';' ∷ b'2' ∷ b'0' ∷ b';' ∷ b'0' ∷ b'c' ∷ [])

abbrev pub cursor_position_report : ℕ → ℕ → Bytes
cursor_position_report x y = csi_of (to_string (y + 1) ++ (b';' ∷ (to_string (x + 1) ++ b'R' ∷ [])))

abbrev pub extended_cursor_position_report : ℕ → ℕ → Bytes
extended_cursor_position_report x y =
    csi_of (b'?' ∷ (to_string (y + 1) ++ (b';' ∷ (to_string (x + 1) ++ b';' ∷ b'1' ∷ b'R' ∷ []))))

abbrev pub device_status_ok : Bytes
device_status_ok = csi_of (b'0' ∷ b'n' ∷ [])

abbrev pub mode_state : ℤ → Modes → ℕ
mode_state mode modes = if knows mode then (if get mode modes then 1 else 2) else 0

abbrev pub dec_mode_report : ℤ → Modes → Bytes
dec_mode_report mode modes = csi_of (
    b'?'
    ∷ (to_string (pos_part mode)
        ++ (b';' ∷ (to_string (mode_state mode modes) ++ b'$' ∷ b'y' ∷ []))))

-- An empty answer is none.
unfoldable pub reply_for_csi : Params → Bytes → ℕ → ℕ → ℕ → Modes → Bytes
reply_for_csi params intermediates final_byte cursor_x cursor_y modes =
    let query = param_or params 0 (pos 0) in
    let mode = param_or params 0 (negsuc 0) in
    if final_byte == b'c'
    then (if ==_Bytes intermediates []
        then device_attributes
        else if ==_Bytes intermediates (b'>' ∷ [])
        then secondary_device_attributes
        else [])
    else if final_byte == b'n' && ==_Bytes intermediates []
    then (if ==_ℤ query (pos 5)
        then device_status_ok
        else if ==_ℤ query (pos 6)
        then cursor_position_report cursor_x cursor_y
        else [])
    else if final_byte == b'n' && (==_Bytes intermediates (b'?' ∷ []) && ==_ℤ query (pos 6))
    then extended_cursor_position_report cursor_x cursor_y
    else if final_byte == b'p'
    then (if ltb_ℤ mode (pos 0)
        then []
        else if ==_Bytes intermediates (b'?' ∷ b'$' ∷ [])
        then dec_mode_report mode modes
        else if ==_Bytes intermediates (b'$' ∷ [])
        then csi_of (to_string (pos_part mode) ++ b';' ∷ b'0' ∷ b'$' ∷ b'y' ∷ [])
        else [])
    else []
