-- ===== src/Vt/Parser/Machine.antt =====
-- The control sequences, the strings, and the machine that ties the handlers together.
use sshos.Base.{
  ℕ, Bool, true, false, not, ◌&&◌, ◌||◌, List, [], ◌∷◌, ◌++◌, Bytes, length, ltb, ◌==◌,
  if◌then◌else◌,
}
use sshos.Vt.Parser.{
  VtState, ground_state, escape, escape_intermediate, csi_entry, csi_param, csi_intermediate,
  csi_ignore, dcs_entry, dcs_param, dcs_intermediate, dcs_passthrough, dcs_ignore, osc_string,
  sos_pm_apc_string, Event, execute, csi, osc, dcs_start, dcs_data, dcs_end, Parser, max_osc, is_c0,
  is_intermediate, is_final, is_digit, is_private, clear_sequence, go,
}
use sshos.Vt.Parser.Step.{
  Result, has_room, collect, push_param_digit, separator, in_ground, in_escape,
  in_escape_intermediate,
}

-- `if (!collect(b)) state_ = ignore; else state_ = next;`
abbrev pub collect_or : VtState → VtState → ℕ → Parser → Parser
collect_or ignore next b p = if has_room p then go next (collect b p) else go ignore p

unfoldable pub in_csi_entry : ℕ → Parser → Result
in_csi_entry b p =
    if is_c0 b
    then (p, execute b ∷ [])
    else if b == 0x7F
    then (p, [])
    else if is_final b
    then (go ground_state p, csi p.params p.intermediates b ∷ [])
    else if is_intermediate b
    then (collect_or csi_ignore csi_intermediate b p, [])
    else if is_private b
    then (go csi_param (collect b p), [])
    else if is_digit b
    then (go csi_param (push_param_digit b p), [])
    else if b == b';' || b == b':'
    then (go csi_param (separator b p), [])
    else (go csi_ignore p, [])

unfoldable pub in_csi_param : ℕ → Parser → Result
in_csi_param b p =
    if is_c0 b
    then (p, execute b ∷ [])
    else if b == 0x7F
    then (p, [])
    else if is_digit b
    then (push_param_digit b p, [])
    else if b == b';' || b == b':'
    then (separator b p, [])
    else if is_final b
    then (go ground_state p, csi p.params p.intermediates b ∷ [])
    else if is_intermediate b
    then (collect_or csi_ignore csi_intermediate b p, [])
    else (go csi_ignore p, [])

unfoldable pub in_csi_intermediate : ℕ → Parser → Result
in_csi_intermediate b p =
    if is_c0 b
    then (p, execute b ∷ [])
    else if b == 0x7F
    then (p, [])
    else if is_intermediate b
    then (if has_room p then collect b p else go csi_ignore p, [])
    else if is_final b
    then (go ground_state p, csi p.params p.intermediates b ∷ [])
    else (go csi_ignore p, [])

unfoldable pub in_csi_ignore : ℕ → Parser → Result
in_csi_ignore b p =
    if is_c0 b then (p, execute b ∷ []) else if is_final b then (go ground_state p, []) else (p, [])

unfoldable pub in_dcs_entry : ℕ → Parser → Result
in_dcs_entry b p =
    if b == 0x7F || is_c0 b
    then (p, [])
    else if is_final b
    then (go dcs_passthrough p, dcs_start p.params p.intermediates b ∷ [])
    else if is_intermediate b
    then (collect_or dcs_ignore dcs_intermediate b p, [])
    else if is_private b
    then (go dcs_param (collect b p), [])
    else if is_digit b
    then (go dcs_param (push_param_digit b p), [])
    else if b == b';' || b == b':'
    then (go dcs_param (separator b p), [])
    else (go dcs_ignore p, [])

unfoldable pub in_dcs_param : ℕ → Parser → Result
in_dcs_param b p =
    if b == 0x7F || is_c0 b
    then (p, [])
    else if is_digit b
    then (push_param_digit b p, [])
    else if b == b';' || b == b':'
    then (separator b p, [])
    else if is_final b
    then (go dcs_passthrough p, dcs_start p.params p.intermediates b ∷ [])
    else if is_intermediate b
    then (collect_or dcs_ignore dcs_intermediate b p, [])
    else (go dcs_ignore p, [])

unfoldable pub in_dcs_intermediate : ℕ → Parser → Result
in_dcs_intermediate b p =
    if b == 0x7F || is_c0 b
    then (p, [])
    else if is_intermediate b
    then (if has_room p then collect b p else go dcs_ignore p, [])
    else if is_final b
    then (go dcs_passthrough p, dcs_start p.params p.intermediates b ∷ [])
    else (go dcs_ignore p, [])

unfoldable pub in_osc_string : ℕ → Parser → Result
in_osc_string b p =
    if b == 0x07
    then (clear_sequence (go ground_state p), osc p.osc_data ∷ [])
    else if is_c0 b
    then (p, [])
    else if ltb (length p.osc_data) max_osc
    then (record p { osc_data = p.osc_data ++ b ∷ [] }, [])
    else (p, [])

-- The `switch` on the state.
unfoldable pub dispatch : VtState → ℕ → Parser → Result
dispatch ground_state b p = in_ground b p
dispatch escape b p = in_escape b p
dispatch escape_intermediate b p = in_escape_intermediate b p
dispatch csi_entry b p = in_csi_entry b p
dispatch csi_param b p = in_csi_param b p
dispatch csi_intermediate b p = in_csi_intermediate b p
dispatch csi_ignore b p = in_csi_ignore b p
dispatch dcs_entry b p = in_dcs_entry b p
dispatch dcs_param b p = in_dcs_param b p
dispatch dcs_intermediate b p = in_dcs_intermediate b p
dispatch dcs_passthrough b p = (p, if b == 0x7F then [] else dcs_data (b ∷ []) ∷ [])
dispatch dcs_ignore b p = (p, [])
dispatch osc_string b p = in_osc_string b p
dispatch sos_pm_apc_string b p = (p, [])

abbrev pub is_ground : VtState → Bool
is_ground ground_state = true
is_ground _ = false

-- What CAN, SUB and ESC close on their way out of a state.
abbrev pub close_dcs : VtState → List Event
close_dcs dcs_passthrough = dcs_end ∷ []
close_dcs _ = []

abbrev pub close_osc : VtState → Bytes → List Event
close_osc osc_string text = osc text ∷ []
close_osc _ text = []

unfoldable pub step : ℕ → Parser → Result
step b p =
    if (b == 0x18 || b == 0x1A) && not (is_ground p.state)
    then (clear_sequence (go ground_state p), close_dcs p.state ++ execute b ∷ [])
    else if b == 0x1B && not (is_ground p.state)
    then (clear_sequence (go escape p), close_osc p.state p.osc_data ++ close_dcs p.state)
    else dispatch p.state b p

unfoldable pub feed : Bytes → Parser → Result
feed [] p = (p, [])
feed (b ∷ bs) p = ((feed bs (step b p).0).0, (step b p).1 ++ (feed bs (step b p).0).1)
