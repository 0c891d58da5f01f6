-- ===== src/Vt/Parser/Step.antt =====
-- The transitions of the machine: one handler for each `case` of `Parser::step`.
use sshos.Base.{
  ℕ, ◌+◌, ◌-◌, ◌*◌, ◌/◌, ◌%◌, ◌^◌, Bool, false, not, ◌&&◌, ◌||◌, List, [], ◌∷◌, ◌++◌, length, ltb,
  leb, ◌==◌, if◌then◌else◌, low_bits, high_bits,
}
use sshos.Base.Int.{ℤ, pos, negsuc}
use sshos.Vt.Parser.{
  ground_state, escape, escape_intermediate, csi_entry, dcs_entry, osc_string, sos_pm_apc_string,
  Params, Event, print, execute, esc, Parser, max_params, max_param_value, max_intermediates, is_c0,
  is_intermediate, absent, clear_sequence, clear_utf8, go,
}

-- The new state, and the calls made on the sink.
abbrev pub Result : Type 0
Result = Parser × List Event

-- `collect` where there is room, and whether there was.
abbrev pub has_room : Parser → Bool
has_room p = ltb (length p.intermediates) max_intermediates

unfoldable pub collect : ℕ → Parser → Parser
collect b p = if has_room p then record p { intermediates = p.intermediates ++ b ∷ [] } else p

unfoldable pub next_param : Bool → Parser → Parser
next_param sub p =
    if ltb (length p.params) max_params
    then record p { params = p.params ++ absent sub ∷ [] }
    else p

-- A value, -1 counting as 0, with one more digit, capped.
unfoldable pub add_digit : ℤ → ℕ → ℕ
add_digit (pos v) digit =
    if leb v ((max_param_value - digit) / 10) then v * 10 + digit else max_param_value
add_digit (negsuc _) digit =
    if leb 0 ((max_param_value - digit) / 10) then digit else max_param_value

-- `params_.back()`, with one more digit.
unfoldable pub digit_last : Params → ℕ → Params
unfolding add_digit
digit_last [] digit = []
digit_last (p ∷ []) digit = record p { value = pos (add_digit p.value digit) } ∷ []
digit_last (p ∷ q ∷ ps) digit = p ∷ digit_last (q ∷ ps) digit

abbrev pub or_first : Params → Params
or_first [] = absent false ∷ []
or_first (p ∷ ps) = p ∷ ps

unfoldable pub push_param_digit : ℕ → Parser → Parser
unfolding digit_last
push_param_digit b p = record p { params = digit_last (or_first p.params) (b - b'0') }

-- `;` and `:`, behind which a parameter begins.
unfoldable pub separator : ℕ → Parser → Parser
unfolding next_param
separator b p = next_param (b == b':') (record p { params = or_first p.params })

unfoldable pub flush_utf8_as_replacement : Parser → Result
flush_utf8_as_replacement p =
    if p.utf8_need == 0 then (p, []) else (clear_utf8 p, print 0xFFFD ∷ [])

-- `utf8_byte` with no sequence pending.
unfoldable pub utf8_lead : ℕ → Parser → Result
utf8_lead b p =
    if leb 0xC2 b && leb b 0xDF
    then (record p { utf8_acc = low_bits b 5; utf8_need = 1; utf8_min = 0x80; utf8_seen = 0 }, [])
    else if leb 0xE0 b && leb b 0xEF
    then (record p { utf8_acc = low_bits b 4; utf8_need = 2; utf8_min = 0x800; utf8_seen = 0 }, [])
    else if leb 0xF0 b && leb b 0xF4
    then (
      record p { utf8_acc = low_bits b 3; utf8_need = 3; utf8_min = 0x10000; utf8_seen = 0 },
      [],
    )
    else (p, print 0xFFFD ∷ [])

-- `ground_byte` with no sequence pending.
unfoldable pub ground_fresh : ℕ → Parser → Result
ground_fresh b p =
    if b == 0x1B
    then (clear_sequence (go escape p), [])
    else if b == 0x18 || b == 0x1A
    then (p, execute b ∷ [])
    else if is_c0 b
    then (p, execute b ∷ [])
    else if b == 0x7F
    then (p, [])
    else if ltb b 0x80
    then (p, print b ∷ [])
    else utf8_lead b p

-- The value of a complete sequence: overlong, a surrogate, beyond plane 16, or a scalar.
unfoldable pub complete : ℕ → ℕ → Event
complete cp least =
    if ltb cp least || ((leb 0xD800 cp && leb cp 0xDFFF) || ltb 0x10FFFF cp)
    then print 0xFFFD
    else print cp

-- `utf8_byte` inside a sequence.
unfoldable pub utf8_pending : ℕ → Parser → Result
utf8_pending b p =
    let acc = (p.utf8_acc * 64 + low_bits b 6) % 2 ^ 32 in
    if not (high_bits b 6 == 0x80)
    then ((ground_fresh b (clear_utf8 p)).0, print 0xFFFD ∷ (ground_fresh b (clear_utf8 p)).1)
    else if ltb (p.utf8_seen + 1) p.utf8_need
    then (record p { utf8_acc = acc; utf8_seen = p.utf8_seen + 1 }, [])
    else (clear_utf8 p, complete acc p.utf8_min ∷ [])

unfoldable pub ground_byte : ℕ → Parser → Result
ground_byte b p = if ltb 0 p.utf8_need then utf8_pending b p else ground_fresh b p

-- `case VtState::Ground`
unfoldable pub in_ground : ℕ → Parser → Result
in_ground b p =
    let flushed = if b == 0x1B then flush_utf8_as_replacement p else (p, []) in
    ((ground_byte b flushed.0).0, flushed.1 ++ (ground_byte b flushed.0).1)

-- Behind an `esc` call, the machine is on the ground.
unfoldable pub in_escape : ℕ → Parser → Result
in_escape b p =
    if is_c0 b
    then (p, execute b ∷ [])
    else if is_intermediate b
    then (go escape_intermediate (collect b p), [])
    else if b == 0x7F
    then (p, [])
    else if b == b'['
    then (clear_sequence (go csi_entry p), [])
    else if b == b']'
    then (record p { state = osc_string; osc_data = [] }, [])
    else if b == b'P'
    then (clear_sequence (go dcs_entry p), [])
    else if b == b'X' || (b == b'^' || b == b'_')
    then (go sos_pm_apc_string p, [])
    else (go ground_state p, esc p.intermediates b ∷ [])

unfoldable pub in_escape_intermediate : ℕ → Parser → Result
in_escape_intermediate b p =
    if is_c0 b
    then (p, execute b ∷ [])
    else if is_intermediate b
    then (if has_room p then collect b p else go ground_state p, [])
    else if b == 0x7F
    then (p, [])
    else (go ground_state p, esc p.intermediates b ∷ [])
