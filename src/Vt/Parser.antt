-- ===== src/Vt/Parser.antt =====
-- src/vt/parser.hpp, parser.cpp and sink.hpp: the DEC state machine. What it calls on its sink is
-- a list of events. `utf8_byte` is split at its first test, so that its one call back into
-- `ground_byte`, made with no sequence pending, is a call of the part for a fresh byte.
pub mod Step
pub mod Machine
pub mod Safety
pub mod Bounds
pub mod Input
pub mod Text
pub mod Sequences
use sshos.Base.{
  ℕ, zero, suc, ◌+◌, ◌-◌, ◌*◌, ◌/◌, ◌%◌, ◌^◌, Bool, true, false, not, ◌&&◌, ◌||◌, List, [], ◌∷◌,
  ◌++◌, Bytes, length, ltb, leb, ◌==◌, if◌then◌else◌, low_bits, high_bits,
}
use sshos.Base.Int.{ℤ, pos, negsuc}

pub data VtState : Type 0 where
  ground_state escape escape_intermediate csi_entry csi_param csi_intermediate csi_ignore : VtState
  dcs_entry dcs_param dcs_intermediate dcs_passthrough dcs_ignore : VtState
  osc_string sos_pm_apc_string : VtState

-- `value` is -1 where the parameter is absent.
pub record Param : Type 0 where
  pub value : ℤ
  pub sub : Bool

abbrev pub Params : Type 0
Params = List Param

-- The calls on the `ParserSink`.
pub data Event : Type 0 where
  print : ℕ → Event
  execute : ℕ → Event
  csi : Params → Bytes → ℕ → Event
  esc : Bytes → ℕ → Event
  osc : Bytes → Event
  dcs_start : Params → Bytes → ℕ → Event
  dcs_data : Bytes → Event
  dcs_end : Event

pub record Parser : Type 0 where
  pub state : VtState
  pub params : Params
  pub intermediates : Bytes
  pub osc_data : Bytes
  pub utf8_acc : ℕ
  pub utf8_need : ℕ
  pub utf8_seen : ℕ
  pub utf8_min : ℕ

abbrev pub max_params : ℕ
max_params = 32

abbrev pub max_param_value : ℕ
max_param_value = 65535

abbrev pub max_intermediates : ℕ
max_intermediates = 4

abbrev pub max_osc : ℕ
max_osc = 4096

abbrev pub is_c0 : ℕ → Bool
is_c0 b = leb b 0x17 || (b == 0x19 || (leb 0x1C b && leb b 0x1F))

abbrev pub is_intermediate : ℕ → Bool
is_intermediate b = leb 0x20 b && leb b 0x2F

abbrev pub is_final : ℕ → Bool
is_final b = leb 0x40 b && leb b 0x7E

abbrev pub is_digit : ℕ → Bool
is_digit b = leb 0x30 b && leb b 0x39

abbrev pub is_private : ℕ → Bool
is_private b = leb 0x3C b && leb b 0x3F

abbrev pub fresh : Parser
fresh = record {
  state = ground_state;
  params = [];
  intermediates = [];
  osc_data = [];
  utf8_acc = 0;
  utf8_need = 0;
  utf8_seen = 0;
  utf8_min = 0;
}

abbrev pub absent : Bool → Param
absent sub = record { value = negsuc 0; sub = sub }

-- The value, or the fallback if the parameter is absent or beyond the list.
abbrev or_fallback : ℤ → ℤ → ℤ
or_fallback (pos n) fallback = pos n
or_fallback (negsuc n) fallback = fallback

unfoldable pub param_or : Params → ℕ → ℤ → ℤ
param_or [] index fallback = fallback
param_or (p ∷ ps) zero fallback = or_fallback p.value fallback
param_or (p ∷ ps) (suc index) fallback = param_or ps index fallback

abbrev pub clear_sequence : Parser → Parser
clear_sequence p = record p { params = []; intermediates = []; osc_data = [] }

abbrev pub clear_utf8 : Parser → Parser
clear_utf8 p = record p { utf8_acc = 0; utf8_need = 0; utf8_seen = 0; utf8_min = 0 }

abbrev pub go : VtState → Parser → Parser
go s p = record p { state = s }

abbrev pub reset : Parser → Parser
reset p = clear_utf8 (clear_sequence (go ground_state p))
