-- ===== src/Vt/Parser/Safety.antt =====
-- On any bytes the machine keeps its bounds, and calls its sink only within them.
use sshos.Base.{
  ℕ, ◌+◌, ◌-◌, ◌*◌, ◌%◌, ◌^◌, ◌≤◌, ◌<◌, ◌≡◌, refl, ◌⊎◌, true, false, [], ◌∷◌, arith, All,
  All-append, length, length-append, ◌==◌, low_bits,
}
use sshos.Base.Int.{ℤ, pos, negsuc}
use sshos.Common.Utf8.{IsScalar}
use sshos.Vt.Parser.{
  Param, Params, Event, print, execute, csi, esc, osc, dcs_start, dcs_data, dcs_end, Parser,
  max_params, max_param_value, max_intermediates, max_osc, is_digit, absent, clear_utf8,
}
use sshos.Vt.Parser.Step.{
  Result, collect, next_param, digit_last, or_first, push_param_digit, separator, utf8_lead,
  ground_fresh, complete, utf8_pending, ground_byte,
}
use sshos.Vt.Parser.Machine.{is_ground}

-- A value that the machine hands out: absent, or within the cap.
abbrev pub IsValue : ℤ → Type 0
IsValue (pos n) = n ≤ max_param_value
IsValue (negsuc n) = n ≡ 0

abbrev pub IsParam : Param → Type 0
IsParam p = IsValue p.value

-- How far a UTF-8 sequence has come: its length, the bytes seen, and their bits.
abbrev pub IsPending : ℕ → ℕ → ℕ → Type 0
IsPending need seen acc =
    (need ≡ 0)
    ⊎ ((need ≡ 1) × (seen ≡ 0) × (acc < 32))
    ⊎ ((need ≡ 2) × (((seen ≡ 0) × (acc < 16)) ⊎ ((seen ≡ 1) × (acc < 1024))))
    ⊎ ((need ≡ 3)
        × (((seen ≡ 0) × (acc < 8)) ⊎ ((seen ≡ 1) × (acc < 512)) ⊎ ((seen ≡ 2) × (acc < 32768))))

-- The bounds of the machine: nothing grows with the input, and no number leaves its type. A
-- UTF-8 sequence is pending on the ground only.
pub record IsBounded (p : Parser) : Type 0 where
  pub few_params : length p.params ≤ max_params
  pub values : All IsParam p.params
  pub few_intermediates : length p.intermediates ≤ max_intermediates
  pub short_osc : length p.osc_data ≤ max_osc
  pub pending : IsPending p.utf8_need p.utf8_seen p.utf8_acc
  pub quiet : is_ground p.state ≡ false → p.utf8_need ≡ 0

-- What the sink may rely on.
abbrev pub IsCall : Event → Type 0
IsCall (print c) = IsScalar c
IsCall (execute b) = b < 0x20
IsCall (csi ps is b) =
    (length ps ≤ max_params)
    × All IsParam ps
    × (length is ≤ max_intermediates)
    × (0x40 ≤ b)
    × (b ≤ 0x7E)
IsCall (esc is b) = length is ≤ max_intermediates
IsCall (osc text) = length text ≤ max_osc
IsCall (dcs_start ps is b) =
    (length ps ≤ max_params)
    × All IsParam ps
    × (length is ≤ max_intermediates)
    × (0x40 ≤ b)
    × (b ≤ 0x7E)
IsCall (dcs_data text) = length text ≡ 1
IsCall dcs_end = Unit

abbrev pub IsSafe : Result → Type 0
IsSafe r = IsBounded r.0 × All IsCall r.1

-- The parts of a step.
digit_last-values :
    (ps : Params) (digit : ℕ)
    → digit ≤ 9
    → All IsParam ps
    → (length (digit_last ps digit) ≡ length ps) × All IsParam (digit_last ps digit)
unfolding digit_last
digit_last-values [] digit d v = (refl, tt)
digit_last-values (p ∷ []) digit d v = ground arith
digit_last-values (p ∷ q ∷ ps) digit d v =
    let (l, h) = digit_last-values (q ∷ ps) digit d v.1 in (omega (arith, l), (v.0, h))

or_first-values :
    (ps : Params)
    → length ps ≤ max_params
    → All IsParam ps
    → (length (or_first ps) ≤ max_params) × All IsParam (or_first ps)
or_first-values [] l v = (omega arith, (refl, tt))
or_first-values (p ∷ ps) l v = (l, v)

module _ (b : ℕ) (p : Parser) (h : IsBounded p) where
  pub collect-IsBounded : IsBounded (collect b p)
  unfolding collect
  collect-IsBounded = ground (arith, length-append p.intermediates (b ∷ []))

  pub push_param_digit-IsBounded : is_digit b ≡ true → IsBounded (push_param_digit b p)
  unfolding push_param_digit
  push_param_digit-IsBounded d =
      let (l, v) = or_first-values p.params h.few_params h.values in
      let (l', v') = digit_last-values (or_first p.params) (b - b'0') (ground arith) v in
      record {
        few_params = omega (arith, l');
        values = v';
        few_intermediates = h.few_intermediates;
        short_osc = h.short_osc;
        pending = h.pending;
        quiet = h.quiet;
      }

  pub separator-IsBounded : IsBounded (separator b p)
  unfolding separator next_param
  separator-IsBounded =
      let (l, v) = or_first-values p.params h.few_params h.values in
      ground (
        arith,
        length-append (or_first p.params) (absent (b == b':') ∷ []),
        All-append IsParam (or_first p.params) (absent (b == b':') ∷ []) v (refl, tt),
      )

module _ (b : ℕ) (p : Parser) (byte : b < 256) (h : IsBounded p) where
  utf8_lead-IsSafe : is_ground p.state ≡ true → IsSafe (utf8_lead b p)
  unfolding utf8_lead
  utf8_lead-IsSafe g = ground arith

  ground_fresh-IsSafe : is_ground p.state ≡ true → p.utf8_need ≡ 0 → IsSafe (ground_fresh b p)
  unfolding ground_fresh
  ground_fresh-IsSafe g z = ground (arith, utf8_lead-IsSafe g)

  complete-IsCall : (cp least : ℕ) → IsCall (complete cp least)
  unfolding complete
  complete-IsCall cp least = ground arith

  pub clear_utf8-IsBounded : IsBounded (clear_utf8 p)
  clear_utf8-IsBounded = ground arith

module _ (b : ℕ) (p : Parser) (byte : b < 256) (h : IsBounded p) where
  utf8_pending-IsSafe : is_ground p.state ≡ true → 0 < p.utf8_need → IsSafe (utf8_pending b p)
  unfolding utf8_pending
  utf8_pending-IsSafe g z = ground (
    arith,
    ground_fresh-IsSafe b (clear_utf8 p) byte (clear_utf8-IsBounded b p byte h) g refl,
    complete-IsCall b p byte h ((p.utf8_acc * 64 + low_bits b 6) % 2 ^ 32) p.utf8_min,
  )

  pub ground_byte-IsSafe : is_ground p.state ≡ true → IsSafe (ground_byte b p)
  unfolding ground_byte
  ground_byte-IsSafe g = ground (arith, utf8_pending-IsSafe g, ground_fresh-IsSafe b p byte h g)
