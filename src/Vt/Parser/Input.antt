-- ===== src/Vt/Parser/Input.antt =====
-- A step, and any input: the machine's bounds, and what it calls on its sink.
use sshos.Base.{
  ℕ, ◌<◌, ◌≡◌, refl, inl, inr, true, false, ◌||◌, [], ◌∷◌, arith, Bytes, All, All-append, IsByte,
  ◌==◌, Bool-cases,
}
use sshos.Vt.Parser.{
  VtState, ground_state, escape, escape_intermediate, csi_entry, csi_param, csi_intermediate,
  csi_ignore, dcs_entry, dcs_param, dcs_intermediate, dcs_passthrough, dcs_ignore, osc_string,
  sos_pm_apc_string, execute, Parser, fresh, clear_sequence, go,
}
use sshos.Vt.Parser.Step.{Result, flush_utf8_as_replacement, ground_byte, in_ground}
use sshos.Vt.Parser.Machine.{dispatch, is_ground, close_dcs, close_osc, step, feed}
use sshos.Vt.Parser.Safety.{IsBounded, IsCall, IsSafe, ground_byte-IsSafe, clear_utf8-IsBounded}
use sshos.Vt.Parser.Bounds.{
  IsQuiet, in_escape-IsQuiet, in_escape_intermediate-IsQuiet, in_csi_entry-IsQuiet,
  in_csi_param-IsQuiet, in_csi_intermediate-IsQuiet, in_csi_ignore-IsQuiet, in_dcs_entry-IsQuiet,
  in_dcs_param-IsQuiet, in_dcs_intermediate-IsQuiet, in_osc_string-IsQuiet,
}

module _ (b : ℕ) (p : Parser) (byte : b < 256) (h : IsBounded p) where
  flushed-IsSafe :
      IsSafe (flush_utf8_as_replacement p) × ((flush_utf8_as_replacement p).0.state ≡ p.state)
  unfolding flush_utf8_as_replacement
  flushed-IsSafe = ground (arith, clear_utf8-IsBounded b p byte h)

  in_ground-IsSafe : is_ground p.state ≡ true → IsSafe (in_ground b p)
  unfolding in_ground
  in_ground-IsSafe g = elim (Bool-cases (b == 0x1B)) [
    | inl e ↦
        let ((q, calls), same) = flushed-IsSafe in
        let (q', calls') =
          ground_byte-IsSafe b (flush_utf8_as_replacement p).0 byte q (rw same g) in
        rw e (
          q',
          All-append IsCall (flush_utf8_as_replacement p).1
              (ground_byte b (flush_utf8_as_replacement p).0).1 calls calls',
        )
    | inr e ↦ rw e (ground_byte-IsSafe b p byte h g)
  ]

  safe : (r : Result) → IsQuiet r → IsSafe r
  safe r k = (k.bounded, k.calls)

  dispatch-IsSafe : (s : VtState) → p.state ≡ s → IsSafe (dispatch s b p)
  unfolding dispatch
  dispatch-IsSafe ground_state e = in_ground-IsSafe (rw e)
  dispatch-IsSafe escape e = safe _ (in_escape-IsQuiet b p h (h.quiet (rw e)))
  dispatch-IsSafe escape_intermediate e =
      safe _ (in_escape_intermediate-IsQuiet b p h (h.quiet (rw e)))
  dispatch-IsSafe csi_entry e = safe _ (in_csi_entry-IsQuiet b p h (h.quiet (rw e)))
  dispatch-IsSafe csi_param e = safe _ (in_csi_param-IsQuiet b p h (h.quiet (rw e)))
  dispatch-IsSafe csi_intermediate e = safe _ (in_csi_intermediate-IsQuiet b p h (h.quiet (rw e)))
  dispatch-IsSafe csi_ignore e = safe _ (in_csi_ignore-IsQuiet b p h (h.quiet (rw e)))
  dispatch-IsSafe dcs_entry e = safe _ (in_dcs_entry-IsQuiet b p h (h.quiet (rw e)))
  dispatch-IsSafe dcs_param e = safe _ (in_dcs_param-IsQuiet b p h (h.quiet (rw e)))
  dispatch-IsSafe dcs_intermediate e = safe _ (in_dcs_intermediate-IsQuiet b p h (h.quiet (rw e)))
  dispatch-IsSafe dcs_passthrough e = (h, ground arith)
  dispatch-IsSafe dcs_ignore e = (h, tt)
  dispatch-IsSafe osc_string e = safe _ (in_osc_string-IsQuiet b p h (h.quiet (rw e)))
  dispatch-IsSafe sos_pm_apc_string e = (h, tt)

  close_dcs-IsCall : (s : VtState) → All IsCall (close_dcs s)
  close_dcs-IsCall dcs_passthrough = (tt, tt)
  close_dcs-IsCall _ = tt

  close_osc-IsCall : (s : VtState) → All IsCall (close_osc s p.osc_data)
  close_osc-IsCall osc_string = (h.short_osc, tt)
  close_osc-IsCall _ = tt

  cleared : (s : VtState) → is_ground p.state ≡ false → IsBounded (clear_sequence (go s p))
  cleared s g = record {
    few_params = omega arith;
    values = tt;
    few_intermediates = omega arith;
    short_osc = omega arith;
    pending = h.pending;
    quiet = λ _. h.quiet g;
  }

  step-IsSafe : IsSafe (step b p)
  unfolding step
  step-IsSafe = elim (Bool-cases (is_ground p.state)) [
    | inl g ↦ ground (arith, dispatch-IsSafe p.state refl)
    | inr g ↦ elim (Bool-cases (b == 0x18 || b == 0x1A)) [
      | inl e ↦
          rw (g, e)
            (
              cleared ground_state g,
              All-append IsCall (close_dcs p.state) (execute b ∷ []) (close_dcs-IsCall p.state)
                  (ground arith, tt),
            )
      | inr e ↦ elim (Bool-cases (b == 0x1B)) [
        | inl x ↦
            rw (g, e, x)
              (
                cleared escape g,
                All-append IsCall (close_osc p.state p.osc_data) (close_dcs p.state)
                    (close_osc-IsCall p.state) (close_dcs-IsCall p.state),
              )
        | inr x ↦ rw (g, e, x) (dispatch-IsSafe p.state refl)
      ]
    ]
  ]

-- On any bytes whatever, the machine stays within its bounds, and each call on its sink is within
-- them: scalars are printed, and lists, values and strings keep their caps.
pub feed-IsSafe : (bs : Bytes) (p : Parser) → All IsByte bs → IsBounded p → IsSafe (feed bs p)
unfolding feed
feed-IsSafe [] p a h = (h, tt)
feed-IsSafe (b ∷ bs) p a h =
    let (q, calls) = step-IsSafe b p a.0 h in
    let (r, calls') = feed-IsSafe bs (step b p).0 a.1 q in
    (r, All-append IsCall (step b p).1 (feed bs (step b p).0).1 calls calls')

pub fresh-IsBounded : IsBounded fresh
fresh-IsBounded = record {
  few_params = omega arith;
  values = tt;
  few_intermediates = omega arith;
  short_osc = omega arith;
  pending = inl refl;
  quiet = λ e. cc;
}
