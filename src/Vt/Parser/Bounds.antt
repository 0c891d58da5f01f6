-- ===== src/Vt/Parser/Bounds.antt =====
-- The bounds through every handler, through a step, and through any input.
use sshos.Base.{
  ℕ, ◌≡◌, inl, inr, true, ◌||◌, List, [], ◌∷◌, ◌++◌, arith, All, length, length-append, ltb, ◌==◌,
  Bool-cases, if◌then◌else◌,
}
use sshos.Vt.Parser.{
  VtState, ground_state, escape_intermediate, csi_entry, csi_param, csi_intermediate, csi_ignore,
  dcs_entry, dcs_param, dcs_intermediate, dcs_passthrough, dcs_ignore, osc_string,
  sos_pm_apc_string, Event, execute, csi, esc, osc, dcs_start, Parser, clear_sequence, go, is_digit,
  is_c0, is_final, is_intermediate, is_private, max_osc,
}
use sshos.Vt.Parser.Step.{
  Result, collect, push_param_digit, separator, next_param, has_room, in_escape,
  in_escape_intermediate,
}
use sshos.Vt.Parser.Machine.{
  collect_or, in_csi_entry, in_csi_param, in_csi_intermediate, in_csi_ignore, in_dcs_entry,
  in_dcs_param, in_dcs_intermediate, in_osc_string,
}
use sshos.Vt.Parser.Safety.{
  IsBounded, IsCall, collect-IsBounded, push_param_digit-IsBounded, separator-IsBounded,
}

-- A safe result off the ground: no UTF-8 sequence is pending.
pub record IsQuiet (r : Result) : Type 0 where
  pub bounded : IsBounded r.0
  pub silent : r.0.utf8_need ≡ 0
  pub calls : All IsCall r.1

module _ (b : ℕ) (p : Parser) (h : IsBounded p) (q : p.utf8_need ≡ 0) where
  goes : (s : VtState) → IsQuiet (go s p, [])
  goes s = record { bounded = ground arith; silent = q; calls = tt }

  stays : IsQuiet (p, [])
  stays = record { bounded = h; silent = q; calls = tt }

  calls_out : (s : VtState) (e : Event) → IsCall e → IsQuiet (go s p, e ∷ [])
  calls_out s e k = record { bounded = ground arith; silent = q; calls = (k, tt) }

  executes : is_c0 b ≡ true → IsQuiet (p, execute b ∷ [])
  executes e = record { bounded = h; silent = q; calls = (ground arith, tt) }

  clears : (s : VtState) (es : List Event) → All IsCall es → IsQuiet (clear_sequence (go s p), es)
  clears s es k = record { bounded = ground arith; silent = q; calls = k }

  collects : IsQuiet (collect b p, [])
  collects = record {
    bounded = collect-IsBounded b p h;
    silent = unfold collect in (ground arith);
    calls = tt;
  }

  takes_digit : is_digit b ≡ true → IsQuiet (push_param_digit b p, [])
  takes_digit d = record {
    bounded = push_param_digit-IsBounded b p h d;
    silent = unfold push_param_digit in q;
    calls = tt;
  }

  separates : IsQuiet (separator b p, [])
  separates = record {
    bounded = separator-IsBounded b p h;
    silent = unfold separator next_param in (ground arith);
    calls = tt;
  }

module _ (b : ℕ) (p : Parser) (h : IsBounded p) (q : p.utf8_need ≡ 0) where
  opens_osc : IsQuiet (record p { state = osc_string; osc_data = [] }, [])
  opens_osc = record { bounded = ground arith; silent = q; calls = tt }

  extends_osc :
      ltb (length p.osc_data) max_osc ≡ true
      → IsQuiet (record p { osc_data = p.osc_data ++ b ∷ [] }, [])
  extends_osc e = record {
    bounded = ground (arith, length-append p.osc_data (b ∷ []));
    silent = q;
    calls = tt;
  }

then_go : (p : Parser) (s : VtState) → IsQuiet (p, []) → IsQuiet (go s p, [])
then_go p s k = goes 0 p k.bounded k.silent s

module _ (b : ℕ) (p : Parser) (h : IsBounded p) (q : p.utf8_need ≡ 0) where
  collects_or : (ignore next : VtState) → IsQuiet (collect_or ignore next b p, [])
  collects_or ignore next = elim (Bool-cases (has_room p)) [
    | inl e ↦ rw e (then_go (collect b p) next (collects b p h q))
    | inr e ↦ rw e (goes b p h q ignore)
  ]

  pub in_escape-IsQuiet : IsQuiet (in_escape b p)
  unfolding in_escape
  in_escape-IsQuiet = elim (Bool-cases (is_c0 b)) [
    | inl e ↦ rw e (executes b p h q e)
    | inr ne7 ↦ rw ne7 (elim (Bool-cases (is_intermediate b)) [
      | inl e ↦ rw e (then_go (collect b p) escape_intermediate (collects b p h q))
      | inr ne6 ↦ rw ne6 (elim (Bool-cases (b == 0x7F)) [
        | inl e ↦ rw e (stays b p h q)
        | inr ne5 ↦ rw ne5 (elim (Bool-cases (b == b'[')) [
          | inl e ↦ rw e (clears b p h q csi_entry [] tt)
          | inr ne4 ↦ rw ne4 (elim (Bool-cases (b == b']')) [
            | inl e ↦ rw e (opens_osc b p h q)
            | inr ne3 ↦ rw ne3 (elim (Bool-cases (b == b'P')) [
              | inl e ↦ rw e (clears b p h q dcs_entry [] tt)
              | inr ne2 ↦ rw ne2 (elim (Bool-cases (b == b'X' || (b == b'^' || b == b'_'))) [
                | inl e ↦ rw e (goes b p h q sos_pm_apc_string)
                | inr ne1 ↦
                    rw ne1
                      (calls_out b p h q ground_state (esc p.intermediates b) h.few_intermediates)
              ])
            ])
          ])
        ])
      ])
    ])
  ]

  collects_if : (s : VtState) → IsQuiet (if has_room p then collect b p else go s p, [])
  collects_if s = elim (Bool-cases (has_room p)) [
    | inl e ↦ rw e (collects b p h q)
    | inr e ↦ rw e (goes b p h q s)
  ]

  final-IsCall : is_final b ≡ true → IsCall (csi p.params p.intermediates b)
  final-IsCall e = (h.few_params, h.values, h.few_intermediates, ground arith, ground arith)

  pub in_escape_intermediate-IsQuiet : IsQuiet (in_escape_intermediate b p)
  unfolding in_escape_intermediate
  in_escape_intermediate-IsQuiet = elim (Bool-cases (is_c0 b)) [
    | inl e ↦ rw e (executes b p h q e)
    | inr ne3 ↦ rw ne3 (elim (Bool-cases (is_intermediate b)) [
      | inl e ↦ rw e (collects_if ground_state)
      | inr ne2 ↦ rw ne2 (elim (Bool-cases (b == 0x7F)) [
        | inl e ↦ rw e (stays b p h q)
        | inr ne1 ↦
            rw ne1 (calls_out b p h q ground_state (esc p.intermediates b) h.few_intermediates)
      ])
    ])
  ]

  pub in_csi_entry-IsQuiet : IsQuiet (in_csi_entry b p)
  unfolding in_csi_entry
  in_csi_entry-IsQuiet = elim (Bool-cases (is_c0 b)) [
    | inl e ↦ rw e (executes b p h q e)
    | inr ne7 ↦ rw ne7 (elim (Bool-cases (b == 0x7F)) [
      | inl e ↦ rw e (stays b p h q)
      | inr ne6 ↦ rw ne6 (elim (Bool-cases (is_final b)) [
        | inl e ↦
            rw e (calls_out b p h q ground_state (csi p.params p.intermediates b) (final-IsCall e))
        | inr ne5 ↦ rw ne5 (elim (Bool-cases (is_intermediate b)) [
          | inl e ↦ rw e (collects_or csi_ignore csi_intermediate)
          | inr ne4 ↦ rw ne4 (elim (Bool-cases (is_private b)) [
            | inl e ↦ rw e (then_go (collect b p) csi_param (collects b p h q))
            | inr ne3 ↦ rw ne3 (elim (Bool-cases (is_digit b)) [
              | inl e ↦ rw e (then_go (push_param_digit b p) csi_param (takes_digit b p h q e))
              | inr ne2 ↦ rw ne2 (elim (Bool-cases (b == b';' || b == b':')) [
                | inl e ↦ rw e (then_go (separator b p) csi_param (separates b p h q))
                | inr ne1 ↦ rw ne1 (goes b p h q csi_ignore)
              ])
            ])
          ])
        ])
      ])
    ])
  ]

  pub in_csi_param-IsQuiet : IsQuiet (in_csi_param b p)
  unfolding in_csi_param
  in_csi_param-IsQuiet = elim (Bool-cases (is_c0 b)) [
    | inl e ↦ rw e (executes b p h q e)
    | inr ne6 ↦ rw ne6 (elim (Bool-cases (b == 0x7F)) [
      | inl e ↦ rw e (stays b p h q)
      | inr ne5 ↦ rw ne5 (elim (Bool-cases (is_digit b)) [
        | inl e ↦ rw e (takes_digit b p h q e)
        | inr ne4 ↦ rw ne4 (elim (Bool-cases (b == b';' || b == b':')) [
          | inl e ↦ rw e (separates b p h q)
          | inr ne3 ↦ rw ne3 (elim (Bool-cases (is_final b)) [
            | inl e ↦
                rw e
                  (calls_out b p h q ground_state (csi p.params p.intermediates b) (final-IsCall e))
            | inr ne2 ↦ rw ne2 (elim (Bool-cases (is_intermediate b)) [
              | inl e ↦ rw e (collects_or csi_ignore csi_intermediate)
              | inr ne1 ↦ rw ne1 (goes b p h q csi_ignore)
            ])
          ])
        ])
      ])
    ])
  ]

  pub in_csi_intermediate-IsQuiet : IsQuiet (in_csi_intermediate b p)
  unfolding in_csi_intermediate
  in_csi_intermediate-IsQuiet = elim (Bool-cases (is_c0 b)) [
    | inl e ↦ rw e (executes b p h q e)
    | inr ne4 ↦ rw ne4 (elim (Bool-cases (b == 0x7F)) [
      | inl e ↦ rw e (stays b p h q)
      | inr ne3 ↦ rw ne3 (elim (Bool-cases (is_intermediate b)) [
        | inl e ↦ rw e (collects_if csi_ignore)
        | inr ne2 ↦ rw ne2 (elim (Bool-cases (is_final b)) [
          | inl e ↦
              rw e
                (calls_out b p h q ground_state (csi p.params p.intermediates b) (final-IsCall e))
          | inr ne1 ↦ rw ne1 (goes b p h q csi_ignore)
        ])
      ])
    ])
  ]

  pub in_csi_ignore-IsQuiet : IsQuiet (in_csi_ignore b p)
  unfolding in_csi_ignore
  in_csi_ignore-IsQuiet = elim (Bool-cases (is_c0 b)) [
    | inl e ↦ rw e (executes b p h q e)
    | inr ne2 ↦ rw ne2 (elim (Bool-cases (is_final b)) [
      | inl e ↦ rw e (goes b p h q ground_state)
      | inr ne1 ↦ rw ne1 (stays b p h q)
    ])
  ]

  pub in_dcs_entry-IsQuiet : IsQuiet (in_dcs_entry b p)
  unfolding in_dcs_entry
  in_dcs_entry-IsQuiet = elim (Bool-cases (b == 0x7F || is_c0 b)) [
    | inl e ↦ rw e (stays b p h q)
    | inr ne6 ↦ rw ne6 (elim (Bool-cases (is_final b)) [
      | inl e ↦ rw e (
          calls_out b p h q dcs_passthrough (dcs_start p.params p.intermediates b) (final-IsCall e))
      | inr ne5 ↦ rw ne5 (elim (Bool-cases (is_intermediate b)) [
        | inl e ↦ rw e (collects_or dcs_ignore dcs_intermediate)
        | inr ne4 ↦ rw ne4 (elim (Bool-cases (is_private b)) [
          | inl e ↦ rw e (then_go (collect b p) dcs_param (collects b p h q))
          | inr ne3 ↦ rw ne3 (elim (Bool-cases (is_digit b)) [
            | inl e ↦ rw e (then_go (push_param_digit b p) dcs_param (takes_digit b p h q e))
            | inr ne2 ↦ rw ne2 (elim (Bool-cases (b == b';' || b == b':')) [
              | inl e ↦ rw e (then_go (separator b p) dcs_param (separates b p h q))
              | inr ne1 ↦ rw ne1 (goes b p h q dcs_ignore)
            ])
          ])
        ])
      ])
    ])
  ]

  pub in_dcs_param-IsQuiet : IsQuiet (in_dcs_param b p)
  unfolding in_dcs_param
  in_dcs_param-IsQuiet = elim (Bool-cases (b == 0x7F || is_c0 b)) [
    | inl e ↦ rw e (stays b p h q)
    | inr ne5 ↦ rw ne5 (elim (Bool-cases (is_digit b)) [
      | inl e ↦ rw e (takes_digit b p h q e)
      | inr ne4 ↦ rw ne4 (elim (Bool-cases (b == b';' || b == b':')) [
        | inl e ↦ rw e (separates b p h q)
        | inr ne3 ↦ rw ne3 (elim (Bool-cases (is_final b)) [
          | inl e ↦ rw e (
              calls_out b p h q dcs_passthrough (dcs_start p.params p.intermediates b)
                (final-IsCall e))
          | inr ne2 ↦ rw ne2 (elim (Bool-cases (is_intermediate b)) [
            | inl e ↦ rw e (collects_or dcs_ignore dcs_intermediate)
            | inr ne1 ↦ rw ne1 (goes b p h q dcs_ignore)
          ])
        ])
      ])
    ])
  ]

  pub in_dcs_intermediate-IsQuiet : IsQuiet (in_dcs_intermediate b p)
  unfolding in_dcs_intermediate
  in_dcs_intermediate-IsQuiet = elim (Bool-cases (b == 0x7F || is_c0 b)) [
    | inl e ↦ rw e (stays b p h q)
    | inr ne3 ↦ rw ne3 (elim (Bool-cases (is_intermediate b)) [
      | inl e ↦ rw e (collects_if dcs_ignore)
      | inr ne2 ↦ rw ne2 (elim (Bool-cases (is_final b)) [
        | inl e ↦ rw e (
            calls_out b p h q dcs_passthrough (dcs_start p.params p.intermediates b)
              (final-IsCall e))
        | inr ne1 ↦ rw ne1 (goes b p h q dcs_ignore)
      ])
    ])
  ]

  pub in_osc_string-IsQuiet : IsQuiet (in_osc_string b p)
  unfolding in_osc_string
  in_osc_string-IsQuiet = elim (Bool-cases (b == 0x07)) [
    | inl e ↦ rw e (clears b p h q ground_state (osc p.osc_data ∷ []) (h.short_osc, tt))
    | inr ne3 ↦ rw ne3 (elim (Bool-cases (is_c0 b)) [
      | inl e ↦ rw e (stays b p h q)
      | inr ne2 ↦ rw ne2 (elim (Bool-cases (ltb (length p.osc_data) max_osc)) [
        | inl e ↦ rw e (extends_osc b p h q e)
        | inr ne1 ↦ rw ne1 (stays b p h q)
      ])
    ])
  ]
