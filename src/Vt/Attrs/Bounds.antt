-- ===== src/Vt/Attrs/Bounds.antt =====
-- Whatever a guest asks for, the pen is one that its types can hold.
use sshos.Base.{
  ℕ, zero, suc, ◌+◌, ◌≤◌, ◌<◌, ◌≡◌, refl, Bool, true, false, [], ◌∷◌, length, ltb, if◌then◌else◌,
  arith, inl, inr, Bool-cases,
}
use sshos.Base.Int.{pos_part}
use sshos.Render.Cell.{Color, Style, plain}
use sshos.Vt.Parser.{Params}
use sshos.Vt.Attrs.{
  raise, lower, with_attrs, read_extended, apply_code, paint, turn, sgr_loop, apply_sgr,
  extended_end, group_end, is_extended, value_at,
}

abbrev pub IsColor : Color → Type 0
IsColor c = (c.idx < 256) × (c.r < 256) × (c.g < 256) × (c.b < 256)

-- The eight attributes that there are, and colours of bytes.
pub record IsStyle (style : Style) : Type 0 where
  pub bits : style.attrs < 256
  pub front : IsColor style.fg
  pub back : IsColor style.bg

IsStyle-if :
    (b : Bool) (s t : Style)
    → (b ≡ true → IsStyle s)
    → (b ≡ false → IsStyle t)
    → IsStyle (if b then s else t)
IsStyle-if true s t h k = h refl
IsStyle-if false s t h k = k refl

raise_lt : (bit attrs : ℕ) → bit < 8 → attrs < 256 → raise bit attrs < 256
unfolding raise
raise_lt zero a h k = ground arith
raise_lt (suc zero) a h k = ground arith
raise_lt (suc (suc zero)) a h k = ground arith
raise_lt (suc (suc (suc zero))) a h k = ground arith
raise_lt (suc (suc (suc (suc zero)))) a h k = ground arith
raise_lt (suc (suc (suc (suc (suc zero))))) a h k = ground arith
raise_lt (suc (suc (suc (suc (suc (suc zero)))))) a h k = ground arith
raise_lt (suc (suc (suc (suc (suc (suc (suc zero))))))) a h k = ground arith
raise_lt (suc (suc (suc (suc (suc (suc (suc (suc n)))))))) a h k = absurd (omega arith)

lower_lt : (bit attrs : ℕ) → attrs < 256 → lower bit attrs < 256
unfolding lower
lower_lt bit a h = ground arith

pub plain-IsStyle : IsStyle plain
plain-IsStyle = record { bits = omega arith; front = omega arith; back = omega arith }

module _ (style : Style) (s : IsStyle style) where
  rebit : (attrs : ℕ) → attrs < 256 → IsStyle (with_attrs style attrs)
  rebit attrs h = record { bits = h; front = s.front; back = s.back }

  raised : (bit : ℕ) → bit < 8 → IsStyle (with_attrs style (raise bit style.attrs))
  raised bit h = rebit (raise bit style.attrs) (raise_lt bit style.attrs h s.bits)

  lowered : (bit : ℕ) → IsStyle (with_attrs style (lower bit style.attrs))
  lowered bit = rebit (lower bit style.attrs) (lower_lt bit style.attrs s.bits)

  refront : (c : Color) → IsColor c → IsStyle (record style { fg = c })
  refront c h = record { bits = s.bits; front = h; back = s.back }

  reback : (c : Color) → IsColor c → IsStyle (record style { bg = c })
  reback c h = record { bits = s.bits; front = s.front; back = h }

  apply_code-IsStyle : (p : Params) (i end code : ℕ) → IsStyle (apply_code p i end code style)
  unfolding apply_code
  apply_code-IsStyle p i end code =
      let a = style.attrs in
      let r = λ (bit : ℕ) (h : bit < 8). raise_lt bit a h s.bits in
      let l = λ (bit : ℕ). lower_lt bit a s.bits in
      ground (
        arith,
        r 0,
        r 1,
        r 2,
        r 3,
        r 4,
        r 5,
        r 6,
        r 7,
        l 0,
        l 2,
        l 3,
        l 4,
        l 5,
        l 6,
        l 7,
        lower_lt 1 (lower 0 a),
      )

  read_extended-paint :
      (p : Params) (first last code : ℕ) → IsStyle (paint code (read_extended p first last) style)
  unfolding read_extended
  read_extended-paint p first last code = let f = s.front in let b = s.back in ground arith

  turn-IsStyle : (p : Params) (i : ℕ) → IsStyle (turn p i style).1
  unfolding turn
  turn-IsStyle p i = elim (Bool-cases (is_extended (pos_part (value_at p i)))) [
    | inl e ↦ rw e (read_extended-paint p (i + 1) (extended_end p i) (pos_part (value_at p i)))
    | inr e ↦ rw e (apply_code-IsStyle p i (group_end p i) (pos_part (value_at p i)))
  ]

-- A turn goes on by one parameter at least.
turn_advances : (p : Params) (i : ℕ) (style : Style) → i < (turn p i style).0
unfolding turn
turn_advances p i style = ground arith

-- With fuel for the parameters that are left the loop ends by its test, on a style in bounds.
sgr_loop_ends :
    (fuel : ℕ) (p : Params) (i : ℕ) (style : Style)
    → length p ≤ fuel + i
    → IsStyle style
    → (length p ≤ (sgr_loop fuel p i style).0) × IsStyle (sgr_loop fuel p i style).1
unfolding sgr_loop
sgr_loop_ends zero p i style h s = (omega arith, s)
sgr_loop_ends (suc fuel) p i style h s = elim (Bool-cases (ltb i (length p))) [
  | inl e ↦ rw e (
      sgr_loop_ends fuel p (turn p i style).0 (turn p i style).1
        (let a = turn_advances p i style in omega arith) (turn-IsStyle style s p i))
  | inr e ↦ rw e (ground arith, s)
]

-- Whatever parameters SGR has, its loop reads them to the last, and the pen has only the eight
-- attributes that there are, and colours whose components are bytes.
pub apply_sgr-IsStyle :
    (p : Params) (style : Style)
    → IsStyle style
    → (length p ≤ (sgr_loop (length p) p 0 style).0) × IsStyle (apply_sgr p style)
unfolding apply_sgr
apply_sgr-IsStyle [] style s = (omega arith, plain-IsStyle)
apply_sgr-IsStyle (p ∷ ps) style s =
    sgr_loop_ends (length (p ∷ ps)) (p ∷ ps) 0 style (omega arith) s
