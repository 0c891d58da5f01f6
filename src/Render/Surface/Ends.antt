-- ===== src/Render/Surface/Ends.antt =====
-- The loop of `View::text` ends.
use sshos.Base.{ℕ, zero, suc, ◌+◌, ◌≤◌, ◌≡◌, refl, sym, Bool, true, leb, Bytes, length, arith}
use sshos.Base.Int.{ℤ, pos, ◌+ℤ◌}
use sshos.Common.Utf8.{utf8_decode}
use sshos.Common.Utf8.Decode.{utf8_decode-IsStep}
use sshos.Render.Cell.{Rect, Style}
use sshos.Render.Width.{char_width}
use sshos.Render.Surface.{Surface, put, text_loop}

module _ (ambiguous : Bool) (clip : Rect) (y : ℤ) (utf8 : Bytes) (st : Style) where
  -- Nothing is left to be drawn.
  at_end :
      (fuel i : ℕ) (col : ℤ) (s : Surface)
      → length utf8 ≤ i
      → text_loop ambiguous clip y utf8 st fuel i col s ≡ (s, col)
  unfolding text_loop
  at_end zero i col s h = refl
  at_end (suc fuel) i col s h = let e : leb (length utf8) i ≡ true = ground arith in rw e refl

  -- The loop comes to a `break`, or to the end of the text: as many turns as there are bytes left, or
  -- any number beyond, give the same.
  pub text_loop-fuel :
      (f g i : ℕ) (col : ℤ) (s : Surface)
      → length utf8 ≤ i + f
      → length utf8 ≤ i + g
      → text_loop ambiguous clip y utf8 st f i col s ≡ text_loop ambiguous clip y utf8 st g i col s
  unfolding text_loop
  text_loop-fuel zero g i col s h k = sym (at_end g i col s (omega arith))
  text_loop-fuel (suc f) zero i col s h k = at_end (suc f) i col s (omega arith)
  text_loop-fuel (suc f) (suc g) i col s h k =
      let (used, cp) = utf8_decode utf8 i in
      let step = utf8_decode-IsStep utf8 i in
      let cw = char_width ambiguous cp in
      let t = put ambiguous clip col y cp st s in
      let advances = step.advances in
      rw
        (
          text_loop-fuel f g (i + used) col s (omega arith) (omega arith),
          text_loop-fuel f g (i + used) (col +ℤ pos cw) t (omega arith) (omega arith),
        )
        refl
