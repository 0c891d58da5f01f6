-- ===== src/Render/Surface/Nested.antt =====
-- A view of a view lies in it.
use sshos.Base.{
  ◌≡◌, refl, subst, inl, inr, Bool, true, List, ◌&&◌, leb→le, ltb→lt, Bool-cases, arith,
}
use sshos.Base.Int.{
  ℤ, pos, ◌+ℤ◌, ◌-ℤ◌, ◌≤ℤ◌, ◌<ℤ◌, ltb_ℤ, leb_ℤ, max_ℤ, min_ℤ, add_parts, sub_parts,
}
use sshos.Render.Cell.{Rect, contains}
use sshos.Render.Surface.{Surface, sub}
use sshos.Render.Surface.Drawn.{IsSound, Drawn}
use sshos.Render.Surface.Place.{both, contains_lem}
use sshos.Render.Surface.View.{Stroke, draw_all, Draws, draw_all-Draws}

max_ge : (a b : ℤ) → a ≤ℤ max_ℤ a b
max_ge a b = ground arith

min_le : (a b : ℤ) → min_ℤ a b ≤ℤ a
min_le a b = ground arith

-- One direction: from `lo` on, the size is what is left to `hi`, if anything.
before : (lo hi p : ℤ) → lo ≤ℤ p → p <ℤ (lo +ℤ max_ℤ (pos 0) (hi -ℤ lo)) → p <ℤ hi
before lo hi p a b =
    let d = sub_parts hi lo in
    elim (Bool-cases (ltb_ℤ (pos 0) (hi -ℤ lo))) [
      | inl e ↦
          let same : (lo +ℤ max_ℤ (pos 0) (hi -ℤ lo)) ≡ (lo +ℤ (hi -ℤ lo)) = rw e refl in
          let b' = subst (λ s. p <ℤ s) same b in let s = add_parts lo (hi -ℤ lo) in omega arith
      | inr e ↦
          let same : (lo +ℤ max_ℤ (pos 0) (hi -ℤ lo)) ≡ (lo +ℤ pos 0) = rw e refl in
          let b' = subst (λ s. p <ℤ s) same b in
          let s = add_parts lo (pos 0) in absurd (omega arith)
    ]

-- Whatever is in a view of a view, which is cut by it, is in that view.
pub contains-sub :
    (clip r : Rect) (px py : ℤ) → contains (sub clip r) px py ≡ true → contains clip px py ≡ true
contains-sub clip r px py h =
    let x0 = clip.x +ℤ max_ℤ (pos 0) r.x in
    let y0 = clip.y +ℤ max_ℤ (pos 0) r.y in
    let x1 = min_ℤ (clip.x +ℤ clip.w) (clip.x +ℤ r.x +ℤ r.w) in
    let y1 = min_ℤ (clip.y +ℤ clip.h) (clip.y +ℤ r.y +ℤ r.h) in
    let (h', h4) =
      both (leb_ℤ x0 px && leb_ℤ y0 py && ltb_ℤ px (x0 +ℤ max_ℤ (pos 0) (x1 -ℤ x0))) _ h in
    let (h'', h3) = both (leb_ℤ x0 px && leb_ℤ y0 py) _ h' in
    let (h1, h2) = both (leb_ℤ x0 px) _ h'' in
    let a : x0 ≤ℤ px = leb→le _ _ h1 in
    let b : y0 ≤ℤ py = leb→le _ _ h2 in
    let c : px <ℤ x1 = before x0 x1 px a (ltb→lt _ _ h3) in
    let d : py <ℤ y1 = before y0 y1 py b (ltb→lt _ _ h4) in
    let m = max_ge (pos 0) r.x in
    let n = max_ge (pos 0) r.y in
    let u = min_le (clip.x +ℤ clip.w) (clip.x +ℤ r.x +ℤ r.w) in
    let v = min_le (clip.y +ℤ clip.h) (clip.y +ℤ r.y +ℤ r.h) in
    let s = add_parts clip.x (max_ℤ (pos 0) r.x) in
    let t = add_parts clip.y (max_ℤ (pos 0) r.y) in
    contains_lem clip px py (omega (arith, a, m, s)) (omega (arith, b, n, t)) (omega (arith, c, u))
      (omega (arith, d, v))

module _ (ambiguous : Bool) (clip r : Rect) where
  outer-Drawn : (s t : Surface) → Drawn (sub clip r) s t → Drawn clip s t
  outer-Drawn s t d = record {
    columns = d.columns;
    lines = d.lines;
    full = d.full;
    outside = λ u v hu hv o. elim (Bool-cases (contains (sub clip r) (pos u) (pos v))) [
      | inl e ↦ let inside = contains-sub clip r (pos u) (pos v) e in absurd (cc (inside, o))
      | inr e ↦ d.outside u v hu hv e
    ];
  }

  -- Whatever is drawn through a view of a view stays in the outer view too, whichever the rectangle that
  -- is asked for: outside of the outer view each cell is as it was, but for the halves of wide
  -- characters, which may be erased, and no half is left without the other.
  pub draw_all-sub :
      (ds : List Stroke) (s : Surface)
      → IsSound s
      → Draws clip s (draw_all ambiguous (sub clip r) ds s)
  draw_all-sub ds s k =
      let d = draw_all-Draws ambiguous (sub clip r) ds s k in
      record { drawn = outer-Drawn s _ d.drawn; sound = d.sound }
