-- ===== src/Render/Surface/Place.antt =====
-- The place of the surface that a view gives to one of its own.
use sshos.Base.{
  ℕ, ◌+◌, ◌<◌, ◌≡◌, refl, ◌⊎◌, inl, inr, le_of_ltb, lt_of_leb, ltb→lt, lt→ltb, le→leb, Bool, true,
  false, ◌&&◌, ◌||◌, none, some, Bool-cases, arith,
}
use sshos.Base.Int.{ℤ, pos, pos_part, neg_part, negsuc, ◌+ℤ◌, ◌<ℤ◌, ◌≤ℤ◌, ltb_ℤ, leb_ℤ, add_parts}
use sshos.Render.Cell.{Rect, contains}
use sshos.Render.Surface.{Surface, map}
use sshos.Render.Surface.Sound.{Places}

-- A place that `map` gives.
pub record Mapped (clip : Rect) (s : Surface) (x : ℤ) (ox oy : ℕ) : Type 0 where
  pub here : Places clip s ox oy
  pub next : leb_ℤ clip.w (x +ℤ pos 1) ≡ false → ox + 1 < s.w → Places clip s (ox + 1) oy

no_neg_part : (a : ℤ) → leb_ℤ (pos 0) a ≡ true → neg_part a ≡ 0
no_neg_part (pos n) h = refl
no_neg_part (negsuc n) h = absurd (ground (arith, h))

pub neither : (a b : Bool) → (a || b) ≡ false → (a ≡ false) × (b ≡ false)
neither true b h = absurd (cc h)
neither false b h = (refl, h)

pub both : (a b : Bool) → (a && b) ≡ true → (a ≡ true) × (b ≡ true)
both true b h = (refl, h)
both false b h = absurd (cc h)

pub contains_lem :
    (r : Rect) (px py : ℤ)
    → r.x ≤ℤ px
    → r.y ≤ℤ py
    → px <ℤ (r.x +ℤ r.w)
    → py <ℤ (r.y +ℤ r.h)
    → contains r px py ≡ true
contains_lem r px py a b c d =
    let a' : leb_ℤ r.x px ≡ true = le→leb _ _ a in
    let b' : leb_ℤ r.y py ≡ true = le→leb _ _ b in
    let c' : ltb_ℤ px (r.x +ℤ r.w) ≡ true = lt→ltb _ _ c in
    let d' : ltb_ℤ py (r.y +ℤ r.h) ≡ true = lt→ltb _ _ d in rw (a', b', c', d') refl

-- The tests of `map`, as orders.
module _ (clip : Rect) (x y : ℤ) (s : Surface) (x0 : pos 0 ≤ℤ x) (y0 : pos 0 ≤ℤ y)
    (xw : x <ℤ clip.w) (yh : y <ℤ clip.h) (xs : (clip.x +ℤ x) <ℤ pos s.w)
    (ys : (clip.y +ℤ y) <ℤ pos s.h) (nx : neg_part (clip.x +ℤ x) ≡ 0)
    (ny : neg_part (clip.y +ℤ y) ≡ 0) where
  inside-Mapped : Mapped clip s x (pos_part (clip.x +ℤ x)) (pos_part (clip.y +ℤ y))
  inside-Mapped =
      let a = add_parts clip.x x in
      let b = add_parts clip.y y in
      let c = add_parts clip.x clip.w in
      let d = add_parts clip.y clip.h in
      let e = add_parts x (pos 1) in
      record {
        here = (
          omega arith,
          omega arith,
          contains_lem clip (pos (pos_part (clip.x +ℤ x))) (pos (pos_part (clip.y +ℤ y)))
              (omega arith) (omega arith) (omega arith) (omega arith),
        );
        next = λ p q.
            let p' : (x +ℤ pos 1) <ℤ clip.w = lt_of_leb _ _ p in
            (
              q,
              omega arith,
              contains_lem clip (pos (pos_part (clip.x +ℤ x) + 1)) (pos (pos_part (clip.y +ℤ y)))
                  (omega arith) (omega arith) (omega arith) (omega arith),
            );
      }

pub map_cases :
    (clip : Rect) (x y : ℤ) (s : Surface)
    → (map clip x y s ≡ none)
      ⊎ ((ox : ℕ) × (oy : ℕ) × (map clip x y s ≡ some (ox, oy)) × Mapped clip s x ox oy)
unfolding map
map_cases clip x y s =
    let out = ltb_ℤ x (pos 0) || ltb_ℤ y (pos 0) || leb_ℤ clip.w x || leb_ℤ clip.h y in
    let ox = clip.x +ℤ x in
    let oy = clip.y +ℤ y in
    let on = leb_ℤ (pos 0) ox && leb_ℤ (pos 0) oy && ltb_ℤ ox (pos s.w) && ltb_ℤ oy (pos s.h) in
    elim (Bool-cases out) [
      | inl e ↦ inl (rw e refl)
      | inr e ↦ elim (Bool-cases on) [
        | inl f ↦
            let (e', e4) = neither (ltb_ℤ x (pos 0) || ltb_ℤ y (pos 0) || leb_ℤ clip.w x) _ e in
            let (e'', e3) = neither (ltb_ℤ x (pos 0) || ltb_ℤ y (pos 0)) _ e' in
            let (e1, e2) = neither (ltb_ℤ x (pos 0)) _ e'' in
            let (f', f4) = both (leb_ℤ (pos 0) ox && leb_ℤ (pos 0) oy && ltb_ℤ ox (pos s.w)) _ f in
            let (f'', f3) = both (leb_ℤ (pos 0) ox && leb_ℤ (pos 0) oy) _ f' in
            let (f1, f2) = both (leb_ℤ (pos 0) ox) _ f'' in
            inr (
              pos_part ox,
              pos_part oy,
              rw (e, f) refl,
              inside-Mapped clip x y s (le_of_ltb _ _ e1) (le_of_ltb _ _ e2) (lt_of_leb _ _ e3)
                  (lt_of_leb _ _ e4) (ltb→lt _ _ f3) (ltb→lt _ _ f4) (no_neg_part ox f1)
                  (no_neg_part oy f2),
            )
        | inr f ↦ inl (rw (e, f) refl)
      ]
    ]
