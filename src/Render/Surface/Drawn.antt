-- ===== src/Render/Surface/Drawn.antt =====
-- What a write leaves of the cells, and of the halves of wide characters.
use sshos.Base.{
  ℕ, ◌+◌, ◌-◌, ◌*◌, ◌<◌, ◌≡◌, refl, sym, ap, ◌∙◌, ◌⊎◌, inl, inr, true, false, ◌&&◌, ltb, ◌==◌,
  if◌then◌else◌, length, length-set, Bool-cases, arith,
}
use sshos.Base.Access.{get_or-set_if}
use sshos.Base.Int.{pos}
use sshos.Render.Cell.{Rect, contains}
use sshos.Render.Surface.{
  Cell, empty, Surface, at, write, cleanup_left, cleanup_right, cleanup_orphan,
}
use sshos.Render.Surface.Line.{without_left, without_right, without}
use sshos.Vt.Screen.Cells.{index_lt, index_same}
use sshos.Vt.Screen.Pairs.{Pairs}

abbrev pub row : Surface → ℕ → ℕ → ℕ
row s y x = (at s x y).width

-- Each line has, for each first half of a wide character, the second half to its right, and for each
-- second half the first to its left.
pub record IsSound (s : Surface) : Type 0 where
  pub full : length s.cells ≡ s.w * s.h
  pub paired : (y : ℕ) → y < s.h → Pairs s.w (row s y)

-- A cell outside of the view: as it was, or a half of a wide character that is erased.
abbrev pub IsLeft : Cell → Cell → Type 0
IsLeft old new = (new ≡ old) ⊎ ((new ≡ empty) × ((old.width ≡ 2) ⊎ (old.width ≡ 0)))

pub record Drawn (clip : Rect) (s t : Surface) : Type 0 where
  pub columns : t.w ≡ s.w
  pub lines : t.h ≡ s.h
  pub full : length t.cells ≡ length s.cells
  pub outside :
      (u v : ℕ)
      → u < s.w
      → v < s.h
      → contains clip (pos u) (pos v) ≡ false
      → IsLeft (at s u v) (at t u v)

IsLeft-trans : (a b c : Cell) → IsLeft a b → IsLeft b c → IsLeft a c
IsLeft-trans a b c (inl e) (inl f) = inl (f ∙ e)
IsLeft-trans a b c (inl e) (inr (f, z)) = inr (f, ground (arith, z, ap (λ (d : Cell). d.width) e))
IsLeft-trans a b c (inr (e, z)) (inl f) = inr (f ∙ e, z)
IsLeft-trans a b c (inr (e, z)) (inr (f, z')) = inr (f, z)

pub Drawn-self : (clip : Rect) (s : Surface) → Drawn clip s s
Drawn-self clip s = record {
  columns = refl;
  lines = refl;
  full = refl;
  outside = λ u v hu hv o. inl refl;
}

pub Drawn-trans : (clip : Rect) (s t u : Surface) → Drawn clip s t → Drawn clip t u → Drawn clip s u
Drawn-trans clip s t u d e = record {
  columns = e.columns ∙ d.columns;
  lines = e.lines ∙ d.lines;
  full = e.full ∙ d.full;
  outside = λ x y hx hy o.
      IsLeft-trans (at s x y) (at t x y) (at u x y) (d.outside x y hx hy o)
        (e.outside x y (omega (arith, hx, d.columns)) (omega (arith, hy, d.lines)) o);
}

pub at-write :
    (s : Surface) (x y : ℕ) (c : Cell) (u v : ℕ)
    → length s.cells ≡ s.w * s.h
    → x < s.w
    → y < s.h
    → u < s.w
    → at (write x y c s) u v ≡ (if u == x && v == y then c else at s u v)
unfolding write
at-write s x y c u v full hx hy hu =
    get_or-set_if s.cells (y * s.w + x) (v * s.w + u) c empty
      (let p = index_lt s.w s.h x y hx hy in omega (arith, full))
    ∙ ap (λ b. if b then c else at s u v) (index_same s.w x u y v hx hu)

-- A write inside of the view, and the erasure of a half.
module _ (clip : Rect) (s : Surface) (full : length s.cells ≡ s.w * s.h) (x y : ℕ) (hx : x < s.w)
    (hy : y < s.h) where
  pub write-Drawn :
      (c : Cell)
      → (contains clip (pos x) (pos y) ≡ true) ⊎ ((c ≡ empty) × ((row s y x ≡ 2) ⊎ (row s y x ≡ 0)))
      → Drawn clip s (write x y c s)
  write-Drawn c why = record {
    columns = unfold write in refl;
    lines = unfold write in refl;
    full = unfold write in length-set s.cells (y * s.w + x) c;
    outside = λ u v hu hv o.
        let e = at-write s x y c u v full hx hy hu in
        elim (Bool-cases (u == x && v == y)) [
          | inl b ↦
              let ux : u ≡ x = ground arith in
              let vy : v ≡ y = ground arith in
              let new : at (write x y c s) u v ≡ c = e ∙ ground (arith, b) in
              elim why [
                | inl inside ↦
                    let same : contains clip (pos u) (pos v) ≡ contains clip (pos x) (pos y) =
                      ap (λ k. contains clip (pos k) (pos v)) ux
                      ∙ ap (λ k. contains clip (pos x) (pos k)) vy in
                    absurd (cc (same, inside, o))
                | inr (f, half) ↦
                    let old : row s v u ≡ row s y x =
                      ap (λ k. row s k u) vy ∙ ap (λ k. row s y k) ux in
                    inr (new ∙ f, ground (arith, half, old))
              ]
          | inr b ↦ inl (e ∙ ground (arith, b))
        ];
  }

abbrev pub IsFull : Surface → Type 0
IsFull s = length s.cells ≡ s.w * s.h

pub left-Drawn :
    (clip : Rect) (s : Surface) (x y : ℕ)
    → IsFull s
    → x < s.w
    → y < s.h
    → Drawn clip s (cleanup_left x y s)
unfolding cleanup_left
left-Drawn clip s x y full hx hy = elim (Bool-cases (ltb 0 x && row s y (x - 1) == 2)) [
  | inl e ↦
      rw e
        (write-Drawn clip s full (x - 1) y (omega arith) hy empty (inr (refl, inl (ground arith))))
  | inr e ↦ rw e (Drawn-self clip s)
]

pub right-Drawn :
    (clip : Rect) (s : Surface) (x y : ℕ)
    → IsFull s
    → x < s.w
    → y < s.h
    → Drawn clip s (cleanup_right x y s)
unfolding cleanup_right
right-Drawn clip s x y full hx hy = elim (Bool-cases (ltb (x + 1) s.w && row s y (x + 1) == 0)) [
  | inl e ↦
      rw e
        (write-Drawn clip s full (x + 1) y (ground arith) hy empty (inr (refl, inr (ground arith))))
  | inr e ↦ rw e (Drawn-self clip s)
]

pub IsFull-Drawn : (clip : Rect) (s t : Surface) → Drawn clip s t → IsFull s → IsFull t
IsFull-Drawn clip s t d full =
    d.full ∙ full ∙ ap (λ k. k * s.h) (sym d.columns) ∙ ap (λ k. t.w * k) (sym d.lines)

pub orphan-Drawn :
    (clip : Rect) (s : Surface) (x y : ℕ)
    → IsFull s
    → x < s.w
    → y < s.h
    → Drawn clip s (cleanup_orphan x y s)
orphan-Drawn clip s x y full hx hy =
    let t = cleanup_left x y s in
    let d = left-Drawn clip s x y full hx hy in
    Drawn-trans clip s t _ d (
      right-Drawn clip t x y (IsFull-Drawn clip s t d full) (omega (arith, d.columns, hx))
        (omega (arith, d.lines, hy)))

-- The widths behind.
row_left :
    (s : Surface) (x y u v : ℕ)
    → IsFull s
    → x < s.w
    → y < s.h
    → u < s.w
    → row (cleanup_left x y s) v u ≡ (if v == y then without_left x (row s y) u else row s v u)
unfolding cleanup_left
row_left s x y u v full hx hy hu = elim (Bool-cases (ltb 0 x && row s y (x - 1) == 2)) [
  | inl e ↦ rw e (
      ap (λ (c : Cell). c.width) (at-write s (x - 1) y empty u v full (omega arith) hy hu)
      ∙ ground arith)
  | inr e ↦ rw e (ground arith)
]

row_right :
    (s : Surface) (x y u v : ℕ)
    → IsFull s
    → x < s.w
    → y < s.h
    → u < s.w
    → row (cleanup_right x y s) v u
      ≡ (if v == y then without_right s.w x (row s y) u else row s v u)
unfolding cleanup_right
row_right s x y u v full hx hy hu = elim (Bool-cases (ltb (x + 1) s.w && row s y (x + 1) == 0)) [
  | inl e ↦ rw e (
      ap (λ (c : Cell). c.width) (at-write s (x + 1) y empty u v full (ground arith) hy hu)
      ∙ ground arith)
  | inr e ↦ rw e (ground arith)
]

pub row_orphan :
    (s : Surface) (x y u v : ℕ)
    → IsFull s
    → x < s.w
    → y < s.h
    → u < s.w
    → row (cleanup_orphan x y s) v u ≡ (if v == y then without s.w x (row s y) u else row s v u)
row_orphan s x y u v full hx hy hu =
    let t = cleanup_left x y s in
    let clip : Rect = record { x = pos 0; y = pos 0; w = pos 0; h = pos 0 } in
    let d = left-Drawn clip s x y full hx hy in
    let same = row_left s x y u v full hx hy hu in
    let there = row_left s x y u y full hx hy hu in
    let next : x + 1 < s.w → row t y (x + 1) ≡ without_left x (row s y) (x + 1) =
      λ k. row_left s x y (x + 1) y full hx hy k ∙ ground arith in
    row_right t x y u v (IsFull-Drawn clip s t d full) (omega (arith, d.columns, hx))
      (omega (arith, d.lines, hy)) (omega (arith, d.columns, hu))
    ∙ ground (arith, same, there, next, d.columns)
