-- ===== src/Render/Surface/Sound.antt =====
-- Each cell that is put keeps the halves of wide characters together.
use sshos.Base.{
  ℕ, ◌+◌, ◌-◌, ◌*◌, ◌≤◌, ◌<◌, ◌≡◌, sym, ap, subst, ◌∙◌, inl, inr, true, ◌&&◌, ◌==◌, if◌then◌else◌,
  Bool-cases, arith,
}
use sshos.Base.{length-replicate}
use sshos.Base.Access.{get_or-replicate_if}
use sshos.Base.Int.{ℤ, pos, pos_part}
use sshos.Render.Cell.{Rect, contains}
use sshos.Render.Surface.{Cell, empty, Surface, new_surface, write, cleanup_orphan}
use sshos.Render.Surface.Line.{
  without, without_cong, without-PairsOutside, without_two-PairsOutside,
}
use sshos.Render.Surface.Drawn.{
  row, IsSound, IsFull, Drawn, Drawn-trans, IsFull-Drawn, orphan-Drawn, row_orphan, at-write,
  write-Drawn,
}
use sshos.Vt.Screen.Pairs.{Pairs, Pairs-same, Pairs-between, Matched, Matched-one}

row-write :
    (s : Surface) (x y : ℕ) (c : Cell) (u v : ℕ)
    → IsFull s
    → x < s.w
    → y < s.h
    → u < s.w
    → row (write x y c s) v u ≡ (if u == x && v == y then c.width else row s v u)
row-write s x y c u v full hx hy hu =
    ap (λ (d : Cell). d.width) (at-write s x y c u v full hx hy hu) ∙ ground arith

abbrev pub Places : Rect → Surface → ℕ → ℕ → Type 0
Places clip s x y = (x < s.w) × (y < s.h) × (contains clip (pos x) (pos y) ≡ true)

-- A narrow cell.
module _ (clip : Rect) (s : Surface) (sound : IsSound s) (x y : ℕ) (at_place : Places clip s x y)
    (c : Cell) (narrow : c.width ≡ 1) where
  pub narrow-Drawn : Drawn clip s (write x y c (cleanup_orphan x y s))
  narrow-Drawn =
      let t = cleanup_orphan x y s in
      let d = orphan-Drawn clip s x y sound.full at_place.0 at_place.1 in
      Drawn-trans clip s t _ d (
        write-Drawn clip t (IsFull-Drawn clip s t d sound.full) x y
          (omega (arith, d.columns, at_place.0)) (omega (arith, d.lines, at_place.1)) c
          (inl at_place.2))

  row_narrow :
      (u v : ℕ)
      → u < s.w
      → row (write x y c (cleanup_orphan x y s)) v u
        ≡ (if u == x && v == y then 1 else if v == y then without s.w x (row s y) u else row s v u)
  row_narrow u v hu =
      let t = cleanup_orphan x y s in
      let d = orphan-Drawn clip s x y sound.full at_place.0 at_place.1 in
      row-write t x y c u v (IsFull-Drawn clip s t d sound.full)
        (omega (arith, d.columns, at_place.0)) (omega (arith, d.lines, at_place.1))
        (omega (arith, d.columns, hu))
      ∙ ground (arith, narrow, row_orphan s x y u v sound.full at_place.0 at_place.1 hu)

  narrow_paired : (v : ℕ) → v < s.h → Pairs s.w (row (write x y c (cleanup_orphan x y s)) v)
  narrow_paired v hv = elim (Bool-cases (v == y)) [
    | inl e ↦
        Pairs-between s.w x x (without s.w x (row s y)) _
          (without-PairsOutside s.w x (row s y) at_place.0 (sound.paired y at_place.1))
          (λ u hu o. row_narrow u v hu ∙ ground (arith, e))
          (λ u a b.
            Matched-one s.w (row (write x y c (cleanup_orphan x y s)) v) u
              (row_narrow u v (omega (arith, at_place.0)) ∙ ground (arith, e)))
    | inr e ↦
        Pairs-same s.w (row s v) _ (λ u hu. row_narrow u v hu ∙ ground (arith, e))
          (sound.paired v hv)
  ]

  pub narrow-IsSound : IsSound (write x y c (cleanup_orphan x y s))
  narrow-IsSound =
      let d = narrow-Drawn in
      record {
        full = IsFull-Drawn clip s _ d sound.full;
        paired = λ v hv.
            subst (λ n. Pairs n (row (write x y c (cleanup_orphan x y s)) v)) (sym d.columns)
              (narrow_paired v (omega (arith, d.lines, hv)));
      }

-- A wide character, at a place with another one to its right.
module _ (clip : Rect) (s : Surface) (sound : IsSound s) (x y : ℕ) (at_place : Places clip s x y)
    (next : Places clip s (x + 1) y) (c e : Cell) (wide : c.width ≡ 2) (behind : e.width ≡ 0) where
  abbrev cleaned : Surface
  cleaned = cleanup_orphan (x + 1) y (cleanup_orphan x y s)

  cleaned-Drawn : Drawn clip s cleaned
  cleaned-Drawn =
      let t = cleanup_orphan x y s in
      let d = orphan-Drawn clip s x y sound.full at_place.0 at_place.1 in
      Drawn-trans clip s t _ d (
        orphan-Drawn clip t (x + 1) y (IsFull-Drawn clip s t d sound.full)
          (omega (arith, d.columns, next.0)) (omega (arith, d.lines, at_place.1)))

  headed-Drawn : Drawn clip s (write x y c cleaned)
  headed-Drawn =
      let d = cleaned-Drawn in
      Drawn-trans clip s cleaned _ d (
        write-Drawn clip cleaned (IsFull-Drawn clip s cleaned d sound.full) x y
          (omega (arith, d.columns, at_place.0)) (omega (arith, d.lines, at_place.1)) c
          (inl at_place.2))

  pub wide-Drawn : Drawn clip s (write (x + 1) y e (write x y c cleaned))
  wide-Drawn =
      let t = write x y c cleaned in
      let d = headed-Drawn in
      Drawn-trans clip s t _ d (
        write-Drawn clip t (IsFull-Drawn clip s t d sound.full) (x + 1) y
          (omega (arith, d.columns, next.0)) (omega (arith, d.lines, at_place.1)) e (inl next.2))

  row-cleaned :
      (u v : ℕ)
      → u < s.w
      → row cleaned v u
        ≡ (if v == y then without s.w (x + 1) (without s.w x (row s y)) u else row s v u)
  row-cleaned u v hu =
      let t = cleanup_orphan x y s in
      let d = orphan-Drawn clip s x y sound.full at_place.0 at_place.1 in
      let r : (k : ℕ) → k < s.w → row t y k ≡ without s.w x (row s y) k =
        λ k hk. row_orphan s x y k y sound.full at_place.0 at_place.1 hk ∙ ground arith in
      row_orphan t (x + 1) y u v (IsFull-Drawn clip s t d sound.full)
        (omega (arith, d.columns, next.0)) (omega (arith, d.lines, at_place.1))
        (omega (arith, d.columns, hu))
      ∙ ground (
        arith,
        d.columns,
        without_cong s.w (x + 1) (without s.w x (row s y)) (row t y) r next.0 u hu,
        row_orphan s x y u v sound.full at_place.0 at_place.1 hu,
      )

  row_wide :
      (u v : ℕ)
      → u < s.w
      → row (write (x + 1) y e (write x y c cleaned)) v u ≡ (
          if v == y
          then (if u == x + 1
              then 0
              else if u == x
              then 2
              else without s.w (x + 1) (without s.w x (row s y)) u)
          else row s v u)
  row_wide u v hu =
      let d = cleaned-Drawn in
      let f = headed-Drawn in
      let t = write x y c cleaned in
      row-write t (x + 1) y e u v (IsFull-Drawn clip s t f sound.full)
        (omega (arith, f.columns, next.0)) (omega (arith, f.lines, at_place.1))
        (omega (arith, f.columns, hu))
      ∙ ground (
        arith,
        wide,
        behind,
        row-write cleaned x y c u v (IsFull-Drawn clip s cleaned d sound.full)
            (omega (arith, d.columns, at_place.0)) (omega (arith, d.lines, at_place.1))
            (omega (arith, d.columns, hu)),
        row-cleaned u v hu,
      )

  abbrev after : ℕ → ℕ → ℕ
  after v = row (write (x + 1) y e (write x y c cleaned)) v

  -- The two halves that have been written.
  halves : (v : ℕ) → (v == y) ≡ true → (u : ℕ) → x ≤ u → u ≤ x + 1 → Matched s.w (after v) u
  halves v same u a b =
      let first : after v x ≡ 2 = row_wide x v at_place.0 ∙ ground (arith, same) in
      let second : after v (x + 1) ≡ 0 = row_wide (x + 1) v next.0 ∙ ground (arith, same) in
      elim (Bool-cases (u == x)) [
        | inl f ↦
            subst (Matched s.w (after v)) {x = x} {y = u} (ground arith)
              ((λ two. (next.0, second)), (λ none. absurd (omega (arith, first, none))))
        | inr f ↦ subst (Matched s.w (after v)) {x = x + 1} {y = u} (ground arith) (
          (λ two. absurd (omega (arith, second, two))),
          (λ none. (omega arith, ap (after v) {x = x + 1 - 1} {y = x} (omega arith) ∙ first)),
        )
      ]

  wide_paired : (v : ℕ) → v < s.h → Pairs s.w (after v)
  wide_paired v hv = elim (Bool-cases (v == y)) [
    | inl same ↦
        Pairs-between s.w x (x + 1) (without s.w (x + 1) (without s.w x (row s y))) (after v)
          (without_two-PairsOutside s.w x (row s y) next.0 (sound.paired y at_place.1))
          (λ u hu o. row_wide u v hu ∙ ground (arith, same)) (halves v same)
    | inr other ↦
        Pairs-same s.w (row s v) (after v) (λ u hu. row_wide u v hu ∙ ground (arith, other))
          (sound.paired v hv)
  ]

  pub wide-IsSound : IsSound (write (x + 1) y e (write x y c cleaned))
  wide-IsSound =
      let d = wide-Drawn in
      record {
        full = IsFull-Drawn clip s _ d sound.full;
        paired = λ v hv.
            subst (λ n. Pairs n (after v)) (sym d.columns)
              (wide_paired v (omega (arith, d.lines, hv)));
      }

-- A surface of empty cells.
pub new_surface-IsSound : (w h : ℤ) → IsSound (new_surface w h)
new_surface-IsSound w h =
    let n = pos_part w in
    let m = pos_part h in
    record {
      full = length-replicate (n * m) empty;
      paired = λ y hy u hu. Matched-one n (row (new_surface w h) y) u (
          ap (λ (c : Cell). c.width) (get_or-replicate_if (n * m) empty (y * n + u) empty)
          ∙ ground arith);
    }
