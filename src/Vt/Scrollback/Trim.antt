-- ===== src/Vt/Scrollback/Trim.antt =====
-- What `push` trims from a row: its default blanks at the end, and no other cell.
use sshos.Base.{
  ℕ, zero, suc, ◌-◌, ◌≤◌, ◌<◌, Bool, true, false, ◌&&◌, ◌≡◌, refl, sym, ap, ◌∙◌, inl, inr, List, [],
  ◌∷◌, ◌++◌, arith, length, take, get_or, replicate, ◌==◌, Bool-cases, length-take, append_assoc,
  append-nil,
}
use sshos.Render.Cell.{
  ColorKind, default_color, indexed, rgb, ==_ColorKind, Color, ==_Color, Style, ==_Style,
}
use sshos.Vt.Cell.{ScreenCell, blank, ==_ScreenCell}
use sshos.Vt.Scrollback.{trimmed, trim}

==_ColorKind_lem : (a b : ColorKind) → ==_ColorKind a b ≡ true → a ≡ b
==_ColorKind_lem default_color default_color e = refl
==_ColorKind_lem indexed indexed e = refl
==_ColorKind_lem rgb rgb e = refl
==_ColorKind_lem default_color indexed e = ground arith
==_ColorKind_lem default_color rgb e = ground arith
==_ColorKind_lem indexed default_color e = ground arith
==_ColorKind_lem indexed rgb e = ground arith
==_ColorKind_lem rgb default_color e = ground arith
==_ColorKind_lem rgb indexed e = ground arith

and_split : (a b : Bool) → a && b ≡ true → (a ≡ true) × (b ≡ true)
and_split true b e = (refl, e)
and_split false b e = ground arith

==_Color_lem : (a b : Color) → ==_Color a b ≡ true → a ≡ b
==_Color_lem a b e =
    let k : ==_ColorKind a.kind b.kind ≡ true = ground arith in
    let same = ==_ColorKind_lem a.kind b.kind k in
    let i' : a.idx ≡ b.idx = ground arith in
    let r' : a.r ≡ b.r = ground arith in
    let g' : a.g ≡ b.g = ground arith in
    let b' : a.b ≡ b.b = ground arith in
    λ j. record { kind = same j; idx = i' j; r = r' j; g = g' j; b = b' j }

==_Style_lem : (a b : Style) → ==_Style a b ≡ true → a ≡ b
==_Style_lem a b e =
    let (e1, h) = and_split (==_Color a.fg b.fg && ==_Color a.bg b.bg) (a.attrs == b.attrs) e in
    let (f, g) = and_split (==_Color a.fg b.fg) (==_Color a.bg b.bg) e1 in
    let f' = ==_Color_lem a.fg b.fg f in
    let g' = ==_Color_lem a.bg b.bg g in
    let h' : a.attrs ≡ b.attrs = ground arith in λ j. record { fg = f' j; bg = g' j; attrs = h' j }

==_ScreenCell_lem : (a b : ScreenCell) → ==_ScreenCell a b ≡ true → a ≡ b
==_ScreenCell_lem a b e =
    let (e1, h) = and_split (a.ch == b.ch && a.width == b.width) (==_Style a.style b.style) e in
    let (c, w) = and_split (a.ch == b.ch) (a.width == b.width) e1 in
    let c' : a.ch ≡ b.ch = ground arith in
    let w' : a.width ≡ b.width = ground arith in
    let s' = ==_Style_lem a.style b.style h in λ j. record { ch = c' j; width = w' j; style = s' j }

take_next :
    (cells : List ScreenCell) (n : ℕ)
    → n < length cells
    → take (suc n) cells ≡ take n cells ++ get_or cells n blank ∷ []
take_next [] n h = absurd (omega arith)
take_next (c ∷ cells) zero h = refl
take_next (c ∷ cells) (suc n) h = ap (◌∷◌ c) (take_next cells n (omega arith))

take_all : (cells : List ScreenCell) → take (length cells) cells ≡ cells
take_all [] = refl
take_all (c ∷ cells) = ap (◌∷◌ c) (take_all cells)

replicate_next : (n : ℕ) → replicate (suc n) blank ≡ replicate n blank ++ blank ∷ []
replicate_next zero = refl
replicate_next (suc n) = ap (◌∷◌ blank) (replicate_next n)

trimmed_le : (cells : List ScreenCell) (n : ℕ) → trimmed cells n ≤ n
unfolding trimmed
trimmed_le cells zero = omega arith
trimmed_le cells (suc n) = let h = trimmed_le cells n in ground arith

padded :
    (cells : List ScreenCell) (n : ℕ)
    → n ≤ length cells
    → take (trimmed cells n) cells ++ replicate (n - trimmed cells n) blank ≡ take n cells
unfolding trimmed
padded cells zero h = refl
padded cells (suc n) h = elim (Bool-cases (==_ScreenCell (get_or cells n blank) blank)) [
  | inl e ↦ rw e (
      ap (λ k. take (trimmed cells n) cells ++ replicate k blank) {y = suc (n - trimmed cells n)}
        more
      ∙ ap (◌++◌ (take (trimmed cells n) cells)) (replicate_next (n - trimmed cells n))
      ∙ sym (
          append_assoc (take (trimmed cells n) cells) (replicate (n - trimmed cells n) blank)
            (blank ∷ []))
      ∙ ap (λ l. l ++ blank ∷ []) (padded cells n (omega arith))
      ∙ ap (λ c. take n cells ++ c ∷ []) (sym (==_ScreenCell_lem (get_or cells n blank) blank e))
      ∙ sym (take_next cells n (omega arith)))
  | inr e ↦ rw e (
      ap (λ k. take (suc n) cells ++ replicate k blank) {y = 0} (omega arith)
      ∙ append-nil (take (suc n) cells))
]
  where
    more : suc n - trimmed cells n ≡ suc (n - trimmed cells n)
    more = omega (arith, trimmed_le cells n)

trimmed_last :
    (cells : List ScreenCell) (n k : ℕ)
    → trimmed cells n ≡ suc k
    → ==_ScreenCell (get_or cells k blank) blank ≡ false
unfolding trimmed
trimmed_last cells zero k h = absurd (omega arith)
trimmed_last cells (suc n) k h = elim (Bool-cases (==_ScreenCell (get_or cells n blank) blank)) [
  | inl e ↦ trimmed_last cells n k (rw e at h)
  | inr e ↦
      ap (λ j. ==_ScreenCell (get_or cells j blank) blank) (let g = rw e at h in omega arith) ∙ e
]

get_or-take :
    (cells : List ScreenCell) (n k : ℕ)
    → k < n
    → get_or (take n cells) k blank ≡ get_or cells k blank
get_or-take cells zero k h = absurd (omega arith)
get_or-take [] (suc n) k h = refl
get_or-take (c ∷ cells) (suc n) zero h = refl
get_or-take (c ∷ cells) (suc n) (suc k) h = get_or-take cells n k (omega arith)

length-trim : (cells : List ScreenCell) → length (trim cells) ≡ trimmed cells (length cells)
length-trim cells =
    omega (arith, length-take (trimmed cells (length cells)) cells, trimmed_le cells (length cells))

-- A row is what is kept of it, and default blanks behind.
pub trim-append-replicate :
    (cells : List ScreenCell)
    → trim cells ++ replicate (length cells - length (trim cells)) blank ≡ cells
trim-append-replicate cells =
    ap (λ k. trim cells ++ replicate (length cells - k) blank) (length-trim cells)
    ∙ padded cells (length cells) (omega arith)
    ∙ take_all cells

-- Of what is kept of a row, the last cell is no default blank: no shorter row would do.
pub trim_last :
    (cells : List ScreenCell) (k : ℕ)
    → length (trim cells) ≡ suc k
    → ==_ScreenCell (get_or (trim cells) k blank) blank ≡ false
trim_last cells k e =
    ap (λ c. ==_ScreenCell c blank)
      (get_or-take cells (trimmed cells (length cells)) k (omega (arith, length-trim cells, e)))
    ∙ trimmed_last cells (length cells) k (sym (length-trim cells) ∙ e)
