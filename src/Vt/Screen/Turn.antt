-- ===== src/Vt/Screen/Turn.antt =====
-- Where the lines of a slice come to stand when it turns.
use sshos.Base.{
  ℕ, ◌+◌, ◌-◌, ◌*◌, ◌≤◌, ◌<◌, ◌≡◌, refl, ap, ◌∙◌, false, arith, length, leb, ltb, ◌==◌, ◌||◌, ◌&&◌,
  if◌then◌else◌, get_or, inl, inr, Bool-cases,
}
use sshos.Vt.Cell.{ScreenCell, blank}
use sshos.Vt.Screen.{Screen, erased}
use sshos.Vt.Screen.Scroll.{rotate, scroll_slice_up, scroll_slice_down}
use sshos.Vt.Screen.Slices.{length-rotate, get_or-fill, get_or-rotate}
use sshos.Vt.Screen.Bounds.{lines_mono, lines_add, slice_fits}
use sshos.Vt.Screen.Cells.{page}

-- The index of a place is beyond the start of the line `t` if its line is.
leb_lines : (n t x y : ℕ) → x < n → leb (t * n) (y * n + x) ≡ leb t y
leb_lines n t x y h = elim (Bool-cases (leb t y)) [
  | inl e ↦ let k = lines_mono n t y (ground arith) in ground arith
  | inr e ↦ let k = lines_mono n (y + 1) t (ground arith) in let l = lines_add n y 1 in ground arith
]

ltb_lines : (n t x y : ℕ) → x < n → ltb (y * n + x) (t * n) ≡ ltb y t
ltb_lines n t x y h = let e = leb_lines n t x y h in ground arith

-- A place `i` of the slice in numbers, where the slice is cut before its last `d`.
turned_up :
    (g : ℕ → ScreenCell) (e : ScreenCell) (first last d i top bottom k y : ℕ)
    → first + d ≤ last
    → leb first i ≡ leb top y
    → ltb i last ≡ leb y bottom
    → leb (last - d) i ≡ ltb bottom (y + k)
    → top + k ≤ bottom + 1
    → (if leb (last - d) i && ltb i last
        then e
        else if leb first i && ltb i last
        then (if ltb i (first + (last - (first + d)))
            then g (i + (first + d - first))
            else g (i - (last - (first + d))))
        else g i)
      ≡ (if leb top y && leb y bottom then (if leb (y + k) bottom then g (i + d) else e) else g i)
turned_up g e first last d i top bottom k y h a b c l =
    elim (Bool-cases (leb top y && leb y bottom)) [
      | inl f ↦ elim (Bool-cases (ltb bottom (y + k))) [
        | inl late ↦ ground arith
        | inr soon ↦
            let same : i + (first + d - first) ≡ i + d = omega arith in rw same (ground arith)
      ]
      | inr f ↦ ground arith
    ]

-- The same where the slice is cut before its last `d` and these come first.
turned_down :
    (g : ℕ → ScreenCell) (e : ScreenCell) (first last d i top bottom k y : ℕ)
    → first + d ≤ last
    → leb first i ≡ leb top y
    → ltb i last ≡ leb y bottom
    → ltb i (first + d) ≡ ltb y (top + k)
    → (if leb first i && ltb i (first + d)
        then e
        else if leb first i && ltb i last
        then (if ltb i (first + (last - (last - d)))
            then g (i + (last - d - first))
            else g (i - (last - (last - d))))
        else g i)
      ≡ (if leb top y && leb y bottom then (if leb (top + k) y then g (i - d) else e) else g i)
turned_down g e first last d i top bottom k y h a b c =
    elim (Bool-cases (leb top y && leb y bottom)) [
      | inl f ↦ elim (Bool-cases (ltb y (top + k))) [
        | inl early ↦ ground arith
        | inr rest ↦ let same : last - (last - d) ≡ d = omega arith in rw same (ground arith)
      ]
      | inr f ↦ ground arith
    ]

module _ (s : Screen) (full : length s.grid ≡ s.cols * s.rows) (top bottom k : ℕ) (h : top ≤ bottom)
    (inside : bottom < s.rows) where
  -- The lines of the slice come up by `k`, and erased lines follow them.
  pub page-scroll_slice_up :
      (x y : ℕ)
      → x < s.cols
      → 0 < k
      → page s.cols (scroll_slice_up top bottom k s).grid x y ≡ (
          if leb top y && leb y bottom
          then (if leb (y + k) bottom then page s.cols s.grid x (y + k) else erased s)
          else page s.cols s.grid x y)
  unfolding scroll_slice_up
  page-scroll_slice_up x y hx some_line =
      let n = s.cols in
      let first = top * n in
      let last = (bottom + 1) * n in
      let i = y * n + x in
      let fits = slice_fits s full top bottom k h inside in
      let open_guard : (k == 0 || leb s.rows bottom || ltb bottom top) ≡ false = ground arith in
      let a = leb_lines n top x y hx in
      let b = ltb_lines n (bottom + 1) x y hx in
      rw open_guard (elim (Bool-cases (leb (bottom - top + 1) k)) [
        | inl all ↦
            rw all (get_or-fill first last (erased s) s.grid i blank fits.0 fits.1 ∙ ground arith)
        | inr some_kept ↦
            let q = lines_add n (bottom + 1 - k) k in
            let q' =
              ap (λ (t : ℕ). t * n) {x = bottom + 1 - k + k} {y = bottom + 1} (ground arith) in
            let m = lines_mono n (top + k) (bottom + 1) (ground arith) in
            let d = lines_add n top k in
            let c : leb (last - k * n) i ≡ ltb bottom (y + k) =
              ap (λ (t : ℕ). leb t i) {x = last - k * n} (omega arith)
              ∙ leb_lines n (bottom + 1 - k) x y hx
              ∙ ground arith in
            let turned = rotate first (first + k * n) last s.grid in
            let size =
              length-rotate first (first + k * n) last s.grid (omega arith) (omega arith) fits.1 in
            let up : i + k * n ≡ (y + k) * n + x = omega (arith, lines_add n y k) in
            rw some_kept (
              get_or-fill (last - k * n) last (erased s) turned i blank (omega arith)
                (omega (arith, size, fits.1))
              ∙ ap (λ (t : ScreenCell). if leb (last - k * n) i && ltb i last then erased s else t)
                  (get_or-rotate first (first + k * n) last s.grid i blank (omega arith)
                    (omega arith) fits.1)
              ∙ turned_up (λ j. get_or s.grid j blank) (erased s) first last (k * n) i top bottom k
                  y (omega arith) a (b ∙ ground arith) c (ground arith)
              ∙ rw up refl)
      ])

  -- The lines of the slice go down by `k`, and erased lines stand before them.
  pub page-scroll_slice_down :
      (x y : ℕ)
      → x < s.cols
      → 0 < k
      → page s.cols (scroll_slice_down top bottom k s).grid x y ≡ (
          if leb top y && leb y bottom
          then (if leb (top + k) y then page s.cols s.grid x (y - k) else erased s)
          else page s.cols s.grid x y)
  unfolding scroll_slice_down
  page-scroll_slice_down x y hx some_line =
      let n = s.cols in
      let first = top * n in
      let last = (bottom + 1) * n in
      let i = y * n + x in
      let fits = slice_fits s full top bottom k h inside in
      let open_guard : (k == 0 || leb s.rows bottom || ltb bottom top) ≡ false = ground arith in
      let a = leb_lines n top x y hx in
      let b = ltb_lines n (bottom + 1) x y hx in
      rw open_guard (elim (Bool-cases (leb (bottom - top + 1) k)) [
        | inl all ↦
            rw all (get_or-fill first last (erased s) s.grid i blank fits.0 fits.1 ∙ ground arith)
        | inr some_kept ↦
            let m = lines_mono n (top + k) (bottom + 1) (ground arith) in
            let d = lines_add n top k in
            let c : ltb i (first + k * n) ≡ ltb y (top + k) =
              ap (λ (t : ℕ). ltb i t) {x = first + k * n} (omega arith)
              ∙ ltb_lines n (top + k) x y hx in
            let turned = rotate first (last - k * n) last s.grid in
            let size =
              length-rotate first (last - k * n) last s.grid (omega arith) (omega arith) fits.1 in
            rw some_kept (
              get_or-fill first (first + k * n) (erased s) turned i blank (omega arith)
                (omega (arith, size, fits.1))
              ∙ ap
                  (λ (t : ScreenCell). if leb first i && ltb i (first + k * n) then erased s else t)
                  (get_or-rotate first (last - k * n) last s.grid i blank (omega arith)
                    (omega arith) fits.1)
              ∙ turned_down (λ j. get_or s.grid j blank) (erased s) first last (k * n) i top bottom
                  k y (omega arith) a (b ∙ ground arith) c
              ∙ back)
      ])
    where
      back :
          (if leb top y && leb y bottom
            then (if leb (top + k) y
                then get_or s.grid (y * s.cols + x - k * s.cols) blank
                else erased s)
            else page s.cols s.grid x y)
          ≡ (if leb top y && leb y bottom
              then (if leb (top + k) y then page s.cols s.grid x (y - k) else erased s)
              else page s.cols s.grid x y)
      back = elim (Bool-cases (leb (top + k) y)) [
        | inl e ↦
            let q = lines_add s.cols (y - k) k in
            let q' = ap (λ (t : ℕ). t * s.cols) {x = y - k + k} {y = y} (ground arith) in
            let r : y * s.cols + x - k * s.cols ≡ (y - k) * s.cols + x = omega arith in
            rw (r, e) refl
        | inr e ↦ rw e refl
      ]
