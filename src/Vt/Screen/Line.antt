-- ===== src/Vt/Screen/Line.antt =====
-- A text that is printed on a blank line stands there, and reads back as what it was.
use sshos.Base.{
  ℕ, zero, suc, ◌+◌, ◌-◌, ◌≤◌, ◌<◌, ◌≡◌, ◌≢◌, refl, sym, ap, ◌∙◌, subst, Bool, false, List, [], ◌∷◌,
  ◌++◌, arith, length, get_or, All, inl, inr, Bool-cases, ◌==◌, ◌||◌, ◌&&◌, if◌then◌else◌, ltb, leb,
  length-append, append-nil, append_assoc,
}
use sshos.Base.Access.{get_or-append_if}
use sshos.Render.Width.{char_width}
use sshos.Common.Utf8.{IsScalar, is_surrogate, encode_utf8}
use sshos.Common.Utf8.Fold.{encode_all}
use sshos.Vt.Cell.{ScreenCell}
use sshos.Vt.Charset.{Charset, ascii, translate}
use sshos.Vt.Screen.{Screen, at, put}
use sshos.Vt.Screen.Edit.{wrap, advance, write_cells, place, print, glyph}
use sshos.Vt.Screen.Pages.{text_end, text_of, line_text, append_utf8}
use sshos.Vt.Screen.Bounds.{IsValid}
use sshos.Vt.Screen.Whole.{On, clear_narrow}
use sshos.Vt.Screen.Cells.{page, at-page, page-put}
use sshos.Vt.Screen.Invariant.{print-IsValid}
use sshos.Vt.Screen.Waits.{print-Waits}

-- The line `y` holds the characters of `text`, one to a cell, and then blanks.
pub record Shows (s : Screen) (y : ℕ) (text : List ℕ) : Type 0 where
  pub narrow : (u : ℕ) → u < s.cols → (page s.cols s.grid u y).width ≡ 1
  pub holds : (u : ℕ) → u < s.cols → (page s.cols s.grid u y).ch ≡ get_or text u b' '

-- The cursor stands behind the text, on its line, and nothing is in the way of the next character.
pub record Writes (s : Screen) (y : ℕ) (text : List ℕ) : Type 0 where
  pub valid : IsValid s
  pub plain_set : s.charset ≡ ascii
  pub shows : Shows s y text
  pub on_line : s.cy ≡ y

pub record Ready (s : Screen) (y : ℕ) (text : List ℕ) : Type 0 where
  pub writes : Writes s y text
  pub behind : s.cx ≡ length text
  pub no_wrap : s.wrap_pending ≡ false

translate_ascii : (cp : ℕ) (c : Charset) → c ≡ ascii → translate cp c ≡ cp
unfolding translate
translate_ascii cp c e = subst (λ d. translate cp d ≡ cp) (sym e) refl

wrap_idle : (s : Screen) → s.wrap_pending ≡ false → wrap s ≡ s
unfolding wrap
wrap_idle s e = ground (arith, e)

own : (s : Screen) → IsValid s → On s.cols s.rows s
own s v = record { columns = refl; lines = refl; full = v.full }

print_narrow :
    (ambiguous : Bool) (cp : ℕ) (s : Screen) (y : ℕ) (text : List ℕ)
    → char_width ambiguous cp ≡ 1
    → Ready s y text
    → print ambiguous cp s ≡ advance 1 (put s.cx s.cy (glyph cp 1 s) s)
unfolding print place write_cells
print_narrow ambiguous cp s y text w r =
    let v = r.writes.valid in
    let cell_narrow =
      ap (λ j. (page s.cols s.grid s.cx j).width) r.writes.on_line
      ∙ r.writes.shows.narrow s.cx v.column in
    rw
      (
        translate_ascii cp s.charset r.writes.plain_set,
        w,
        wrap_idle s r.no_wrap,
        clear_narrow s.cols s.rows s (own s v) s.cx s.cy v.column v.line cell_narrow,
      )
      refl

get_or_beyond : (xs : List ℕ) (i d : ℕ) → length xs ≤ i → get_or xs i d ≡ d
get_or_beyond [] i d h = refl
get_or_beyond (x ∷ xs) zero d h = absurd (omega arith)
get_or_beyond (x ∷ xs) (suc i) d h = get_or_beyond xs i d (omega arith)

get_or_single : (x i d : ℕ) → get_or (x ∷ []) i d ≡ (if i == 0 then x else d)
get_or_single x zero d = refl
get_or_single x (suc i) d = ground arith

get_or_snoc :
    (xs : List ℕ) (x i d : ℕ)
    → get_or (xs ++ x ∷ []) i d ≡ (if i == length xs then x else get_or xs i d)
get_or_snoc xs x i d = ground (
  arith,
  get_or-append_if xs (x ∷ []) i d,
  get_or_single x (i - length xs) d,
  get_or_beyond xs i d,
)

-- One more character.
print-Shows :
    (cp : ℕ) (s : Screen) (y : ℕ) (text : List ℕ)
    → Ready s y text
    → Shows (put s.cx s.cy (glyph cp 1 s) s) y (text ++ cp ∷ [])
unfolding put
print-Shows cp s y text r =
    let v = r.writes.valid in
    let c = glyph cp 1 s in
    let there : (u : ℕ)
        → u < s.cols
        → page s.cols (put s.cx s.cy c s).grid u y
          ≡ (if u == s.cx && y == s.cy then c else page s.cols s.grid u y) =
      λ u hu. page-put s s.cx s.cy c u y v.full v.column v.line hu in
    let e = r.writes.on_line in
    let b = r.behind in
    record {
      narrow = λ u hu.
          ap (λ (d : ScreenCell). d.width) (there u hu)
          ∙ ground (arith, r.writes.shows.narrow u hu);
      holds = λ u hu.
          ap (λ (d : ScreenCell). d.ch) (there u hu)
          ∙ ground (arith, r.writes.shows.holds u hu, get_or_snoc text cp u b' ');
    }

-- The cursor goes on, and the line stays.
Shows-advance : (s : Screen) (y : ℕ) (text : List ℕ) → Shows s y text → Shows (advance 1 s) y text
unfolding advance
Shows-advance s y text h = elim (Bool-cases (leb s.cols (s.cx + 1))) [
  | inl e ↦ rw e (record { narrow = h.narrow; holds = h.holds })
  | inr e ↦ rw e (record { narrow = h.narrow; holds = h.holds })
]

print-Writes :
    (ambiguous : Bool) (cp : ℕ) (s : Screen) (y : ℕ) (text : List ℕ)
    → char_width ambiguous cp ≡ 1
    → Ready s y text
    → Writes (print ambiguous cp s) y (text ++ cp ∷ [])
print-Writes ambiguous cp s y text w r =
    let e = print_narrow ambiguous cp s y text w r in
    let t = put s.cx s.cy (glyph cp 1 s) s in
    record {
      valid = print-IsValid ambiguous cp s r.writes.valid;
      plain_set = ap (λ (u : Screen). u.charset) e ∙ charset_advance ∙ r.writes.plain_set;
      shows =
          subst (λ u. Shows u y (text ++ cp ∷ [])) (sym e)
            (Shows-advance t y (text ++ cp ∷ []) (print-Shows cp s y text r));
      on_line = ap (λ (u : Screen). u.cy) e ∙ cy_advance ∙ r.writes.on_line;
    }
  where
    charset_advance : (advance 1 (put s.cx s.cy (glyph cp 1 s) s)).charset ≡ s.charset
    charset_advance = unfold advance put in ground arith

    cy_advance : (advance 1 (put s.cx s.cy (glyph cp 1 s) s)).cy ≡ s.cy
    cy_advance = unfold advance put in ground arith

print-Ready :
    (ambiguous : Bool) (cp : ℕ) (s : Screen) (y : ℕ) (text : List ℕ)
    → char_width ambiguous cp ≡ 1
    → Ready s y text
    → length text + 1 < s.cols
    → Ready (print ambiguous cp s) y (text ++ cp ∷ [])
print-Ready ambiguous cp s y text w r room =
    let e = print_narrow ambiguous cp s y text w r in
    let b = r.behind in
    record {
      writes = print-Writes ambiguous cp s y text w r;
      behind =
          ap (λ (u : Screen). u.cx) e
          ∙ unfold advance put in ground (arith, length-append text (cp ∷ []));
      no_wrap =
          ap (λ (u : Screen). u.wrap_pending) e ∙ unfold advance put in ground (arith, r.no_wrap);
    }

abbrev pub print_all : Bool → List ℕ → Screen → Screen
print_all ambiguous [] s = s
print_all ambiguous (cp ∷ cps) s = print_all ambiguous cps (print ambiguous cp s)

cols_advance : (cp : ℕ) (s : Screen) → (advance 1 (put s.cx s.cy (glyph cp 1 s) s)).cols ≡ s.cols
unfolding advance put
cols_advance cp s = ground arith

-- The encoding of a valid scalar is that of `encode_utf8`.
append_utf8_lem : (cp : ℕ) → IsScalar cp → append_utf8 cp ≡ encode_utf8 cp
unfolding encode_utf8
append_utf8_lem cp z =
    let valid : (is_surrogate cp || ltb 0x10FFFF cp) ≡ false = ground arith in rw valid refl

-- Characters of one cell, as many as the line still has columns.
pub print_all-Writes :
    (ambiguous : Bool) (cps : List ℕ) (s : Screen) (y : ℕ) (text : List ℕ)
    → All (λ cp. char_width ambiguous cp ≡ 1) cps
    → Ready s y text
    → length text + length cps ≤ s.cols
    → Writes (print_all ambiguous cps s) y (text ++ cps)
print_all-Writes ambiguous [] s y text w r h = subst (Writes s y) (sym (append-nil text)) r.writes
print_all-Writes ambiguous (cp ∷ []) s y text w r h = print-Writes ambiguous cp s y text w.0 r
print_all-Writes ambiguous (cp ∷ next ∷ cps) s y text w r h =
    let e = print_narrow ambiguous cp s y text w.0 r in
    let cols : (print ambiguous cp s).cols ≡ s.cols =
      ap (λ (u : Screen). u.cols) e ∙ cols_advance cp s in
    subst (Writes (print_all ambiguous (next ∷ cps) (print ambiguous cp s)) y)
      (append_assoc text (cp ∷ []) (next ∷ cps))
      (print_all-Writes ambiguous (next ∷ cps) (print ambiguous cp s) y (text ++ cp ∷ []) w.1
        (print-Ready ambiguous cp s y text w.0 r (omega arith))
        (omega (arith, cols, length-append text (cp ∷ []))))

print_all-cols :
    (ambiguous : Bool) (cps : List ℕ) (s : Screen) → (print_all ambiguous cps s).cols ≡ s.cols
print_all-cols ambiguous [] s = refl
print_all-cols ambiguous (cp ∷ cps) s =
    print_all-cols ambiguous cps (print ambiguous cp s) ∙ (print-Waits ambiguous cp s).columns

-- The columns whose cells decide the text of a line.
module _ (s : Screen) (y : ℕ) (text : List ℕ) (hy : y < s.rows) (h : Shows s y text) where
  at_width : (u : ℕ) → u < s.cols → (at s u y).width ≡ 1
  at_width u hu = ap (λ (c : ScreenCell). c.width) (at-page s u y hu hy) ∙ h.narrow u hu

  at_ch : (u : ℕ) → u < s.cols → (at s u y).ch ≡ get_or text u b' '
  at_ch u hu = ap (λ (c : ScreenCell). c.ch) (at-page s u y hu hy) ∙ h.holds u hu

  -- The text ends behind its last character, which is no space.
  text_end_lem :
      (count last : ℕ)
      → length text ≡ suc last
      → get_or text last b' ' ≢ b' '
      → length text ≤ count
      → count ≤ s.cols
      → text_end s y count ≡ length text
  unfolding text_end
  text_end_lem zero last l ne m k = absurd (omega arith)
  text_end_lem (suc count) last l ne m k =
      let w = at_width count k in
      let c = at_ch count k in
      elim (Bool-cases (count == last)) [
        | inl e ↦
            let e' : count ≡ last = ground arith in
            let c' : (at s count y).ch ≢ b' ' =
              λ z. ne (sym (c ∙ ap (λ j. get_or text j b' ') e') ∙ z) in
            ground arith
        | inr e ↦ ground (
          arith,
          get_or_beyond text count b' ',
          text_end_lem count last l ne (ground arith) (omega arith),
        )
      ]

  text_of_lem :
      (rest : List ℕ) (x : ℕ)
      → x + length rest ≤ s.cols
      → ((i : ℕ) → i < length rest → get_or text (x + i) b' ' ≡ get_or rest i b' ')
      → All IsScalar rest
      → text_of s y x (length rest) ≡ encode_all rest
  unfolding text_of
  text_of_lem [] x k e z = refl
  text_of_lem (cp ∷ rest) x k e z =
      let w = at_width x (omega arith) in
      let c : (at s x y).ch ≡ cp =
        at_ch x (omega arith)
        ∙ ap (λ j. get_or text j b' ') {y = x + 0} (omega arith)
        ∙ e 0 (omega arith) in
      let ih =
        text_of_lem rest (x + 1) (omega arith)
          (λ i hi.
            ap (λ j. get_or text j b' ') {y = x + suc i} (omega arith) ∙ e (suc i) (omega arith))
          z.1 in
      let visible : ((at s x y).width == 0) ≡ false = ground arith in
      rw (visible, c, ih, append_utf8_lem cp z.0) refl

  line_text-Shows :
      (last : ℕ)
      → length text ≡ suc last
      → get_or text last b' ' ≢ b' '
      → length text ≤ s.cols
      → All IsScalar text
      → line_text s y ≡ encode_all text
  unfolding line_text
  line_text-Shows last l ne k z =
      let inside : leb s.rows y ≡ false = ground arith in
      rw (inside, text_end_lem s.cols last l ne k (omega arith))
        (text_of_lem text 0 (omega arith)
          (λ i hi. ap (λ j. get_or text j b' ') {x = 0 + i} (omega arith)) z)

-- A text of characters of one cell, that does not end in a space and is not longer than the line,
-- printed at the start of a blank line, is what the line reads as, in UTF-8.
pub line_text-print_all :
    (ambiguous : Bool) (cps : List ℕ) (s : Screen) (last : ℕ)
    → All (λ cp. char_width ambiguous cp ≡ 1) cps
    → All IsScalar cps
    → length cps ≡ suc last
    → get_or cps last b' ' ≢ b' '
    → length cps ≤ s.cols
    → Ready s s.cy []
    → line_text (print_all ambiguous cps s) s.cy ≡ encode_all cps
line_text-print_all ambiguous cps s last w z l ne k r =
    let t = print_all ambiguous cps s in
    let same = print_all-cols ambiguous cps s in
    let q = print_all-Writes ambiguous cps s s.cy [] w r (omega arith) in
    line_text-Shows t s.cy cps (subst (λ j. j < t.rows) q.on_line q.valid.line) q.shows last l ne
      (omega (arith, same)) z
