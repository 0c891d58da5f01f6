-- ===== src/Apps/Editor/Erase.antt =====
-- The two erasures, as edits of the one text that the lines make up.
use sshos.Base.{
  ℕ, zero, suc, ◌+◌, ◌-◌, ◌<◌, ◌≡◌, refl, ap, sym, ◌∙◌, inl, inr, ◌⊎◌, true, false, List, [], ◌∷◌,
  ◌++◌, arith, Bytes, length, take, drop, set, get_or, subst, append_assoc, length-append,
  length-take, length-set, take-length-append, ltb, leb, ◌==◌, if◌then◌else◌, Bool-cases,
}
use sshos.Base.Access.{get_or-append_if}
use sshos.Apps.Editor.{
  TextPos, TextBuffer, newline, join_lines, line, clamp, write, merge, erase_before_at,
  erase_before, erase_at_clamped, erase_at,
}
use sshos.Apps.Editor.Flat.{
  before, behind, join_lines-append, place, left_of, length-left_of, join_lines_at, join_lines-set,
  take-set_next, drop-set, before-append, split_lines, regroup,
}
use sshos.Apps.Editor.Edits.{IsAt, IsAt-write, clamp-IsAt, IsEdit, place-set}

drop_next {ℓ} :
    {A : Type ℓ} (xs : List A) (i : ℕ) (d : A)
    → i < length xs
    → drop i xs ≡ get_or xs i d ∷ drop (suc i) xs
drop_next [] i d h = absurd (omega arith)
drop_next (x ∷ xs) zero d h = refl
drop_next (x ∷ xs) (suc i) d h = drop_next xs i d (omega arith)

take_next {ℓ} :
    {A : Type ℓ} (xs : List A) (i : ℕ) (d : A)
    → i < length xs
    → take (suc i) xs ≡ take i xs ++ get_or xs i d ∷ []
take_next [] i d h = absurd (omega arith)
take_next (x ∷ xs) zero d h = refl
take_next (x ∷ xs) (suc i) d h = ap (◌∷◌ x) (take_next xs i d (omega arith))

-- One byte of a line is erased.
module _ (b : TextBuffer) (q : TextPos) (some_line : q.line < length b.lines)
    (some_byte : q.col < length (line b q.line)) where
  abbrev shorter : Bytes
  shorter = take q.col (line b q.line) ++ drop (suc q.col) (line b q.line)

  erase_byte :
      IsEdit b
        (place b.lines q)
        (get_or (line b q.line) q.col 0 ∷ [])
        []
        (q, write q.line shorter b)
  erase_byte = record {
    replaced = record {
      left = left_of b.lines q;
      right = drop (suc q.col) (line b q.line) ++ behind (drop (suc q.line) b.lines);
      had =
          join_lines_at b.lines q some_line
          ∙ ap (λ t. left_of b.lines q ++ (t ++ behind (drop (suc q.line) b.lines)))
              (drop_next (line b q.line) q.col 0 some_byte);
      has =
          join_lines-set b.lines q (take q.col (line b q.line)) (drop (suc q.col) (line b q.line))
            some_line;
      where_at = length-left_of b.lines q (omega (arith, some_byte));
    };
    moved = omega (arith, place-set b.lines q.line q.col shorter);
    some_line = omega (arith, some_line, length-set b.lines q.line shorter);
    inside = IsAt-write b q.line q.col shorter some_line (
        omega (
          arith,
          length-append (take q.col (line b q.line)) (drop (suc q.col) (line b q.line)),
          length-take q.col (line b q.line),
          some_byte,
        ));
  }

-- The break between the lines `j` and `j + 1` is erased.
module _ (b : TextBuffer) (j : ℕ) (next_line : suc j < length b.lines) where
  abbrev end_of : TextPos
  end_of = record { line = j; col = length (line b j) }

  abbrev rest_of : List Bytes
  rest_of = drop (suc (suc j)) b.lines

  abbrev both : Bytes
  both = line b j ++ line b (suc j)

  merged : (merge j b).lines ≡ take j b.lines ++ both ∷ rest_of
  merged =
      ap (λ ls. ls ++ drop (suc (suc j)) (set b.lines j both))
        (take-set_next b.lines j both (omega (arith, next_line)))
      ∙ ap (◌++◌ (take j b.lines ++ both ∷ []))
          (drop-set b.lines j (suc (suc j)) both (omega arith))
      ∙ append_assoc (take j b.lines) (both ∷ []) rest_of

  -- The line that is left of the two.
  joined : length (line (merge j b) j) ≡ length both
  joined =
      ap (λ ls. length (get_or ls j [])) merged
      ∙ ap length (get_or-append_if (take j b.lines) (both ∷ rest_of) j [])
      ∙ ap
          (λ k.
            length (
              if ltb j k then get_or (take j b.lines) j [] else get_or (both ∷ rest_of) (j - k) []))
          upto
      ∙ ground arith
    where
      upto : length (take j b.lines) ≡ j
      upto = omega (arith, length-take j b.lines, next_line)

  erase_break : IsEdit b (place b.lines end_of) (newline ∷ []) [] (end_of, merge j b)
  erase_break = record {
    replaced = record {
      left = before (take j b.lines) ++ line b j;
      right = line b (suc j) ++ behind rest_of;
      had =
          ap join_lines (split_lines b.lines j (omega (arith, next_line)))
          ∙ join_lines-append (take j b.lines) (line b j) (drop (suc j) b.lines)
          ∙ ap (λ ls. before (take j b.lines) ++ (line b j ++ behind ls))
              (drop_next b.lines (suc j) [] next_line)
          ∙ sym (
              append_assoc (before (take j b.lines)) (line b j)
                (newline ∷ (line b (suc j) ++ behind rest_of)));
      has =
          ap join_lines merged
          ∙ join_lines-append (take j b.lines) both rest_of
          ∙ regroup (before (take j b.lines)) (line b j) (line b (suc j)) (behind rest_of);
      where_at = length-append (before (take j b.lines)) (line b j);
    };
    moved =
        ap (λ ls. place ls end_of) merged
        ∙ ap (λ ls. length (before ls) + length (line b j))
            (take-length-append (take j b.lines) (both ∷ rest_of) j
              (omega (arith, length-take j b.lines, next_line)))
        ∙ omega arith;
    some_line = omega (arith, ap length merged, length-append (take j b.lines) (both ∷ rest_of));
    inside = (
      omega (
        arith,
        ap length merged,
        length-append (take j b.lines) (both ∷ rest_of),
        length-take j b.lines,
        next_line,
      ),
      omega (arith, joined, length-append (line b j) (line b (suc j))),
    );
  }

  place_next : place b.lines (record { line = suc j; col = 0 }) ≡ place b.lines end_of + 1
  place_next =
      ap (λ ls. length (before ls) + 0) (take_next b.lines j [] (omega (arith, next_line)))
      ∙ omega (
        arith,
        ap length (before-append (take j b.lines) (line b j)),
        length-append (before (take j b.lines)) (line b j ++ newline ∷ []),
        length-append (line b j) (newline ∷ []),
      )

erase_at_clamped-IsEdit :
    (b : TextBuffer) (q : TextPos)
    → IsAt b q
    → (q.col < length (line b q.line)) ⊎ (suc q.line < length b.lines)
    → (g : ℕ) × IsEdit b (place b.lines q) (g ∷ []) [] (erase_at_clamped q b)
unfolding erase_at_clamped
erase_at_clamped-IsEdit b q at more = elim (Bool-cases (ltb q.col (length (line b q.line)))) [
  | inl e ↦
      rw (erase_at_clamped, e) (get_or (line b q.line) q.col 0, erase_byte b q at.0 (ground arith))
  | inr e ↦
      let next_line : suc q.line < length b.lines = ground arith in
      let f : leb (length b.lines) (q.line + 1) ≡ false = ground arith in
      let c : length (line b q.line) ≡ q.col = (let h = at.1 in ground arith) in
      rw (erase_at_clamped, e, f)
        (
          newline,
          subst
              (λ k.
                IsEdit b (place b.lines (record { line = q.line; col = k })) (newline ∷ []) []
                  (record { line = q.line; col = k }, merge q.line b))
              c (erase_break b q.line next_line),
        )
]

-- What is under the position, clamped to the lines, is erased: one byte of the line, or the break
-- behind it, and the position stays, on a column that its line has. There is a byte there, or a
-- line below.
pub erase_at-IsEdit :
    (b : TextBuffer) (p : TextPos)
    → 0 < length b.lines
    → ((clamp b p).col < length (line b (clamp b p).line)) ⊎ (suc (clamp b p).line < length b.lines)
    → (g : ℕ) × IsEdit b (place b.lines (clamp b p)) (g ∷ []) [] (erase_at p b)
unfolding erase_at
erase_at-IsEdit b p h more = erase_at_clamped-IsEdit b (clamp b p) (clamp-IsAt b p h) more

module _ (b : TextBuffer) (q : TextPos) (at : IsAt b q) where
  erase_byte_before :
      0 < q.col
      → IsEdit b (place b.lines q - 1) (get_or (line b q.line) (q.col - 1) 0 ∷ []) [] (
        record q { col = q.col - 1 },
        write q.line (take (q.col - 1) (line b q.line) ++ drop q.col (line b q.line)) b,
      )
  erase_byte_before h =
      subst
        (λ n. IsEdit b n (get_or (line b q.line) (q.col - 1) 0 ∷ []) [] (
          record q { col = q.col - 1 },
          write q.line (take (q.col - 1) (line b q.line) ++ drop q.col (line b q.line)) b,
        ))
        one_less
        (subst
          (λ m.
            IsEdit b (place b.lines (record q { col = q.col - 1 }))
              (get_or (line b q.line) (q.col - 1) 0 ∷ []) []
              (
                record q { col = q.col - 1 },
                write q.line (take (q.col - 1) (line b q.line) ++ drop m (line b q.line)) b,
              ))
          next_col (erase_byte b (record q { col = q.col - 1 }) at.0 (omega (arith, at.1, h))))
    where
      next_col : suc (q.col - 1) ≡ q.col
      next_col = omega arith

      one_less : place b.lines (record q { col = q.col - 1 }) ≡ place b.lines q - 1
      one_less = omega arith

  erase_break_before :
      q.col ≡ 0
      → 0 < q.line
      → IsEdit b
          (place b.lines q - 1)
          (newline ∷ [])
          []
          (record { line = q.line - 1; col = length (line b (q.line - 1)) }, merge (q.line - 1) b)
  erase_break_before c h =
      subst
        (λ n.
          IsEdit b n (newline ∷ []) [] (
            record { line = q.line - 1; col = length (line b (q.line - 1)) },
            merge (q.line - 1) b,
          ))
        one_less (erase_break b (q.line - 1) next_line)
    where
      next_line : suc (q.line - 1) < length b.lines
      next_line = omega (arith, at.0)

      same_line : suc (q.line - 1) ≡ q.line
      same_line = omega arith

      one_less : place b.lines (end_of b (q.line - 1) next_line) ≡ place b.lines q - 1
      one_less = omega (
        arith,
        place_next b (q.line - 1) next_line,
        ap (λ n. length (before (take n b.lines))) same_line,
        c,
      )

  erase_before_at-IsEdit :
      0 < place b.lines q
      → (g : ℕ) × IsEdit b (place b.lines q - 1) (g ∷ []) [] (erase_before_at q b)
  unfolding erase_before_at
  erase_before_at-IsEdit h = elim (Bool-cases (ltb 0 q.col)) [
    | inl e ↦
        rw (erase_before_at, e)
          (get_or (line b q.line) (q.col - 1) 0, erase_byte_before (ground arith))
    | inr e ↦
        let c : q.col ≡ 0 = ground arith in
        elim (Bool-cases (q.line == 0)) [
          | inl f ↦ absurd (at_start c f)
          | inr f ↦ rw (erase_before_at, e, f) (newline, erase_break_before c (ground arith))
        ]
  ]
    where
      at_start : q.col ≡ 0 → q.line == 0 ≡ true → ⊥
      at_start c f =
          let z : q.line ≡ 0 = ground arith in
          omega (arith, ap (λ n. length (before (take n b.lines))) z, c, h)

-- What is before the position, clamped to the lines, is erased: one byte of the line, or the break
-- before the line. The position, which is not the start of the text, goes back by one, to a column
-- that its line has.
pub erase_before-IsEdit :
    (b : TextBuffer) (p : TextPos)
    → 0 < length b.lines
    → 0 < place b.lines (clamp b p)
    → (g : ℕ) × IsEdit b (place b.lines (clamp b p) - 1) (g ∷ []) [] (erase_before p b)
unfolding erase_before
erase_before-IsEdit b p h some_before =
    erase_before_at-IsEdit b (clamp b p) (clamp-IsAt b p h) some_before
