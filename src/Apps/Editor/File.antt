-- ===== src/Apps/Editor/File.antt =====
-- A file through the editor: what is loaded is what is saved.
use sshos.Base.{
  ℕ, zero, suc, ◌<◌, ◌≡◌, ◌≢◌, refl, ap, sym, ◌∙◌, inl, inr, ◌⊎◌, Bool, false, none, some, List, [],
  ◌∷◌, ◌++◌, arith, Bytes, length, take, drop, length-drop, append_assoc, append-nil, ◌==◌,
  if◌then◌else◌, Bool-cases,
}
use sshos.Apps.Editor.{
  newline, index_of, ends_line, load_loop, or_empty_line, load, join_lines, text,
}

ends_line-cons :
    (b : ℕ) (bs : Bytes) → b == newline ≡ false → ends_line bs ≡ false → ends_line (b ∷ bs) ≡ false
unfolding ends_line
ends_line-cons b [] e h = e
ends_line-cons b (c ∷ bs) e h = h

-- The line breaks of a text: there is none, or the text goes on behind the first.
abbrev Cut : Bytes → Type 0
Cut bs =
    ((index_of bs ≡ none) × (ends_line bs ≡ false))
    ⊎ ((k : ℕ) × (index_of bs ≡ some k) × (bs ≡ take k bs ++ newline ∷ drop (suc k) bs))

cut : (bs : Bytes) → Cut bs
unfolding index_of
cut [] = inl (refl, unfold ends_line in refl)
cut (b ∷ bs) = elim (Bool-cases (b == newline)) [
  | inl e ↦ let nl : b ≡ newline = ground arith in inr (0, rw e refl, ap (λ c. c ∷ bs) nl)
  | inr e ↦ elim (cut bs) [
    | inl (f, g) ↦ inl (rw (e, f) refl, ends_line-cons b bs e g)
    | inr (k, f, g) ↦ inr (suc k, rw (e, f) refl, ap (◌∷◌ b) g)
  ]
]

ends_line-append : (xs : Bytes) (b : ℕ) (ys : Bytes) → ends_line (xs ++ b ∷ ys) ≡ ends_line (b ∷ ys)
unfolding ends_line
ends_line-append [] b ys = refl
ends_line-append (x ∷ []) b ys = refl
ends_line-append (x ∷ y ∷ xs) b ys = ends_line-append (y ∷ xs) b ys

abbrev final : Bool → Bytes
final ends = if ends then newline ∷ [] else []

join_lines-cons :
    (l : Bytes) (ls : List Bytes) → ls ≢ [] → join_lines (l ∷ ls) ≡ l ++ newline ∷ join_lines ls
join_lines-cons l [] h = absurd (h refl)
join_lines-cons l (m ∷ ls) h = refl

cons_some : (l : Bytes) (ls : List Bytes) → l ∷ ls ≢ []
cons_some l ls q = omega (arith, ap length q)

length-some : (bs : Bytes) → bs ≢ [] → length bs == 0 ≡ false
length-some [] h = absurd (h refl)
length-some (b ∷ bs) h = ground arith

module _ (fuel : ℕ) (bs : Bytes) where
  load_loop_last : bs ≢ [] → index_of bs ≡ none → load_loop (suc fuel) bs ≡ bs ∷ []
  unfolding load_loop
  load_loop_last h e = rw (load_loop, e) (rw (length-some bs h) refl)

  load_loop_cut :
      (k : ℕ)
      → index_of bs ≡ some k
      → load_loop (suc fuel) bs ≡ take k bs ∷ load_loop fuel (drop (suc k) bs)
  unfolding load_loop
  load_loop_cut k e = rw (load_loop, e) refl

load_loop_end : (fuel : ℕ) → load_loop fuel [] ≡ []
unfolding load_loop index_of
load_loop_end zero = refl
load_loop_end (suc fuel) = refl

load_loop_some : (fuel : ℕ) (bs : Bytes) → bs ≢ [] → length bs < fuel → load_loop fuel bs ≢ []
load_loop_some zero bs h f = absurd (omega arith)
load_loop_some (suc fuel) bs h f = elim (cut bs) [
  | inl (e, g) ↦ rw (load_loop_last fuel bs h e) (cons_some bs [])
  | inr (k, e, g) ↦
      rw (load_loop_cut fuel bs k e) (cons_some (take k bs) (load_loop fuel (drop (suc k) bs)))
]

-- A line and its break in front of what is left.
join_lines-load_loop :
    (fuel : ℕ) (l r : Bytes)
    → length r < fuel
    → (r ≢ [] → join_lines (load_loop fuel r) ++ final (ends_line r) ≡ r)
    → join_lines (l ∷ load_loop fuel r) ++ final (ends_line (newline ∷ r)) ≡ l ++ newline ∷ r
unfolding ends_line
join_lines-load_loop fuel l [] f h = rw (load_loop_end fuel) refl
join_lines-load_loop fuel l (x ∷ r) f h =
    rw (join_lines-cons l (load_loop fuel (x ∷ r)) (load_loop_some fuel (x ∷ r) byte_some f)) (
      append_assoc l (newline ∷ join_lines (load_loop fuel (x ∷ r))) (final (ends_line (x ∷ r)))
      ∙ ap (λ t. l ++ newline ∷ t) (h byte_some))
  where
    byte_some : x ∷ r ≢ []
    byte_some q = omega (arith, ap length q)

load_loop-join_lines :
    (fuel : ℕ) (bs : Bytes)
    → bs ≢ []
    → length bs < fuel
    → join_lines (load_loop fuel bs) ++ final (ends_line bs) ≡ bs
load_loop-join_lines zero bs h f = absurd (omega arith)
load_loop-join_lines (suc fuel) bs h f = elim (cut bs) [
  | inl (e, g) ↦ rw (load_loop_last fuel bs h e, g) (append-nil bs)
  | inr (k, e, g) ↦
      let r = drop (suc k) bs in
      let shorter : length r < fuel = omega (arith, length-drop (suc k) bs, some_byte) in
      let ends = ap ends_line g ∙ ends_line-append (take k bs) newline r in
      rw (load_loop_cut fuel bs k e, ends)
        (join_lines-load_loop fuel (take k bs) r shorter
            (λ some_left. load_loop-join_lines fuel r some_left shorter)
          ∙ sym g)
]
  where
    some_byte : 0 < length bs
    some_byte = let e = length-some bs h in ground arith

-- A file that is not empty, loaded and saved, is the same bytes: the final line break is kept, and
-- none is added.
pub text-load : (bs : Bytes) → bs ≢ [] → text (load bs) ≡ bs
unfolding load
text-load bs h = rw (length-some bs h) (
    ap (λ ls. join_lines ls ++ final (ends_line bs))
      (or_empty_line_same (load_loop (suc (length bs)) bs)
        (load_loop_some (suc (length bs)) bs h (omega arith)))
    ∙ load_loop-join_lines (suc (length bs)) bs h (omega arith))
  where
    or_empty_line_same : (ls : List Bytes) → ls ≢ [] → or_empty_line ls ≡ ls
    or_empty_line_same [] q = absurd (q refl)
    or_empty_line_same (l ∷ ls) q = refl
