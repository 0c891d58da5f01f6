-- ===== src/Shell/UpdateState/Half.antt =====
-- Where the cut of a note falls.
use sshos.Base.{
  ℕ, suc, ◌+◌, ◌<◌, ◌≡◌, refl, sym, true, false, [], ◌∷◌, ◌++◌, Bytes, All, length, take,
  take-length-append, length-append, ltb, ◌==◌, arith,
}
use sshos.Base.Text.{strip_back, filter}
use sshos.Shell.UpdateState.{is_shown, is_continuation, clean_note, max_update_note_chars}
use sshos.Shell.UpdateState.Shown.{IsPlain}

filter_plain : (s : Bytes) → IsPlain s → filter is_shown s ≡ s
unfolding filter
filter_plain [] h = refl
filter_plain (c ∷ s) h = rw (h.0, filter_plain s h.1) refl

strip_all : (s : Bytes) → All (λ c. is_continuation c ≡ true) s → strip_back is_continuation s ≡ []
unfolding strip_back
strip_all [] h = refl
strip_all (c ∷ s) h = rw (h.0, strip_all s h.1) refl

strip_to :
    (before : Bytes) (lead : ℕ) (more : Bytes)
    → is_continuation lead ≡ false
    → All (λ c. is_continuation c ≡ true) more
    → strip_back is_continuation (before ++ lead ∷ more) ≡ before ++ lead ∷ []
unfolding strip_back
strip_to [] lead more n h = rw (n, strip_all more h) refl
strip_to (b ∷ before) lead more n h =
    let some_left : (length (before ++ lead ∷ []) == 0) ≡ false =
      ground (arith, length-append before (lead ∷ [])) in
    rw (strip_to before lead more n h, some_left) (ground arith)

-- A note of bytes that are shown, and more than 76: where the 76th continues a character, the bytes
-- up to the lead of that character are kept, with the lead, and those that continue it are not,
-- whether they were all there or not.
pub clean_note_half :
    (before : Bytes) (lead : ℕ) (more rest : Bytes)
    → IsPlain ((before ++ lead ∷ more) ++ rest)
    → is_continuation lead ≡ false
    → All (λ c. is_continuation c ≡ true) more
    → length before + suc (length more) ≡ 76
    → 0 < length rest
    → clean_note ((before ++ lead ∷ more) ++ rest) ≡ before ++ lead ∷ []
unfolding clean_note
clean_note_half before lead more rest plain n h size some_rest =
    let first = before ++ lead ∷ more in
    let l : length first ≡ 76 = omega (arith, size, length-append before (lead ∷ more)) in
    let long : ltb max_update_note_chars (length (first ++ rest)) ≡ true =
      ground (arith, l, length-append first rest) in
    let cut : take 76 (first ++ rest) ≡ first = take-length-append first rest 76 (sym l) in
    rw (filter_plain (first ++ rest) plain, long, cut, strip_to before lead more n h) refl
