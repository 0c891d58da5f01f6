-- ===== src/Common/Utf8/Fold.antt =====
-- fold_to_ascii: the text for a client that does not announce UTF-8.
use sshos.Base.{
  ℕ, zero, suc, ◌+◌, ◌≤◌, ◌<◌, ◌≡◌, refl, Option, none, some, List, [], ◌∷◌, ◌++◌, arith, Bytes,
  All, All-append, length, Bool-cases, inl, inr, ltb, ltb→lt, lt→ltb, true, ◌==◌, if◌then◌else◌,
  append_assoc, append-nil, length-append,
}
use sshos.Common.Utf8.{utf8_decode, encode_utf8, IsScalar}
use sshos.Common.Utf8.Decode.{utf8_decode-IsStep}
use sshos.Common.Utf8.RoundTrip.{Reads-append, utf8_decode-encode_utf8}

-- `kFolds`: the letters and punctuation marks that have a spelling in ASCII.
abbrev pub folds : List (ℕ × Bytes)
folds =
    (0x00E0, 97 ∷ [])
    ∷ (0x00E2, 97 ∷ [])
    ∷ (0x00E4, 97 ∷ [])
    ∷ (0x00E1, 97 ∷ [])
    ∷ (0x00E3, 97 ∷ [])
    ∷ (0x00E5, 97 ∷ [])
    ∷ (0x00E7, 99 ∷ [])
    ∷ (0x00E8, 101 ∷ [])
    ∷ (0x00E9, 101 ∷ [])
    ∷ (0x00EA, 101 ∷ [])
    ∷ (0x00EB, 101 ∷ [])
    ∷ (0x00EC, 105 ∷ [])
    ∷ (0x00ED, 105 ∷ [])
    ∷ (0x00EE, 105 ∷ [])
    ∷ (0x00EF, 105 ∷ [])
    ∷ (0x00F1, 110 ∷ [])
    ∷ (0x00F2, 111 ∷ [])
    ∷ (0x00F3, 111 ∷ [])
    ∷ (0x00F4, 111 ∷ [])
    ∷ (0x00F6, 111 ∷ [])
    ∷ (0x00F5, 111 ∷ [])
    ∷ (0x00F9, 117 ∷ [])
    ∷ (0x00FA, 117 ∷ [])
    ∷ (0x00FB, 117 ∷ [])
    ∷ (0x00FC, 117 ∷ [])
    ∷ (0x00FD, 121 ∷ [])
    ∷ (0x00FF, 121 ∷ [])
    ∷ (0x00E6, 97 ∷ 101 ∷ [])
    ∷ (0x0153, 111 ∷ 101 ∷ [])
    ∷ (0x00DF, 115 ∷ 115 ∷ [])
    ∷ (0x00C0, 65 ∷ [])
    ∷ (0x00C2, 65 ∷ [])
    ∷ (0x00C4, 65 ∷ [])
    ∷ (0x00C1, 65 ∷ [])
    ∷ (0x00C3, 65 ∷ [])
    ∷ (0x00C5, 65 ∷ [])
    ∷ (0x00C7, 67 ∷ [])
    ∷ (0x00C8, 69 ∷ [])
    ∷ (0x00C9, 69 ∷ [])
    ∷ (0x00CA, 69 ∷ [])
    ∷ (0x00CB, 69 ∷ [])
    ∷ (0x00CC, 73 ∷ [])
    ∷ (0x00CD, 73 ∷ [])
    ∷ (0x00CE, 73 ∷ [])
    ∷ (0x00CF, 73 ∷ [])
    ∷ (0x00D1, 78 ∷ [])
    ∷ (0x00D2, 79 ∷ [])
    ∷ (0x00D3, 79 ∷ [])
    ∷ (0x00D4, 79 ∷ [])
    ∷ (0x00D6, 79 ∷ [])
    ∷ (0x00D5, 79 ∷ [])
    ∷ (0x00D9, 85 ∷ [])
    ∷ (0x00DA, 85 ∷ [])
    ∷ (0x00DB, 85 ∷ [])
    ∷ (0x00DC, 85 ∷ [])
    ∷ (0x00DD, 89 ∷ [])
    ∷ (0x00C6, 65 ∷ 69 ∷ [])
    ∷ (0x0152, 79 ∷ 69 ∷ [])
    ∷ (0x2019, 39 ∷ [])
    ∷ (0x2018, 39 ∷ [])
    ∷ (0x201C, 34 ∷ [])
    ∷ (0x201D, 34 ∷ [])
    ∷ (0x2013, 45 ∷ [])
    ∷ (0x2014, 45 ∷ [])
    ∷ (0x2026, 46 ∷ 46 ∷ 46 ∷ [])
    ∷ (0x00AB, 34 ∷ [])
    ∷ (0x00BB, 34 ∷ [])
    ∷ []

pub find_fold : ℕ → List (ℕ × Bytes) → Option Bytes
find_fold cp [] = none
find_fold cp ((key, to) ∷ rest) = if key == cp then some to else find_fold cp rest

-- `to != nullptr ? to : "?"`
abbrev or_mark : Option Bytes → Bytes
or_mark none = b'?' ∷ []
or_mark (some to) = to

-- What is appended for one decoded value.
pub fold_one : ℕ → Bytes
unfolding find_fold
fold_one cp = if ltb cp 0x80 then cp ∷ [] else or_mark (find_fold cp folds)

-- `while (i < s.size())`, with fuel; `none` means that the fuel ran out.
fold_loop : ℕ → Bytes → ℕ → Bytes → Option Bytes
fold_loop zero s i out = none
fold_loop (suc fuel) s i out =
    let rest = fold_loop fuel s (i + (utf8_decode s i).0) (out ++ fold_one (utf8_decode s i).1) in
    if ltb i (length s) then rest else some out

pub fold_to_ascii : Bytes → Option Bytes
unfolding fold_loop fold_one utf8_decode
fold_to_ascii s = fold_loop (suc (length s)) s 0 []

abbrev pub IsAscii : ℕ → Type 0
IsAscii c = c < 0x80

find_fold-IsAscii :
    (cp : ℕ) (table : List (ℕ × Bytes))
    → All (λ e. All IsAscii e.1) table
    → All IsAscii (or_mark (find_fold cp table))
unfolding find_fold
find_fold-IsAscii cp [] h = (omega arith, tt)
find_fold-IsAscii cp ((key, to) ∷ rest) h = elim (Bool-cases (key == cp)) [
  | inl e ↦ rw e h.0
  | inr e ↦ rw e (find_fold-IsAscii cp rest h.1)
]

fold_one-IsAscii : (cp : ℕ) → All IsAscii (fold_one cp)
unfolding fold_one
fold_one-IsAscii cp = elim (Bool-cases (ltb cp 0x80)) [
  | inl e ↦ rw e (ltb→lt cp 0x80 e, tt)
  | inr e ↦ rw e (find_fold-IsAscii cp folds (omega arith))
]

module _ (s : Bytes) where
  fold_loop-IsAscii :
      (fuel i : ℕ) (out : Bytes)
      → i ≤ length s
      → length s < fuel + i
      → All IsAscii out
      → (r : Bytes) × (fold_loop fuel s i out ≡ some r) × All IsAscii r
  unfolding fold_loop
  fold_loop-IsAscii zero i out l f h = absurd (omega arith)
  fold_loop-IsAscii (suc fuel) i out l f h = elim (Bool-cases (ltb i (length s))) [
    | inl e ↦
        let at : i < length s = ltb→lt i (length s) e in
        let step = utf8_decode-IsStep s i in
        rw e (
          fold_loop-IsAscii fuel _ _ (let w = step.within in omega (arith, w, at))
            (more step.advances) (All-append IsAscii out _ h (fold_one-IsAscii _)))
    | inr e ↦ rw e (out, refl, h)
  ]
    where
      more : 1 ≤ (utf8_decode s i).0 → length s < fuel + (i + (utf8_decode s i).0)
      more a = omega arith

-- On every input the loop ends, and what it builds is ASCII.
pub fold_to_ascii-IsAscii : (s : Bytes) → (r : Bytes) × (fold_to_ascii s ≡ some r) × All IsAscii r
unfolding fold_to_ascii
fold_to_ascii-IsAscii s = fold_loop-IsAscii s (suc (length s)) 0 [] (omega arith) (omega arith) tt

-- A text of scalars, and what folding should make of it.
abbrev pub encode_all : List ℕ → Bytes
encode_all [] = []
encode_all (cp ∷ cps) = encode_utf8 cp ++ encode_all cps

abbrev pub fold_all : List ℕ → Bytes
fold_all [] = []
fold_all (cp ∷ cps) = fold_one cp ++ fold_all cps

encode_utf8_pos : (cp : ℕ) → 0 < length (encode_utf8 cp)
unfolding encode_utf8
encode_utf8_pos cp = ground arith

fold_loop-encode_all :
    (cps : List ℕ) (fuel i : ℕ) (pre out : Bytes)
    → All IsScalar cps
    → i ≡ length pre
    → length (encode_all cps) < fuel
    → fold_loop fuel (pre ++ encode_all cps) i out ≡ some (out ++ fold_all cps)
unfolding fold_loop
fold_loop-encode_all [] zero i pre out h e f = absurd (omega arith)
fold_loop-encode_all [] (suc fuel) i pre out h e f = ground (arith, append-nil pre, append-nil out)
fold_loop-encode_all (cp ∷ cps) zero i pre out h e f = absurd (omega arith)
fold_loop-encode_all (cp ∷ cps) (suc fuel) i pre out h e f =
    rw (decoded, more)
      (rw (← append_assoc pre enc (encode_all cps), ← append_assoc out (fold_one cp) (fold_all cps))
        (fold_loop-encode_all cps fuel _ (pre ++ enc) (out ++ fold_one cp) h.1
          (omega (arith, length-append pre enc))
          (omega (arith, length-append enc (encode_all cps), encode_utf8_pos cp))))
  where
    enc : Bytes
    enc = encode_utf8 cp

    decoded : utf8_decode (pre ++ (enc ++ encode_all cps)) i ≡ (length enc, cp)
    decoded = utf8_decode-encode_utf8 _ i cp h.0 (rw e (Reads-append pre enc (encode_all cps)))

    more : ltb i (length (pre ++ (enc ++ encode_all cps))) ≡ true
    more = lt→ltb _ _ (
        omega (
          arith,
          length-append pre (enc ++ encode_all cps),
          length-append enc (encode_all cps),
          encode_utf8_pos cp,
        ))

-- The encoding of a list of scalars is folded scalar by scalar, each to its own replacement.
pub fold_to_ascii-encode_all :
    (cps : List ℕ) → All IsScalar cps → fold_to_ascii (encode_all cps) ≡ some (fold_all cps)
unfolding fold_to_ascii
fold_to_ascii-encode_all cps h =
    fold_loop-encode_all cps (suc (length (encode_all cps))) 0 [] [] h refl (omega arith)
