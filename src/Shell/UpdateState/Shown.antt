-- ===== src/Shell/UpdateState/Shown.antt =====
-- Whatever the file holds, what is shown of it is bounded and drives nothing.
use sshos.Base.{
  ℕ, zero, suc, ◌+◌, ◌≤◌, ◌<◌, ◌≡◌, refl, inl, inr, Bool, true, false, ◌&&◌, ◌||◌, Option, none,
  some, List, [], ◌∷◌, ◌++◌, Bytes, All, length, take, length-take, ltb, ◌==◌, if◌then◌else◌, arith,
  Bool-cases,
}
use sshos.Base.Int.{ℤ}
use sshos.Base.Text.{lines_of, split_at_equals, codes, ==_Bytes, strip_back, filter}
use sshos.Shell.UpdateState.{
  UpdateState, new_state, is_version, is_shown, is_continuation, clean_note, field_names,
  note_index, Reading, fresh, take_key, is_seen, take_entry, take_lines, note_at, collect, finish,
  parse_update_state, max_update_note_chars, max_state_bytes, trim,
}
use sshos.Shell.UpdateState.Fields.{IsBounded, touched, with_field-IsBounded}

-- Only bytes that are no control codes.
abbrev pub IsPlain : Bytes → Type 0
IsPlain s = All (λ c. is_shown c ≡ true) s

abbrev pub IsNote : Bytes → Type 0
IsNote note = (0 < length note) × (length note ≤ 76) × IsPlain note

pub record IsShowable (now : ℤ) (u : UpdateState) : Type 0 where
  pub bounded : IsBounded now u
  pub notes : All IsNote u.notes
  pub few_notes : length u.notes ≤ 6

-- Notes.
filter-All : (s : Bytes) → IsPlain (filter is_shown s)
unfolding filter
filter-All [] = tt
filter-All (c ∷ s) = elim (Bool-cases (is_shown c)) [
  | inl e ↦ rw e (e, filter-All s)
  | inr e ↦ rw e (filter-All s)
]

module _ (P : ℕ → Type 0) where
  All-take : (n : ℕ) (s : Bytes) → All P s → All P (take n s)
  All-take zero s h = tt
  All-take (suc n) [] h = tt
  All-take (suc n) (c ∷ s) h = (h.0, All-take n s h.1)

  All-strip_back : (p : ℕ → Bool) (s : Bytes) → All P s → All P (strip_back p s)
  unfolding strip_back
  All-strip_back p [] h = tt
  All-strip_back p (c ∷ s) h = elim (Bool-cases (p c && length (strip_back p s) == 0)) [
    | inl e ↦ rw e tt
    | inr e ↦ rw e (h.0, All-strip_back p s h.1)
  ]

length-strip_back : (p : ℕ → Bool) (s : Bytes) → length (strip_back p s) ≤ length s
unfolding strip_back
length-strip_back p [] = omega arith
length-strip_back p (c ∷ s) = ground (arith, length-strip_back p s)

clean_note-IsPlain : (v : Bytes) → IsPlain (clean_note v) × (length (clean_note v) ≤ 76)
unfolding clean_note
clean_note-IsPlain v =
    let out = filter is_shown v in
    elim (Bool-cases (ltb max_update_note_chars (length out))) [
      | inl e ↦ rw e (
        All-strip_back (λ c. is_shown c ≡ true) is_continuation (take 76 out)
            (All-take (λ c. is_shown c ≡ true) 76 out (filter-All v)),
        omega (arith, length-strip_back is_continuation (take 76 out), length-take 76 out),
      )
      | inr e ↦ rw e (filter-All v, ground arith)
    ]

abbrev IsKept : Bytes → Type 0
IsKept note = IsPlain note × (length note ≤ 76)

note_at-IsKept :
    (rank : ℕ) (notes : List (ℕ × Bytes))
    → All (λ n. IsKept n.1) notes
    → IsKept (note_at rank notes)
unfolding note_at
note_at-IsKept rank [] h = (tt, omega arith)
note_at-IsKept rank ((n, note) ∷ notes) h = elim (Bool-cases (n == rank)) [
  | inl e ↦ rw e h.0
  | inr e ↦ rw e (note_at-IsKept rank notes h.1)
]

collect-All :
    (count rank : ℕ) (notes : List (ℕ × Bytes))
    → All (λ n. IsKept n.1) notes
    → All IsNote (collect count rank notes) × (length (collect count rank notes) ≤ count)
unfolding collect
collect-All zero rank notes h = (tt, omega arith)
collect-All (suc count) rank notes h =
    let k = note_at-IsKept rank notes h in
    let ih = collect-All count (rank + 1) notes h in
    elim (Bool-cases (length (note_at rank notes) == 0)) [
      | inl e ↦ rw e (tt, omega arith)
      | inr e ↦ rw e (((ground arith, k.1, k.0), ih.0), omega (arith, ih.1))
    ]

All-append-one :
    (notes : List (ℕ × Bytes)) (n : ℕ × Bytes)
    → All (λ n. IsKept n.1) notes
    → IsKept n.1
    → All (λ n. IsKept n.1) (notes ++ n ∷ [])
All-append-one [] n h k = (k, tt)
All-append-one (m ∷ notes) n h k = (h.0, All-append-one notes n h.1 k)

record IsGood (now : ℤ) (r : Reading) : Type 0 where
  bounded : IsBounded now r.parsed
  kept : All (λ n. IsKept n.1) r.noted

module _ (now : ℤ) where
  IsGood-if :
      (b : Bool) (r s : Reading) → IsGood now r → IsGood now s → IsGood now (if b then r else s)
  IsGood-if true r s h k = h
  IsGood-if false r s h k = k

  take_key-IsGood :
      (key value : Bytes) (r : Reading) → IsGood now r → IsGood now (take_key now key value r)
  unfolding take_key
  take_key-IsGood key value r h =
      let c = clean_note-IsPlain value in
      IsGood-if (==_Bytes key (codes "schema")) _ _ (record { bounded = h.bounded; kept = h.kept })
        (IsGood-if (is_seen key field_names) _ _
          (record {
            bounded = with_field-IsBounded now r.parsed h.bounded key value;
            kept = h.kept;
          })
          (IsGood-if (note_index key == 0) _ _ h (record {
            bounded = h.bounded;
            kept = All-append-one r.noted (note_index key, clean_note value) h.kept c;
          })))

  take_entry-IsGood :
      (o : Option (Bytes × Bytes)) (r : Reading) → IsGood now r → IsGood now (take_entry now o r)
  unfolding take_entry
  take_entry-IsGood none r h = h
  take_entry-IsGood (some (key, value)) r h =
      IsGood-if (length (trim key) == 0 || is_seen (trim key) r.seen) _ _ h
        (take_key-IsGood (trim key) (trim value) _ (record { bounded = h.bounded; kept = h.kept }))

  take_lines-IsGood :
      (lines : List Bytes) (r : Reading) → IsGood now r → IsGood now (take_lines now lines r)
  unfolding take_lines
  take_lines-IsGood [] r h = h
  take_lines-IsGood (line ∷ lines) r h =
      take_lines-IsGood lines (take_entry now (split_at_equals line) r)
        (take_entry-IsGood (split_at_equals line) r h)

  new_state-IsBounded : IsBounded now new_state
  unfolding is_version
  new_state-IsBounded = record {
    installed = (omega arith, refl);
    remote = (omega arith, refl);
    ahead = (omega arith, omega arith);
    checked = (omega arith, inl refl);
    stage = omega arith;
    progress = (omega arith, omega arith);
    message = omega arith;
  }

  new_state-IsShowable : IsShowable now new_state
  new_state-IsShowable = record {
    bounded = new_state-IsBounded;
    notes = tt;
    few_notes = omega arith;
  }

  finish-IsShowable : (r : Reading) → IsGood now r → IsShowable now (finish r)
  unfolding finish
  finish-IsShowable r h =
      let c = collect-All 6 1 r.noted h.kept in
      elim (Bool-cases r.schema_ok) [
        | inl e ↦ rw e (record {
          bounded = touched now r.parsed _ _ _ _ _ _ _ _ _ h.bounded;
          notes = c.0;
          few_notes = c.1;
        })
        | inr e ↦ rw e new_state-IsShowable
      ]

  -- Whatever bytes the file has, and whatever the time, the versions are digits and dots, the counts
  -- are within their bounds, the time of the last check is not in the future, the texts are not
  -- longer than their bounds, and the notes, six at most, are neither empty nor longer than 76 bytes
  -- and have no control codes.
  pub parse_update_state-IsShowable : (raw : Bytes) → IsShowable now (parse_update_state raw now)
  unfolding parse_update_state
  parse_update_state-IsShowable raw =
      let fresh_good : IsGood now fresh = record { bounded = new_state-IsBounded; kept = tt } in
      elim (Bool-cases (ltb max_state_bytes (length raw))) [
        | inl e ↦ rw e new_state-IsShowable
        | inr e ↦ rw e (
            finish-IsShowable (take_lines now (lines_of raw) fresh)
              (take_lines-IsGood (lines_of raw) fresh fresh_good))
      ]
