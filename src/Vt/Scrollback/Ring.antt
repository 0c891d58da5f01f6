-- ===== src/Vt/Scrollback/Ring.antt =====
-- What the ring holds: the lines last pushed, in their order.
use native.Mathlib.Nat.{mod-eq_of_lt, mod-eq-sub-mod, mod-lt}
use sshos.Base.{
  ℕ, zero, suc, ◌+◌, ◌-◌, ◌%◌, ◌≤◌, ◌<◌, true, false, ◌≡◌, refl, sym, ap, ◌∙◌, inl, inr, List, [],
  ◌∷◌, ◌++◌, arith, length, drop, set, get_or, ltb, leb, ◌==◌, if◌then◌else◌, Bool-cases,
  length-set, get_or-set_same, get_or-set_other, length-append, drop_all, ◌⊎◌,
}
use sshos.Vt.Cell.{ScreenCell}
use sshos.Vt.Scrollback.{ScrollbackLine, Scrollback, follow, store, place, push, trim, at, IsValid}

abbrev slot : Scrollback → ℕ → ℕ
slot sb i = if ltb (sb.head + i) sb.capacity then sb.head + i else sb.head + i - sb.capacity

wrap : (m k : ℕ) → m < k + k → m % k ≡ (if ltb m k then m else m - k)
wrap m k h = elim (Bool-cases (ltb m k)) [
  | inl e ↦ rw e (mod-eq_of_lt (ground arith))
  | inr e ↦ rw e (let le : k ≤ m = ground arith in mod-eq-sub-mod le ∙ mod-eq_of_lt (ground arith))
]

at-slot :
    (sb : Scrollback) (i : ℕ)
    → sb.head ≤ sb.capacity - 1
    → sb.size ≤ sb.capacity
    → i < sb.size
    → at sb i ≡ get_or sb.ring (slot sb i) []
unfolding at
at-slot sb i a b c =
    let out : leb sb.size i ≡ false = ground arith in
    rw out (ap (λ j. get_or sb.ring j []) (wrap (sb.head + i) sb.capacity (omega arith)))

module _ (line : ScrollbackLine) (sb : Scrollback) where
  -- `place` where there is room left, and where there is none, without the remainders.
  abbrev pub grown : Scrollback
  grown = store (record sb { size = sb.size + 1 }) (slot sb sb.size) line

  abbrev pub cycled : Scrollback
  cycled = store (record sb { head = slot sb 1 }) sb.head line

  pub place_room : IsValid sb → sb.size < sb.capacity → place line sb ≡ grown
  place_room v room =
      let test : ltb sb.size sb.capacity ≡ true = ground arith in
      rw test (
        ap (λ j. store (record sb { size = sb.size + 1 }) j line)
          (wrap (sb.head + sb.size) sb.capacity (omega arith)))

  pub place_full : IsValid sb → sb.size ≡ sb.capacity → 0 < sb.size → place line sb ≡ cycled
  place_full v full some_line =
      let test : ltb sb.size sb.capacity ≡ false = ground arith in
      rw test (
        ap (λ j. store (record sb { head = j }) sb.head line)
          (wrap (sb.head + 1) sb.capacity (omega arith)))

  pub grown_old : IsValid sb → sb.size < sb.capacity → (i : ℕ) → i < sb.size → at grown i ≡ at sb i
  grown_old v room i h =
      at-slot grown i v.2 (omega arith) (omega arith)
      ∙ get_or-set_other sb.ring (slot sb sb.size) (slot sb i) line [] (ground arith)
      ∙ sym (at-slot sb i v.2 v.1 h)

  grown_new : IsValid sb → sb.size < sb.capacity → at grown sb.size ≡ line
  grown_new v room =
      at-slot grown sb.size v.2 (omega arith) (omega arith)
      ∙ get_or-set_same sb.ring (slot sb sb.size) line [] (ground arith)

  pub cycled_old :
      IsValid sb → sb.size ≡ sb.capacity → (i : ℕ) → suc i < sb.size → at cycled i ≡ at sb (suc i)
  cycled_old v full i h =
      at-slot cycled i (ground arith) v.1 (omega arith)
      ∙ ap (λ j. get_or (set sb.ring sb.head line) j []) same
      ∙ get_or-set_other sb.ring sb.head (slot sb (suc i)) line [] (ground arith)
      ∙ sym (at-slot sb (suc i) v.2 v.1 h)
    where
      same : slot cycled i ≡ slot sb (suc i)
      same = ground arith

  cycled_new : IsValid sb → sb.size ≡ sb.capacity → 0 < sb.size → at cycled (sb.size - 1) ≡ line
  cycled_new v full h =
      at-slot cycled (sb.size - 1) (ground arith) v.1 (omega arith)
      ∙ ap (λ j. get_or (set sb.ring sb.head line) j []) same
      ∙ get_or-set_same sb.ring sb.head line [] (omega arith)
    where
      same : slot cycled (sb.size - 1) ≡ sb.head
      same = ground arith

  pub place-IsValid : IsValid sb → 0 < sb.capacity → IsValid (place line sb)
  place-IsValid v some_slot = elim (Bool-cases (ltb sb.size sb.capacity)) [
    | inl e ↦ rw e (
      length-set sb.ring ((sb.head + sb.size) % sb.capacity) line ∙ v.0,
      ground arith,
      v.2,
      omega arith,
    )
    | inr e ↦ rw e (length-set sb.ring sb.head line ∙ v.0, v.1, next, v.3)
  ]
    where
      next : (sb.head + 1) % sb.capacity ≤ sb.capacity - 1
      next = omega (arith, mod-lt (sb.head + 1) some_slot)

-- The lines of the history, the oldest first.
abbrev pub lines_from : Scrollback → ℕ → ℕ → List ScrollbackLine
lines_from sb i zero = []
lines_from sb i (suc n) = at sb i ∷ lines_from sb (suc i) n

abbrev pub lines : Scrollback → List ScrollbackLine
lines sb = lines_from sb 0 sb.size

abbrev pub last_of {ℓ} : {A : Type ℓ} → ℕ → List A → List A
last_of k xs = drop (length xs - k) xs

lines_from_eq :
    (sb sb' : Scrollback) (i j n : ℕ)
    → ((k : ℕ) → k < n → at sb (k + i) ≡ at sb' (k + j))
    → lines_from sb i n ≡ lines_from sb' j n
lines_from_eq sb sb' i j zero h = refl
lines_from_eq sb sb' i j (suc n) h =
    rw
      (lines_from_eq sb sb' (suc i) (suc j) n
        (λ k lt. ap (at sb) (omega arith) ∙ h (suc k) (omega arith) ∙ ap (at sb') (omega arith)))
      (ap (λ l. l ∷ lines_from sb' (suc j) n)
        (ap (at sb) (omega arith) ∙ h 0 (omega arith) ∙ ap (at sb') (omega arith)))

lines_from_last :
    (sb : Scrollback) (i n : ℕ) → lines_from sb i (suc n) ≡ lines_from sb i n ++ at sb (n + i) ∷ []
lines_from_last sb i zero = ap (λ j. at sb j ∷ []) (omega arith)
lines_from_last sb i (suc n) =
    ap (◌∷◌ (at sb i)) (
      lines_from_last sb (suc i) n
      ∙ ap (λ j. lines_from sb (suc i) n ++ at sb j ∷ []) (omega arith))

length-lines_from : (sb : Scrollback) (i n : ℕ) → length (lines_from sb i n) ≡ n
length-lines_from sb i zero = refl
length-lines_from sb i (suc n) = ap suc (length-lines_from sb (suc i) n)

pub at_offset : (sb : Scrollback) (o i : ℕ) → at (record sb { offset = o }) i ≡ at sb i
unfolding at
at_offset sb o i = refl

lines_offset : (sb : Scrollback) (o : ℕ) → lines (record sb { offset = o }) ≡ lines sb
unfolding at
lines_offset sb o = lines_from_eq (record sb { offset = o }) sb 0 0 sb.size (λ k lt. refl)

lines-follow : (sb : Scrollback) → lines (follow sb) ≡ lines sb
lines-follow sb = elim (Bool-cases (ltb 0 sb.offset)) [
  | inr e ↦ rw e refl
  | inl e ↦ elim (Bool-cases (ltb sb.size (sb.offset + 1))) [
    | inl f ↦ rw (e, f) (lines_offset sb sb.size)
    | inr f ↦ rw (e, f) (lines_offset sb (sb.offset + 1))
  ]
]

lines-grown :
    (line : ScrollbackLine) (sb : Scrollback)
    → IsValid sb
    → sb.size < sb.capacity
    → lines (grown line sb) ≡ lines sb ++ line ∷ []
lines-grown line sb v room =
    ap (lines_from (grown line sb) 0) {y = suc sb.size} (omega arith)
    ∙ lines_from_last (grown line sb) 0 sb.size
    ∙ rw
        (
          lines_from_eq (grown line sb) sb 0 0 sb.size
              (λ k lt. grown_old line sb v room (k + 0) (omega arith)),
          grown_at,
        )
        refl
  where
    grown_at : at (grown line sb) (sb.size + 0) ≡ line
    grown_at = ap (at (grown line sb)) (omega arith) ∙ grown_new line sb v room

lines-cycled :
    (line : ScrollbackLine) (sb : Scrollback) (n : ℕ)
    → IsValid sb
    → sb.size ≡ sb.capacity
    → sb.size ≡ suc n
    → lines (cycled line sb) ≡ drop 1 (lines sb ++ line ∷ [])
lines-cycled line sb n v full e =
    ap (lines_from (cycled line sb) 0) e
    ∙ lines_from_last (cycled line sb) 0 n
    ∙ rw
        (
          lines_from_eq (cycled line sb) sb 0 1 n
              (λ k lt. cycled_old line sb v full (k + 0) (omega arith) ∙ ap (at sb) (omega arith)),
          cycled_at,
          e,
        )
        refl
  where
    cycled_at : at (cycled line sb) (n + 0) ≡ line
    cycled_at = ap (at (cycled line sb)) (omega arith) ∙ cycled_new line sb v full (omega arith)

length-lines_and :
    (sb : Scrollback) (line : ScrollbackLine) → length (lines sb ++ line ∷ []) ≡ suc sb.size
length-lines_and sb line =
    omega (arith, length-append (lines sb) (line ∷ []), length-lines_from sb 0 sb.size)

lines-place :
    (line : ScrollbackLine) (sb : Scrollback)
    → IsValid sb
    → 0 < sb.capacity
    → lines (place line sb) ≡ last_of sb.capacity (lines sb ++ line ∷ [])
lines-place line sb v some_slot = elim room_or_full [
  | inl room ↦
      ap lines (place_room line sb v room)
      ∙ lines-grown line sb v room
      ∙ ap (λ j. drop j (lines sb ++ line ∷ [])) {x = 0} (omega (arith, length-lines_and sb line))
  | inr (full, some_line) ↦
      ap lines (place_full line sb v full some_line)
      ∙ lines-cycled line sb (sb.size - 1) v full (omega arith)
      ∙ ap (λ j. drop j (lines sb ++ line ∷ [])) {x = 1} (omega (arith, length-lines_and sb line))
]
  where
    room_or_full : (sb.size < sb.capacity) ⊎ ((sb.size ≡ sb.capacity) × (0 < sb.size))
    room_or_full = ground arith

pub push_on :
    (cells : List ScreenCell) (sb : Scrollback)
    → 0 < sb.capacity
    → push cells sb ≡ follow (place (trim cells) sb)
unfolding push
push_on cells sb h = let e : sb.capacity == 0 ≡ false = ground arith in rw e refl

-- The history after `push` is the last lines, as many as the capacity, of what it was and the
-- trimmed row. A history of capacity 0 keeps nothing.
pub push-lines :
    (cells : List ScreenCell) (sb : Scrollback)
    → IsValid sb
    → lines (push cells sb) ≡ last_of sb.capacity (lines sb ++ trim cells ∷ [])
push-lines cells sb v = elim (Bool-cases (sb.capacity == 0)) [
  | inl e ↦ ap lines (push_off e) ∙ none_left e
  | inr e ↦
      ap lines (push_on cells sb (ground arith))
      ∙ lines-follow (place (trim cells) sb)
      ∙ lines-place (trim cells) sb v (ground arith)
]
  where
    push_off : sb.capacity == 0 ≡ true → push cells sb ≡ sb
    push_off e = unfold push in rw e refl

    none_left :
        sb.capacity == 0 ≡ true → lines sb ≡ last_of sb.capacity (lines sb ++ trim cells ∷ [])
    none_left e =
        ap (lines_from sb 0) {y = 0} (ground arith)
        ∙ sym (drop_all _ (lines sb ++ trim cells ∷ []) (ground arith))
