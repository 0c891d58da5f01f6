-- ===== src/Vt/Screen/Pairs.antt =====
-- The widths of a line: each first half of a wide character has its second half to its right, and
-- each second half its first to its left.
use sshos.Base.{
  ℕ, ◌+◌, ◌-◌, ◌≤◌, ◌<◌, ◌≡◌, ◌≢◌, Bool-cases, inl, inr, sym, subst, ◌∙◌, arith, ltb, ◌==◌, ◌&&◌,
  if◌then◌else◌, ◌⊎◌,
}

-- What holds of the column `x` of `n` columns of the widths `r`.
abbrev pub Matched : ℕ → (ℕ → ℕ) → ℕ → Type 0
Matched n r x = (r x ≡ 2 → (x + 1 < n) × (r (x + 1) ≡ 0)) × (r x ≡ 0 → (0 < x) × (r (x - 1) ≡ 2))

abbrev pub Pairs : ℕ → (ℕ → ℕ) → Type 0
Pairs n r = (x : ℕ) → x < n → Matched n r x

-- A column outside of those from `lo` to `hi`.
abbrev pub Outside : ℕ → ℕ → ℕ → Type 0
Outside lo hi x = (x < lo) ⊎ (hi < x)

-- The columns outside have their other halves outside too.
abbrev pub PairsOutside : ℕ → ℕ → ℕ → (ℕ → ℕ) → Type 0
PairsOutside n lo hi r =
    (x : ℕ)
    → x < n
    → Outside lo hi x
    → (r x ≡ 2 → (x + 1 < n) × Outside lo hi (x + 1) × (r (x + 1) ≡ 0))
      × (r x ≡ 0 → (0 < x) × Outside lo hi (x - 1) × (r (x - 1) ≡ 2))

-- `clear_wide_at` on widths.
abbrev pub cleared : ℕ → ℕ → (ℕ → ℕ) → ℕ → ℕ
cleared n x r u =
    if r x == 2 && ltb (x + 1) n
    then (if u == x + 1 then 1 else r u)
    else if r x == 0 && ltb 0 x
    then (if u == x - 1 then 1 else r u)
    else r u

-- The columns but `a` and `b` have their other halves in columns but these.
abbrev PairsBut : ℕ → ℕ → ℕ → (ℕ → ℕ) → Type 0
PairsBut n a b r =
    (x : ℕ)
    → x < n
    → x ≢ a
    → x ≢ b
    → (r x ≡ 2 → (x + 1 < n) × (x + 1 ≢ a) × (x + 1 ≢ b) × (r (x + 1) ≡ 0))
      × (r x ≡ 0 → (0 < x) × (x - 1 ≢ a) × (x - 1 ≢ b) × (r (x - 1) ≡ 2))

cleared-PairsBut : (n x : ℕ) (r : ℕ → ℕ) → x < n → Pairs n r → PairsBut n x x (cleared n x r)
cleared-PairsBut n x r h p u hu o o' =
    ground (arith, p u hu, p x h, p (x - 1), p (u + 1), p (u - 1))

cleared-PairsBut_two :
    (n a b : ℕ) (r : ℕ → ℕ) → b < n → a ≢ b → PairsBut n a a r → PairsBut n a b (cleared n b r)
cleared-PairsBut_two n a b r h ne p u hu o o' =
    let q = p b h (λ e. ne (sym e)) (λ e. ne (sym e)) in
    let k = p u hu o o in ground (arith, p (b - 1), p (b + 1), p (u + 1), p (u - 1))

cleared_same :
    (n x : ℕ) (r : ℕ → ℕ)
    → Pairs n r
    → x < n
    → (u : ℕ) → cleared n x (cleared n x r) u ≡ cleared n x r u
cleared_same n x r p h u = ground (arith, p x h)

PairsBut-same :
    (n a b : ℕ) (r t : ℕ → ℕ) → ((u : ℕ) → t u ≡ r u) → PairsBut n a b r → PairsBut n a b t
PairsBut-same n a b r t e p u hu o o' =
    let q = p u hu o o' in ground (arith, e u, e (u + 1), e (u - 1))

PairsBut-PairsOutside :
    (n lo hi : ℕ) (r : ℕ → ℕ) → lo ≤ hi → PairsBut n lo hi r → PairsOutside n lo hi r
PairsBut-PairsOutside n lo hi r l p u hu o =
    let q = p u hu (λ e. absurd (ground (arith, e))) (λ e. absurd (ground (arith, e))) in
    ground arith

pub cleared-PairsOutside :
    (n x : ℕ) (r : ℕ → ℕ) → x < n → Pairs n r → PairsOutside n x x (cleared n x r)
cleared-PairsOutside n x r h p =
    PairsBut-PairsOutside n x x (cleared n x r) (omega arith) (cleared-PairsBut n x r h p)

-- Both bounds of a span cleared, the left one first.
pub cleared_twice-PairsOutside :
    (n lo hi : ℕ) (r : ℕ → ℕ)
    → lo ≤ hi
    → hi < n
    → Pairs n r
    → PairsOutside n lo hi (cleared n hi (cleared n lo r))
cleared_twice-PairsOutside n lo hi r l h p = elim (Bool-cases (lo == hi)) [
  | inl e ↦
      subst (λ j. PairsOutside n lo j (cleared n j (cleared n lo r))) (ground arith)
        (PairsBut-PairsOutside n lo lo (cleared n lo (cleared n lo r)) (omega arith) (
          PairsBut-same n lo lo (cleared n lo r) _ (cleared_same n lo r p (omega arith))
            (cleared-PairsBut n lo r (omega arith) p)))
  | inr e ↦ PairsBut-PairsOutside n lo hi (cleared n hi (cleared n lo r)) l (
      cleared-PairsBut_two n lo hi (cleared n lo r) h (ground arith)
        (cleared-PairsBut n lo r (omega arith) p))
]

place_of : (lo hi x : ℕ) → ((lo ≤ x) × (x ≤ hi)) ⊎ Outside lo hi x
place_of lo hi x = elim (Bool-cases (ltb x lo)) [
  | inl e ↦ inr (inl (ground arith))
  | inr e ↦ elim (Bool-cases (ltb hi x)) [
    | inl f ↦ inr (inr (ground arith))
    | inr f ↦ inl (ground arith, ground arith)
  ]
]

-- Whatever is written between the bounds, if its halves are there, the line is whole again.
pub Pairs-between :
    (n lo hi : ℕ) (r t : ℕ → ℕ)
    → PairsOutside n lo hi r
    → ((x : ℕ) → x < n → Outside lo hi x → t x ≡ r x)
    → ((x : ℕ) → lo ≤ x → x ≤ hi → Matched n t x)
    → Pairs n t
Pairs-between n lo hi r t p same between x h = elim (place_of lo hi x) [
  | inl (a, b) ↦ between x a b
  | inr o ↦
      let q = p x h o in
      let e = same x h o in
      (
        (λ two. let (k, o', z) = q.0 (sym e ∙ two) in (k, same (x + 1) k o' ∙ z)),
        (λ zero_width.
            let (k, o', z) = q.1 (sym e ∙ zero_width) in (k, same (x - 1) (omega arith) o' ∙ z)),
      )
]

pub Pairs-same : (n : ℕ) (r t : ℕ → ℕ) → ((u : ℕ) → u < n → t u ≡ r u) → Pairs n r → Pairs n t
Pairs-same n r t e p x h =
    let (a, b) = p x h in
    (
      (λ two. let (k, z) = a (sym (e x h) ∙ two) in (k, e (x + 1) k ∙ z)),
      (λ zero_width. let (k, z) = b (sym (e x h) ∙ zero_width) in (k, e (x - 1) (omega arith) ∙ z)),
    )

pub cleared_cong :
    (n x : ℕ) (r t : ℕ → ℕ)
    → ((u : ℕ) → u < n → t u ≡ r u)
    → x < n
    → (u : ℕ) → u < n
    → cleared n x t u ≡ cleared n x r u
cleared_cong n x r t e h u hu = ground (arith, e x h, e u hu)

pub Matched-one : (n : ℕ) (r : ℕ → ℕ) (x : ℕ) → r x ≡ 1 → Matched n r x
Matched-one n r x e = ground arith
