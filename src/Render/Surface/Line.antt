-- ===== src/Render/Surface/Line.antt =====
-- The widths of a line of the surface while its cells are overwritten.
use sshos.Base.{ℕ, ◌+◌, ◌-◌, ◌<◌, ◌≡◌, ◌&&◌, ltb, ◌==◌, if◌then◌else◌, arith}
use sshos.Vt.Screen.Pairs.{Pairs, PairsOutside, Outside}

-- `cleanup_left`, and `cleanup_right`, on widths.
abbrev pub without_left : ℕ → (ℕ → ℕ) → ℕ → ℕ
without_left x r u = if ltb 0 x && r (x - 1) == 2 then (if u == x - 1 then 1 else r u) else r u

abbrev pub without_right : ℕ → ℕ → (ℕ → ℕ) → ℕ → ℕ
without_right n x r u =
    if ltb (x + 1) n && r (x + 1) == 0 then (if u == x + 1 then 1 else r u) else r u

abbrev pub without : ℕ → ℕ → (ℕ → ℕ) → ℕ → ℕ
without n x r = without_right n x (without_left x r)

pub without-PairsOutside :
    (n x : ℕ) (r : ℕ → ℕ) → x < n → Pairs n r → PairsOutside n x x (without n x r)
without-PairsOutside n x r h p u hu o =
    ground (arith, p u hu, p x h, p (x - 1), p (x + 1), p (u + 1), p (u - 1))

widened :
    (n x : ℕ) (r : ℕ → ℕ)
    → x + 1 < n
    → PairsOutside n x x r
    → PairsOutside n x (x + 1) (without n (x + 1) r)
widened n x r h p u hu o =
    let o' : Outside x x u = ground arith in let q = p u hu o' in ground arith

pub without_two-PairsOutside :
    (n x : ℕ) (r : ℕ → ℕ)
    → x + 1 < n
    → Pairs n r
    → PairsOutside n x (x + 1) (without n (x + 1) (without n x r))
without_two-PairsOutside n x r h p =
    widened n x (without n x r) h (without-PairsOutside n x r (omega arith) p)

pub without_cong :
    (n x : ℕ) (r t : ℕ → ℕ)
    → ((u : ℕ) → u < n → t u ≡ r u)
    → x < n
    → (u : ℕ) → u < n
    → without n x t u ≡ without n x r u
without_cong n x r t e h u hu =
    let here = e u hu in
    let before = e (x - 1) (omega arith) in let next = e (x + 1) in ground arith
