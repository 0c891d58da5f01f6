-- ===== src/Base/Access.antt =====
-- What stands at a place of a list that is cut, joined or written.
use Prim.Native.Nat.{ℕ, zero, suc, ◌+◌, ◌-◌, ◌<◌}
use mathlib.Core.Path.{◌≡◌, refl, ap, ◌∙◌}
use mathlib.Core.List.{List, [], ◌∷◌, ◌++◌}
use native.Mathlib.Omega.{arith}
use sshos.Base.Tests.{ltb, ◌==◌, if◌then◌else◌}
use sshos.Base.Lists.{length, get_or, set, take, drop, replicate}

module _ {ℓ} {A : Type ℓ} where
  pub get_or-take_if :
      (n : ℕ) (xs : List A) (i : ℕ) (d : A)
      → get_or (take n xs) i d ≡ (if ltb i n then get_or xs i d else d)
  get_or-take_if zero xs i d = ground arith
  get_or-take_if (suc n) [] i d = ground arith
  get_or-take_if (suc n) (x ∷ xs) zero d = ground arith
  get_or-take_if (suc n) (x ∷ xs) (suc i) d = ground (arith, get_or-take_if n xs i d)

  pub get_or-drop :
      (n : ℕ) (xs : List A) (i : ℕ) (d : A) → get_or (drop n xs) i d ≡ get_or xs (n + i) d
  get_or-drop zero xs i d = ap (λ j. get_or xs j d) (omega arith)
  get_or-drop (suc n) [] i d = refl
  get_or-drop (suc n) (x ∷ xs) i d =
      get_or-drop n xs i d ∙ ap (λ j. get_or (x ∷ xs) j d) {x = suc (n + i)} (omega arith)

  pub get_or-replicate_if :
      (n : ℕ) (a : A) (i : ℕ) (d : A) → get_or (replicate n a) i d ≡ (if ltb i n then a else d)
  get_or-replicate_if zero a i d = ground arith
  get_or-replicate_if (suc n) a zero d = ground arith
  get_or-replicate_if (suc n) a (suc i) d = ground (arith, get_or-replicate_if n a i d)

  pub get_or-append_if :
      (xs ys : List A) (i : ℕ) (d : A)
      → get_or (xs ++ ys) i d
        ≡ (if ltb i (length xs) then get_or xs i d else get_or ys (i - length xs) d)
  get_or-append_if [] ys i d = ground arith
  get_or-append_if (x ∷ xs) ys zero d = ground arith
  get_or-append_if (x ∷ xs) ys (suc i) d = ground (arith, get_or-append_if xs ys i d)

  pub get_or-set_if :
      (xs : List A) (i j : ℕ) (v d : A)
      → i < length xs
      → get_or (set xs i v) j d ≡ (if i == j then v else get_or xs j d)
  get_or-set_if [] i j v d h = absurd (omega arith)
  get_or-set_if (x ∷ xs) zero zero v d h = ground arith
  get_or-set_if (x ∷ xs) zero (suc j) v d h = ground arith
  get_or-set_if (x ∷ xs) (suc i) zero v d h = ground arith
  get_or-set_if (x ∷ xs) (suc i) (suc j) v d h = ground (arith, get_or-set_if xs i j v d)
