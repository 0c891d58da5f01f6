-- ===== src/Base/Decimal.antt =====
-- `std::to_string` of a number that is not negative: its decimal digits, as bytes.
use Prim.Native.Nat.{ℕ, zero, suc, ◌+◌, ◌/◌, ◌%◌}
use mathlib.Core.List.{[], ◌∷◌, ◌++◌}
use sshos.Base.Tests.{ltb, if◌then◌else◌}
use sshos.Base.Lists.{Bytes}

-- With fuel for the digits; a number has no more digits than its value, but for 0.
unfoldable pub digits : ℕ → ℕ → Bytes
digits zero n = []
digits (suc fuel) n =
    let rest = digits fuel (n / 10) in
    if ltb n 10 then (b'0' + n) ∷ [] else rest ++ (b'0' + n % 10) ∷ []

unfoldable pub to_string : ℕ → Bytes
unfolding digits
to_string n = digits (suc n) n
