-- ===== src/Base/Text.antt =====
-- Texts of bytes, as the program compares and trims them.
use Prim.Native.Nat.{ℕ}
use Prim.Native.Char.{code}
use Prim.Native.String.{String}
use mathlib.Core.Bool.{Bool, true, false, ◌&&◌}
use mathlib.Core.Option.{Option, none, some}
use mathlib.Core.List.{List, [], ◌∷◌}
use sshos.Base.Tests.{◌==◌, if◌then◌else◌}
use sshos.Base.Lists.{Bytes, length}

-- The bytes of an ASCII text.
abbrev pub codes : String → Bytes
codes String.[] = []
codes (String.◌∷◌ c s) = code c ∷ codes s

abbrev pub ==_Bytes : Bytes → Bytes → Bool
==_Bytes [] [] = true
==_Bytes (a ∷ r) (b ∷ bs) = a == b && ==_Bytes r bs
==_Bytes _ _ = false

module _ {ℓ} {A : Type ℓ} where
  -- Entries are taken off the front, or off the back, as long as the test holds.
  unfoldable pub strip_front : (A → Bool) → List A → List A
  strip_front p [] = []
  strip_front p (x ∷ xs) = let rest = strip_front p xs in if p x then rest else x ∷ xs

  unfoldable pub strip_back : (A → Bool) → List A → List A
  strip_back p [] = []
  strip_back p (x ∷ xs) =
      let rest = strip_back p xs in if p x && length rest == 0 then [] else x ∷ rest

  unfoldable pub filter : (A → Bool) → List A → List A
  filter p [] = []
  filter p (x ∷ xs) = let rest = filter p xs in if p x then x ∷ rest else rest

-- The text before the first `=`, and the one behind it.
unfoldable pub split_at_equals : Bytes → Option (Bytes × Bytes)
split_at_equals [] = none
split_at_equals (b ∷ bs) =
    let rest = split_at_equals bs in
    if b == b'='
    then some ([], bs)
    else elim rest [ none ↦ none | some (key, value) ↦ some (b ∷ key, value) ]

-- The lines of a text: one more than it has line breaks.
abbrev pub onto_first : ℕ → List Bytes → List Bytes
onto_first b [] = (b ∷ []) ∷ []
onto_first b (line ∷ lines) = (b ∷ line) ∷ lines

unfoldable pub lines_of : Bytes → List Bytes
lines_of [] = [] ∷ []
lines_of (b ∷ bs) = let rest = lines_of bs in if b == 0x0A then [] ∷ rest else onto_first b rest
