-- ===== src/Tests/Shell.antt =====
-- The state of the updates, read.
use sshos.Base.{ℕ, zero, suc, ◌≡◌, refl, [], ◌∷◌, ◌++◌, Bytes, replicate, arith}
use sshos.Base.Int.{pos}
use sshos.Base.Text.{codes}
use sshos.Shell.UpdateState.{parse_update_state, clean_note}
use sshos.Shell.UpdateState.Shown.{IsPlain, IsShowable, parse_update_state-IsShowable}
use sshos.Shell.UpdateState.Half.{clean_note_half}

-- A progress that is no percentage, and a note with an escape in it.
abbrev file : Bytes
file =
    codes "schema=1" ++ 0x0A ∷ codes "progress=137" ++ 0x0A ∷ codes "note_1=" ++ 0x1B ∷ codes "[31m"

parse_update_state-IsShowable_example : IsShowable (pos 1000) (parse_update_state file (pos 1000))
parse_update_state-IsShowable_example = parse_update_state-IsShowable (pos 1000) file

-- 74 letters, `é`, and a letter more.
abbrev letters : Bytes
letters = replicate 74 b'a'

letters-IsPlain : (n : ℕ) (s r : Bytes) → IsPlain (s ++ r) → IsPlain ((replicate n b'a' ++ s) ++ r)
letters-IsPlain zero s r h = h
letters-IsPlain (suc n) s r h = (refl, letters-IsPlain n s r h)

clean_note_half_example :
    clean_note ((letters ++ 0xC3 ∷ 0xA9 ∷ []) ++ b'b' ∷ []) ≡ letters ++ 0xC3 ∷ []
clean_note_half_example =
    clean_note_half letters 0xC3 (0xA9 ∷ []) (b'b' ∷ [])
      (letters-IsPlain 74 (0xC3 ∷ 0xA9 ∷ []) (b'b' ∷ []) (refl, (refl, (refl, tt)))) refl (refl, tt)
      refl (omega arith)
