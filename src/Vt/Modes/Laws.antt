-- ===== src/Vt/Modes/Laws.antt =====
-- What a mode reads after modes have been set.
use sshos.Base.{
  ℕ, Bool, true, false, ◌≡◌, refl, ap, ◌∙◌, [], ◌∷◌, some, Option-cases, Bool-cases, inl, inr, ◌==◌,
  ◌&&◌, ◌||◌, if◌then◌else◌, arith,
}
use sshos.Base.Int.{ℤ, pos, ==_ℤ, le_antisym_ℤ}
use sshos.Vt.Parser.{Params}
use sshos.Vt.Modes.{
  Modes, Flag, cursor_keys, autowrap_flag, visible, click_flag, drag_flag, any_flag, sgr_flag,
  alt_flag, paste_flag, read, write, find_in, find, set, get, knows, apply_dec_private,
}

code_of : Flag → ℕ
code_of cursor_keys = 1
code_of autowrap_flag = 7
code_of visible = 25
code_of click_flag = 1000
code_of drag_flag = 1002
code_of any_flag = 1003
code_of sgr_flag = 1006
code_of alt_flag = 1049
code_of paste_flag = 2004

read-write :
    (f g : Flag) (on : Bool) (m : Modes)
    → read f (write g on m) ≡ (if code_of f == code_of g then on else read f m)
unfolding code_of
read-write cursor_keys g on m = ground arith
read-write autowrap_flag g on m = ground arith
read-write visible g on m = ground arith
read-write click_flag g on m = ground arith
read-write drag_flag g on m = ground arith
read-write any_flag g on m = ground arith
read-write sgr_flag g on m = ground arith
read-write alt_flag g on m = ground arith
read-write paste_flag g on m = ground arith

equal_of : (a b : ℤ) → ==_ℤ a b ≡ true → a ≡ b
equal_of a b h = le_antisym_ℤ a b (ground arith) (ground arith)

-- The code of the flag that is found is the mode.
find-code_of : (mode : ℤ) (f : Flag) → find mode ≡ some f → ==_ℤ (pos (code_of f)) mode ≡ true
unfolding find_in code_of
find-code_of mode f h = ground arith

-- One mode set.
get-set :
    (mode other : ℤ) (on : Bool) (m : Modes)
    → get mode (set other on m) ≡ (if ==_ℤ other mode && knows mode then on else get mode m)
unfolding get set knows
get-set mode other on m = elim (Option-cases (find mode)) [
  | inl unknown ↦ rw unknown (ground arith)
  | inr (f, found) ↦ elim (Option-cases (find other)) [
    | inl unknown ↦ elim (Bool-cases (==_ℤ other mode)) [
      | inl e ↦ let q = ap find (equal_of other mode e) in absurd (ground (arith, q))
      | inr e ↦ rw (unknown, found) (ground (arith, e))
    ]
    | inr (g, named) ↦
        let a = equal_of (pos (code_of f)) mode (find-code_of mode f found) in
        let b = equal_of (pos (code_of g)) other (find-code_of other g named) in
        let c : (code_of f == code_of g) ≡ ==_ℤ other mode = rw (← a, ← b) (ground arith) in
        rw (named, found) (read-write f g on m ∙ rw c (ground arith))
  ]
]

abbrev pub mentions : ℤ → Params → Bool
mentions mode [] = false
mentions mode (p ∷ ps) = ==_ℤ p.value mode || mentions mode ps

-- A list of parameters sets the modes that it names and are known, and no other.
pub get-apply_dec_private :
    (mode : ℤ) (ps : Params) (on : Bool) (m : Modes)
    → get mode (apply_dec_private ps on m)
      ≡ (if mentions mode ps && knows mode then on else get mode m)
unfolding apply_dec_private
get-apply_dec_private mode [] on m = refl
get-apply_dec_private mode (p ∷ ps) on m =
    get-apply_dec_private mode ps on (set p.value on m) ∙ ground (arith, get-set mode p.value on m)
