-- ===== src/Tests/Editor.antt =====
-- The lines of the editor, run.
use sshos.Base.{ℕ, suc, ◌-◌, ◌<◌, ◌≡◌, ◌≢◌, refl, ap, inr, false, [], ◌∷◌, arith, Bytes, length}
use sshos.Apps.Editor.{
  TextPos, TextBuffer, newline, index_of, load_loop, load, text, clamp, insert, erase_before,
  erase_at,
}
use sshos.Apps.Editor.File.{text-load}
use sshos.Apps.Editor.Flat.{place}
use sshos.Apps.Editor.Edits.{IsEdit, insert-IsEdit}
use sshos.Apps.Editor.Erase.{erase_before-IsEdit, erase_at-IsEdit}

-- Two lines, without a break behind the second.
abbrev file : Bytes
file = b'a' ∷ b'b' ∷ newline ∷ b'c' ∷ []

file-some : file ≢ []
file-some e = omega (arith, ap length e)

text-load_example : text (load file) ≡ file
text-load_example = text-load file file-some

-- The empty file comes back as one line break.
text-load_empty : text (load []) ≡ newline ∷ []
unfolding load load_loop index_of
text-load_empty = refl

abbrev buffer : TextBuffer
buffer = record {
  lines = (b'a' ∷ b'b' ∷ []) ∷ (b'c' ∷ []) ∷ [];
  modified = false;
  trailing_newline = false;
}

abbrev corner : TextPos
corner = record { line = 1; col = 0 }

-- Beyond the end of the first line.
abbrev beyond : TextPos
beyond = record { line = 0; col = 9 }

insert-IsEdit_example :
    IsEdit buffer
      (place buffer.lines (clamp buffer beyond))
      []
      (b'x' ∷ [])
      (insert beyond (b'x' ∷ []) buffer)
insert-IsEdit_example = insert-IsEdit buffer beyond (b'x' ∷ []) (omega arith)

corner-place : 0 < place buffer.lines (clamp buffer corner)
unfolding clamp
corner-place = omega arith

erase_before-IsEdit_example :
    (g : ℕ) × IsEdit buffer
      (place buffer.lines (clamp buffer corner) - 1)
      (g ∷ [])
      []
      (erase_before corner buffer)
erase_before-IsEdit_example = erase_before-IsEdit buffer corner (omega arith) corner-place

beyond-below : suc (clamp buffer beyond).line < 2
unfolding clamp
beyond-below = omega arith

erase_at-IsEdit_example :
    (g : ℕ) × IsEdit buffer
      (place buffer.lines (clamp buffer beyond))
      (g ∷ [])
      []
      (erase_at beyond buffer)
erase_at-IsEdit_example = erase_at-IsEdit buffer beyond (omega arith) (inr beyond-below)
