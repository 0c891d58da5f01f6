-- ===== src/Tests/Terminal.antt =====
-- The terminal's parser and its history, run.
use sshos.Base.{ℕ, ◌≡◌, refl, inl, inr, List, [], ◌∷◌, ◌++◌, map, arith, Bytes, All, IsByte}
use sshos.Render.Cell.{plain}
use sshos.Vt.Cell.{ScreenCell, blank}
use sshos.Vt.Parser.{print, csi, fresh}
use sshos.Vt.Parser.Safety.{IsSafe}
use sshos.Vt.Parser.Input.{feed-IsSafe, fresh-IsBounded}
use sshos.Vt.Parser.Machine.{feed}
use sshos.Vt.Parser.Text.{at_rest, IsPrintable, feed-encode_all}
use sshos.Vt.Parser.Sequences.{csi_bytes, all_numbers, opened, done, feed-csi_bytes}
use sshos.Common.Utf8.Fold.{encode_all}
use sshos.Vt.Scrollback.{Scrollback, trim, push, IsValid}
use sshos.Vt.Scrollback.Ring.{lines, last_of, push-lines}
use sshos.Vt.Scrollback.View.{shown, shown-push, push_op, back_op, scroll_all, scroll_all-IsValid}

-- `ESC [ ; 5 m`, a broken UTF-8 sequence, and a string that is cut short.
abbrev noise : Bytes
noise = 0x1B ∷ b'[' ∷ b';' ∷ b'5' ∷ b'm' ∷ 0xC3 ∷ 0x41 ∷ 0x1B ∷ b']' ∷ 0x18 ∷ []

noise-All : All IsByte noise
noise-All = (
  omega arith,
  (
    omega arith,
    (
      omega arith,
      (
        omega arith,
        (
          omega arith,
          (omega arith, (omega arith, (omega arith, (omega arith, (omega arith, tt))))),
        ),
      ),
    ),
  ),
)

feed-IsSafe_example : IsSafe (feed noise fresh)
feed-IsSafe_example = feed-IsSafe noise fresh noise-All fresh-IsBounded

letters-All : All IsPrintable (0x41 ∷ 0xE9 ∷ 0x1F600 ∷ [])
letters-All = (
  ((inl (omega arith), omega arith), omega arith, omega arith),
  (
    ((inl (omega arith), omega arith), omega arith, omega arith),
    (((inr (omega arith), omega arith), omega arith, omega arith), tt),
  ),
)

feed-encode_all_example :
    feed (encode_all (0x41 ∷ 0xE9 ∷ 0x1F600 ∷ [])) (at_rest fresh)
    ≡ (at_rest fresh, map print (0x41 ∷ 0xE9 ∷ 0x1F600 ∷ []))
feed-encode_all_example = feed-encode_all (0x41 ∷ 0xE9 ∷ 0x1F600 ∷ []) fresh letters-All

feed-csi_bytes_example : feed (csi_bytes 12 (0 ∷ 65535 ∷ []) b'H') (at_rest fresh) ≡ (
  done (opened (at_rest fresh)) (all_numbers 12 (0 ∷ 65535 ∷ [])),
  csi (all_numbers 12 (0 ∷ 65535 ∷ [])) [] b'H' ∷ [],
)
feed-csi_bytes_example =
    feed-csi_bytes fresh 12 (0 ∷ 65535 ∷ []) b'H' (omega arith)
      (omega arith, (omega arith, (omega arith, tt))) (omega arith) (omega arith)

-- A history of two lines that is full, read one line above its end.
abbrev letter : ℕ → ScreenCell
letter c = record { ch = c; width = 1; style = plain }

abbrev row : ℕ → List ScreenCell
row c = letter c ∷ blank ∷ blank ∷ []

abbrev history : Scrollback
history = record {
  capacity = 2;
  ring = (letter b'b' ∷ []) ∷ (letter b'a' ∷ []) ∷ [];
  head = 1;
  size = 2;
  offset = 1;
}

history-IsValid : IsValid history
history-IsValid = (refl, omega arith, omega arith, omega arith)

push-lines_example :
    lines (push (row b'c') history) ≡ last_of 2 (lines history ++ trim (row b'c') ∷ [])
push-lines_example = push-lines (row b'c') history history-IsValid

shown-push_example : shown (push (row b'c') history) 0 ≡ shown history 0
shown-push_example =
    shown-push (row b'c') history history-IsValid (omega arith) (omega arith) 0 (omega arith)

scroll_all-IsValid_example :
    IsValid (scroll_all (push_op (row b'c') ∷ back_op 9 ∷ push_op [] ∷ []) history)
scroll_all-IsValid_example =
    scroll_all-IsValid (push_op (row b'c') ∷ back_op 9 ∷ push_op [] ∷ []) history history-IsValid
