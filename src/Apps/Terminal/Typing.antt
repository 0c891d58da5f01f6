-- ===== src/Apps/Terminal/Typing.antt =====
-- src/apps/terminal.cpp with the codec, the parser and the screen: what a guest writes is on the
-- line.
use sshos.Base.{ℕ, suc, ◌≤◌, ◌≡◌, ◌≢◌, refl, ap, ◌∙◌, Bool, List, [], ◌∷◌, length, get_or, All, map}
use sshos.Render.Width.{char_width}
use sshos.Common.Utf8.{IsScalar}
use sshos.Common.Utf8.Fold.{encode_all}
use sshos.Vt.Parser.{print}
use sshos.Vt.Parser.Machine.{feed}
use sshos.Vt.Parser.Text.{IsPrintable, at_rest, feed-encode_all}
use sshos.Vt.Screen.Pages.{line_text}
use sshos.Vt.Screen.Line.{Ready, print_all, line_text-print_all}
use sshos.Apps.Terminal.{Tab, handle, handle_all, receive}

handle_all-print :
    (ambiguous : Bool) (cps : List ℕ) (t : Tab)
    → (handle_all ambiguous (map print cps) t).screen ≡ print_all ambiguous cps t.screen
unfolding handle
handle_all-print ambiguous [] t = refl
handle_all-print ambiguous (cp ∷ cps) t =
    handle_all-print ambiguous cps (handle ambiguous (print cp) t)

scalars : (cps : List ℕ) → All IsPrintable cps → All IsScalar cps
scalars [] p = tt
scalars (cp ∷ cps) p = (p.0.0, scalars cps p.1)

receive-print_all :
    (ambiguous : Bool) (cps : List ℕ) (t : Tab)
    → All IsPrintable cps
    → t.parser ≡ at_rest t.parser
    → (receive ambiguous (encode_all cps) t).screen ≡ print_all ambiguous cps t.screen
unfolding receive
receive-print_all ambiguous cps t p rest =
    let fed : feed (encode_all cps) t.parser ≡ (at_rest t.parser, map print cps) =
      ap (feed (encode_all cps)) rest ∙ feed-encode_all cps t.parser p in
    rw fed (handle_all-print ambiguous cps (record t { parser = at_rest t.parser }))

-- A guest whose parser is between two sequences writes, in UTF-8, printable characters of one cell,
-- the last of them no space, at the start of a blank line that is long enough, in the charset ASCII
-- and with no wrap pending. The text of the line is then what the guest wrote, byte for byte.
pub receive-line_text :
    (ambiguous : Bool) (cps : List ℕ) (t : Tab) (last : ℕ)
    → All IsPrintable cps
    → All (λ cp. char_width ambiguous cp ≡ 1) cps
    → length cps ≡ suc last
    → get_or cps last b' ' ≢ b' '
    → length cps ≤ t.screen.cols
    → t.parser ≡ at_rest t.parser
    → Ready t.screen t.screen.cy []
    → line_text (receive ambiguous (encode_all cps) t).screen t.screen.cy ≡ encode_all cps
receive-line_text ambiguous cps t last p w l ne k rest r =
    ap (λ s. line_text s t.screen.cy) (receive-print_all ambiguous cps t p rest)
    ∙ line_text-print_all ambiguous cps t.screen last w (scalars cps p) l ne k r
