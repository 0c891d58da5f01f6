-- ===== src/Tests/Screen.antt =====
-- The screen and the terminal, run.
use sshos.Base.{
  ℕ, ◌+◌, ◌*◌, ◌≤◌, ◌<◌, ◌≡◌, refl, true, false, List, [], ◌∷◌, arith, All, if◌then◌else◌, ◌&&◌,
  leb,
}
use sshos.Base.Int.{pos, ◌≤ℤ◌}
use sshos.Render.Cell.{plain}
use sshos.Render.Width.{char_width, last_from}
use sshos.Base.{length-replicate, inl, ap, ◌∙◌}
use sshos.Base.Access.{get_or-replicate_if}
use sshos.Vt.Scrollback.{default_scrollback_lines}
use sshos.Vt.Parser.Text.{IsPrintable}
use sshos.Common.Utf8.Fold.{encode_all}
use sshos.Vt.Cell.{ScreenCell, blank}
use sshos.Vt.Parser.{Param, Params}
use sshos.Vt.Attrs.{apply_sgr, sgr_loop}
use sshos.Vt.Attrs.Bounds.{IsStyle, plain-IsStyle, apply_sgr-IsStyle}
use sshos.Vt.Modes.{get, knows, default_modes, apply_dec_private}
use sshos.Vt.Modes.Laws.{mentions, get-apply_dec_private}
use sshos.Vt.Screen.{Screen, new_screen, cell, erased}
use sshos.Vt.Screen.Scroll.{scroll_slice_up}
use sshos.Vt.Screen.Edit.{insert_chars}
use sshos.Vt.Screen.Pages.{enter_alt_screen, leave_alt_screen, resize, line_text}
use sshos.Vt.Screen.Bounds.{IsValid}
use sshos.Vt.Screen.Reshape.{new_screen-IsValid}
use sshos.Vt.Screen.Run.{
  Op, print_op, line_feed_op, resize_op, tab_op, insert_chars_op, perform_all, perform_all-IsValid,
  erase_display_op, set_scroll_region_op, enter_alt_op, move_to_op, save_cursor_op,
}
use sshos.Vt.Screen.Sound.{IsSound, perform_all-IsSound}
use sshos.Vt.Screen.Kept.{blank_page-IsWhole}
use sshos.Vt.Screen.Cells.{page}
use sshos.Vt.Screen.Turn.{page-scroll_slice_up}
use sshos.Vt.Screen.Parked.{IsBack, leave-perform_all-enter}
use sshos.Vt.Screen.Lapses.{leave-resize-enter_pending, insert_chars_loses}
use sshos.Vt.Screen.Line.{Ready}
use sshos.Apps.Terminal.{new_tab, receive}
use sshos.Apps.Terminal.Calls.{receive-IsValid}
use sshos.Apps.Terminal.Typing.{receive-line_text}

abbrev small : Screen
small = new_screen (pos 10) (pos 3)

small-IsValid : IsValid small
small-IsValid = new_screen-IsValid (pos 10) (pos 3)

-- A wide character, a size that cuts it, an insertion, and a region that is out of bounds.
abbrev calls : List Op
calls =
    print_op 0x65E5
    ∷ resize_op (pos 1) (pos 9)
    ∷ insert_chars_op (pos 100)
    ∷ set_scroll_region_op (pos 7) (pos 900)
    ∷ line_feed_op
    ∷ tab_op
    ∷ []

perform_all-IsValid_example : IsValid (perform_all false calls small)
perform_all-IsValid_example = perform_all-IsValid false calls small small-IsValid

small-IsSound : IsSound small
small-IsSound = record {
  valid = small-IsValid;
  two_columns = omega arith;
  paired = record {
    columns = refl;
    lines = refl;
    shown = blank_page-IsWhole 10 3 blank refl;
    hidden = λ e. cc;
  };
}

abbrev tame : List Op
tame =
    print_op 0x65E5
    ∷ move_to_op (pos 1) (pos 0)
    ∷ print_op b'a'
    ∷ enter_alt_op
    ∷ resize_op (pos 5) (pos 2)
    ∷ erase_display_op 1
    ∷ []

perform_all-IsSound_example : IsSound (perform_all false tame small)
perform_all-IsSound_example =
    perform_all-IsSound false tame small (tt, (tt, (tt, (tt, (two, (tt, tt)))))) small-IsSound
  where
    two : pos 2 ≤ℤ pos 5
    two = omega arith

leave-perform_all-enter_example : IsBack small (
    leave_alt_screen (
      perform_all false
        (print_op b'a' ∷ save_cursor_op ∷ line_feed_op ∷ [])
        (enter_alt_screen small)))
leave-perform_all-enter_example =
    leave-perform_all-enter false (print_op b'a' ∷ save_cursor_op ∷ line_feed_op ∷ []) small refl
      (tt, (tt, (tt, tt)))

page-scroll_slice_up_example : page 10 (scroll_slice_up 0 1 1 small).grid 4 1 ≡ (
    if leb 0 1 && leb 1 1
    then (if leb (1 + 1) 1 then page 10 small.grid 4 (1 + 1) else erased small)
    else page 10 small.grid 4 1)
page-scroll_slice_up_example =
    page-scroll_slice_up small small-IsValid.full 0 1 1 (omega arith) (omega arith) 4 1
      (omega arith) (omega arith)

-- The cursor behind the last of ten letters.
abbrev waiting : Screen
waiting = record small { cx = 9; wrap_pending = true }

leave-resize-enter_pending_example :
    let t = leave_alt_screen (resize (pos 20) (pos 3) (enter_alt_screen waiting)) in
    (t.wrap_pending ≡ true) × (t.cx ≡ 9) × (t.cx + 1 < t.cols)
leave-resize-enter_pending_example =
    leave-resize-enter_pending (pos 20) (pos 3) waiting refl refl refl (omega arith)

-- `a`, and a wide character behind it.
abbrev letter : ℕ → ℕ → ScreenCell
letter c width = record { ch = c; width = width; style = plain }

abbrev short : Screen
short = record (new_screen (pos 5) (pos 1)) {
  grid = letter b'a' 1 ∷ letter 0x65E5 2 ∷ letter b' ' 0 ∷ blank ∷ blank ∷ [];
}

short-IsValid : IsValid short
short-IsValid =
    let v = new_screen-IsValid (pos 5) (pos 1) in
    record {
      some_column = v.some_column;
      some_line = v.some_line;
      full = refl;
      stops = v.stops;
      column = v.column;
      line = v.line;
      region = v.region;
      inside = v.inside;
      waiting = λ e. cc;
      back_column = v.back_column;
      back_line = v.back_line;
      history = v.history;
    }

insert_chars_loses_example : cell (insert_chars (pos 2) short) 2 0 ≡ erased short
insert_chars_loses_example =
    insert_chars_loses short 2 short-IsValid (omega arith) (omega arith) (refl) (refl)

-- 38;2 with two components only, and a number that is no attribute.
abbrev number : ℕ → Param
number n = record { value = pos n; sub = false }

abbrev colours : Params
colours = number 38 ∷ number 2 ∷ number 300 ∷ number 1 ∷ number 777 ∷ []

apply_sgr-IsStyle_example : (5 ≤ (sgr_loop 5 colours 0 plain).0) × IsStyle (apply_sgr colours plain)
apply_sgr-IsStyle_example = apply_sgr-IsStyle colours plain plain-IsStyle

get-apply_dec_private_example :
    get (pos 1049) (apply_dec_private (number 1049 ∷ number 5 ∷ []) true default_modes) ≡ (
      if mentions (pos 1049) (number 1049 ∷ number 5 ∷ []) && knows (pos 1049)
      then true
      else get (pos 1049) default_modes)
get-apply_dec_private_example =
    get-apply_dec_private (pos 1049) (number 1049 ∷ number 5 ∷ []) true default_modes

new_tab-IsValid : IsValid new_tab.screen
new_tab-IsValid =
    let v = new_screen-IsValid (pos 80) (pos 24) in
    record {
      some_column = v.some_column;
      some_line = v.some_line;
      full = v.full;
      stops = v.stops;
      column = v.column;
      line = v.line;
      region = v.region;
      inside = v.inside;
      waiting = v.waiting;
      back_column = v.back_column;
      back_line = v.back_line;
      history = (
        length-replicate {A = List ScreenCell} default_scrollback_lines [],
        omega arith,
        omega arith,
        omega arith,
      );
    }

receive-IsValid_example :
    IsValid (receive false (0x1B ∷ b'[' ∷ b'9' ∷ b'9' ∷ b'C' ∷ 0xE6 ∷ []) new_tab).screen
receive-IsValid_example =
    receive-IsValid false (0x1B ∷ b'[' ∷ b'9' ∷ b'9' ∷ b'C' ∷ 0xE6 ∷ []) new_tab new_tab-IsValid

-- `aé`, typed at the prompt.
abbrev typed : List ℕ
typed = b'a' ∷ 0xE9 ∷ []

typed-All : All IsPrintable typed
typed-All = (
  ((inl (omega arith), omega arith), omega arith, omega arith),
  (((inl (omega arith), omega arith), omega arith, omega arith), tt),
)

typed-narrow : All (λ cp. char_width false cp ≡ 1) typed
unfolding char_width last_from
typed-narrow = (refl, (refl, tt))

blank_at : (f : ScreenCell → ℕ) (u : ℕ) → f (page 80 new_tab.screen.grid u 0) ≡ f blank
blank_at f u = ap f (get_or-replicate_if (80 * 24) blank (0 * 80 + u) blank ∙ ground arith)

prompt : Ready new_tab.screen 0 []
prompt = record {
  writes = record {
    valid = new_tab-IsValid;
    plain_set = refl;
    shows = record {
      narrow = λ u hu. blank_at (λ (c : ScreenCell). c.width) u;
      holds = λ u hu. blank_at (λ (c : ScreenCell). c.ch) u;
    };
    on_line = refl;
  };
  behind = refl;
  no_wrap = refl;
}

receive-line_text_example :
    line_text (receive false (encode_all typed) new_tab).screen 0 ≡ encode_all typed
receive-line_text_example =
    receive-line_text false typed new_tab 1 typed-All typed-narrow refl (omega arith) (omega arith)
      refl prompt
