-- ===== src/Daemon/Config/RoundTrip.antt =====
-- The settings are read back as they were written.
use sshos.Base.{
  ℕ, ◌<◌, ◌≡◌, refl, ap, ◌∙◌, Bool, true, false, ◌||◌, [], ◌∷◌, get_or, some, ◌++◌, Bytes, length,
  length-append, ◌==◌, if◌then◌else◌, arith,
}
use sshos.Base.Text.{codes, strip_front, strip_back, split_at_equals, lines_of}
use sshos.Daemon.Config.{
  DesktopConfig, new_config, trim, take_setting, is_blank, is_end, take_line, take_lines,
  parse_config, first_line, second_line, third_line, setting, render_config,
}

abbrev pub has_break : Bytes → Bool
has_break [] = false
has_break (b ∷ bs) = b == 0x0A || has_break bs

-- A path that can stand behind `start_dir =` on one line.
pub record IsPath (dir : Bytes) : Type 0 where
  pub some_byte : 0 < length dir
  pub one_line : has_break dir ≡ false
  pub front : strip_front is_blank dir ≡ dir
  pub back : strip_back is_end dir ≡ dir

lines_of-line :
    (line rest : Bytes)
    → has_break line ≡ false
    → lines_of (line ++ 0x0A ∷ rest) ≡ line ∷ lines_of rest
unfolding lines_of
lines_of-line [] rest h = refl
lines_of-line (b ∷ line) rest h =
    let other : (b == 0x0A) ≡ false = ground arith in
    let none_left : has_break line ≡ false = ground arith in
    rw (lines_of-line line rest none_left, other) refl

-- What is not trimmed at the end is not trimmed behind anything.
strip_back-append :
    (p : ℕ → Bool) (before dir : Bytes)
    → 0 < length dir
    → strip_back p dir ≡ dir
    → strip_back p (before ++ dir) ≡ before ++ dir
unfolding strip_back
strip_back-append p [] dir h e = e
strip_back-append p (b ∷ before) dir h e =
    let some_left : (length (before ++ dir) == 0) ≡ false =
      ground (arith, length-append before dir, h) in
    rw (strip_back-append p before dir h e, some_left) (ground arith)

trim-setting : (dir : Bytes) → IsPath dir → trim (setting dir) ≡ setting dir
unfolding strip_front
trim-setting dir p = strip_back-append is_end (codes "start_dir = ") dir p.some_byte p.back

front_value : (dir : Bytes) → IsPath dir → strip_front is_blank (b' ' ∷ dir) ≡ dir
unfolding strip_front
front_value dir p = p.front

trim_value : (dir : Bytes) → IsPath dir → trim (b' ' ∷ dir) ≡ dir
trim_value dir p = ap (strip_back is_end) (front_value dir p) ∙ p.back

trim_key : trim (codes "start_dir ") ≡ codes "start_dir"
unfolding strip_front strip_back
trim_key = refl

-- A line that is no comment.
take_line_lem :
    (line : Bytes) (c : DesktopConfig)
    → trim line ≡ line
    → (length line == 0 || get_or line 0 0 == b'#') ≡ false
    → take_line line c ≡ take_setting (split_at_equals line) c
unfolding take_line
take_line_lem line c e f = rw (e, f) refl

split_setting :
    (dir : Bytes) → split_at_equals (setting dir) ≡ some (codes "start_dir ", b' ' ∷ dir)
unfolding split_at_equals
split_setting dir = refl

take_line-setting :
    (dir : Bytes) (c : DesktopConfig)
    → IsPath dir
    → take_line (setting dir) c ≡ record c { start_dir = dir }
take_line-setting dir c p =
    take_line_lem (setting dir) c (trim-setting dir p) (ground arith)
    ∙ ap (λ o. take_setting o c) (split_setting dir)
    ∙ rw (trim_key, trim_value dir p) refl

-- The three lines of the head are comments.
take_line-comment :
    (line : Bytes) (c : DesktopConfig)
    → trim line ≡ line
    → get_or line 0 0 ≡ b'#'
    → 0 < length line
    → take_line line c ≡ c
unfolding take_line
take_line-comment line c e f h =
    let comment : (length line == 0 || get_or line 0 0 == b'#') ≡ true = ground arith in
    rw (e, comment) refl

head_trimmed :
    (trim first_line ≡ first_line)
    × (trim second_line ≡ second_line)
    × (trim third_line ≡ third_line)
unfolding strip_front strip_back
head_trimmed = (refl, refl, refl)

take_head :
    (rest : Bytes)
    → take_lines
        (lines_of (first_line ++ 0x0A ∷ (second_line ++ 0x0A ∷ (third_line ++ 0x0A ∷ rest))))
        new_config
      ≡ take_lines (lines_of rest) new_config
unfolding take_lines
take_head rest =
    ap (λ l. take_lines l new_config)
      (lines_of-line first_line (second_line ++ 0x0A ∷ (third_line ++ 0x0A ∷ rest)) refl
        ∙ ap (λ l. first_line ∷ l)
            (lines_of-line second_line (third_line ++ 0x0A ∷ rest) refl
              ∙ ap (λ l. second_line ∷ l) (lines_of-line third_line rest refl)))
    ∙ ap (take_lines (second_line ∷ third_line ∷ lines_of rest))
        (take_line-comment first_line new_config head_trimmed.0 refl (omega arith))
    ∙ ap (take_lines (third_line ∷ lines_of rest))
        (take_line-comment second_line new_config head_trimmed.1 refl (omega arith))
    ∙ ap (take_lines (lines_of rest))
        (take_line-comment third_line new_config head_trimmed.2 refl (omega arith))

no_line : (c : DesktopConfig) → take_lines (lines_of []) c ≡ c
unfolding take_lines lines_of take_line strip_front strip_back
no_line c = refl

-- A directory that is one line, without blanks around it, is read back from the file that is written
-- for it.
pub parse_config-render_config :
    (dir : Bytes)
    → IsPath dir
    → parse_config (render_config (record { start_dir = dir })) ≡ record { start_dir = dir }
unfolding take_lines
parse_config-render_config dir p =
    let q = p.some_byte in
    let set : (length dir == 0) ≡ false = ground arith in
    let rest = setting dir ++ 0x0A ∷ [] in
    ap
      (λ b. parse_config (
        first_line
        ++ 0x0A ∷ (second_line ++ 0x0A ∷ (third_line ++ 0x0A ∷ (if b then [] else rest)))))
      set
    ∙ take_head rest
    ∙ ap (λ l. take_lines l new_config) (lines_of-line (setting dir) [] p.one_line)
    ∙ ap (take_lines (lines_of [])) (take_line-setting dir new_config p)
    ∙ no_line (record { start_dir = dir })
